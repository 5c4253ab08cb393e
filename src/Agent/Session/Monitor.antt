-- ===== src/Agent/Session/Monitor.antt =====
-- agent.rs: the monitor's handle and the task that runs it.
use michoi.Common.{ℕ, none, some, [], ◌∷◌, ◌≡◌, refl}
use michoi.Common.Bytes.{Str}
use michoi.Net.{Ipv4Addr}
use michoi.Call.{idle}
use michoi.Agent.{MonitorHandle, Agent, Clock, cancelled, emit}
use michoi.Agent.Session.{start_monitor_now, stop_monitor_now, monitor_ended}

-- A monitor is started while another one runs, no call being active. The old task is told to
-- cancel; when it ends, it takes the handle of the new monitor away, and with it closes the watch
-- channel that keeps the new task running: the Agent is left without a monitor.
pub restart_loses_monitor :
    (clock later : Clock) (camera_id reason : Str) (cancel : ℕ) (ip : Ipv4Addr)
    (old : MonitorHandle) (agent : Agent)
    → agent.call.machine.state.phase ≡ idle
    → agent.monitor ≡ some old
    → ((start_monitor_now clock camera_id cancel (some ip) agent).1.0 ≡ cancelled old.cancel ∷ [])
      × (((start_monitor_now clock camera_id cancel (some ip) agent).0.monitor
            ≡ some (record { camera = record { id = camera_id; ip = ip }; cancel = cancel }))
          × (((monitor_ended later old.camera reason
                  (start_monitor_now clock camera_id cancel (some ip) agent).0).0.monitor
                ≡ none)
              × ((monitor_ended later old.camera reason
                    (start_monitor_now clock camera_id cancel (some ip) agent).0).1
                  ≡ cancelled cancel ∷ [])))
unfolding start_monitor_now stop_monitor_now monitor_ended emit
restart_loses_monitor clock later camera_id reason cancel ip old agent free running =
    rw (free, running) (refl, (refl, (refl, refl)))
