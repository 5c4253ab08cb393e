-- ===== src/Examples/Agents.antt =====
-- agent.rs: the theorems at a concrete Agent.
use michoi.Common.{arith}
use michoi.Common.{◌≡◌, refl, true, false, none, some, Option, List, [], ◌∷◌, ◌⊎◌}
use michoi.Common.Bytes.{ascii}
use michoi.Net.{Ipv4Addr}
use michoi.Call.{CallPhase, idle, ringing, connected, remote, CallMachine, fresh_state}
use michoi.Api.{claim, unlock, hangup, agent_offline, rejected, AudioChunk}
use michoi.EventLog.{EventLog}
use michoi.CommandCache.{CommandCache, get}
use michoi.MediaRing.{MediaRing}
use michoi.MediaRing.Accounting.{new-IsWithin}
use michoi.Protocol.{Station, packet}
use michoi.Protocol.Jpeg.{JpegReassembler, empty}
use michoi.Protocol.Jpeg.Tidy.{empty-IsTidy}
use michoi.Agent.{
  door_side, pad_side, Peers, peers_endpoints, MonitorHandle, Agent, Clock, cancelled,
}
use michoi.Agent.Identity.{Sighting, address, mac, session, observe_all}
use michoi.Agent.Identity.Pinned.{KeepsPins, observe_all-KeepsPins}
use michoi.Agent.Command.{execute}
use michoi.Agent.Command.Retry.{done, command, execute_later_replays}
use michoi.Agent.Command.Outcome.{
  IsAnnounced, execute_announces, MayUnlock, unlock_sends_lawfully, claim_keeps_call,
}
use michoi.Agent.Session.{start_monitor_now, monitor_ended}
use michoi.Agent.Session.Monitor.{restart_loses_monitor}
use michoi.Agent.Dispatch.{on_wire}
use michoi.Agent.Dispatch.Kept.{IsDone}
use michoi.Agent.Dispatch.Total.{on_wire_total}
use michoi.Agent.Talk.{Dialled, talk, dial_now}
use michoi.Agent.Talk.Allowed.{talk_sends_lawfully, dial_now_exclusive}

abbrev pub here : Ipv4Addr
here = record { a = 10; b = 0; c = 0; d = 2 }

abbrev pub there : Ipv4Addr
there = record { a = 10; b = 0; c = 0; d = 3 }

abbrev pub front_door : Station
front_door = record { id = ascii "D1"; ip = here }

abbrev pub flat : Station
flat = record { id = ascii "S1"; ip = there }

abbrev pub home : Peers
home = record {
  room = flat;
  door = some front_door;
  door_mac = none;
  pad_mac = none;
  control_port = 10000;
}

abbrev pub clock : Clock
clock = record { now_ms = 100; instant = 50; pts_us = 7 }

abbrev pub machine_in : CallPhase → CallMachine
machine_in phase = record {
  state = fresh_state 1 phase;
  cooldown = 10;
  unlock_requires_answer = true;
  last_unlock = none;
}

abbrev pub empty_log : EventLog
empty_log = record { events = []; next_seq = 1; live = []; capacity = 256 }

abbrev pub empty_cache : CommandCache
empty_cache = record { results = []; order = []; capacity = 256 }

-- An Agent in a given phase, with a monitor or none.
abbrev pub agent_in : CallPhase → Option MonitorHandle → MediaRing → JpegReassembler → Agent
agent_in phase monitor history jpeg = record {
  peers = home;
  call = record { machine = machine_in phase; since_ms = none; next_session = 2 };
  events = empty_log;
  commands = empty_cache;
  video = [];
  audio = [];
  latest = none;
  history = history;
  jpeg = jpeg;
  audio_seq = 0;
  mismatches = 0;
  elevator_acks = [];
  monitor_frames = 0;
  monitor = monitor;
  call_session = none;
}

abbrev no_media : MediaRing
no_media = record {
  inner = record { video = []; audio = []; bytes = 0 };
  window_us = 1000;
  max_bytes = 64;
}

abbrev no_frames : JpegReassembler
no_frames = record { frames = []; order = [] }

abbrev bell : Agent
bell = agent_in ringing none no_media no_frames

abbrev quiet : Agent
quiet = agent_in idle none no_media no_frames

abbrev camera : MonitorHandle
camera = record { camera = record { id = ascii "C1"; ip = here }; cancel = 3 }

abbrev watching : Agent
watching = agent_in idle (some camera) no_media no_frames

on_wire_total_example : IsDone (agent_in idle none (michoi.MediaRing.new 1000 64) empty) (
    on_wire clock pad_side
      (packet 0x00b7 0x1e 32 [])
      (agent_in idle none (michoi.MediaRing.new 1000 64) empty))
on_wire_total_example =
    on_wire_total clock pad_side (packet 0x00b7 0x1e 32 [])
      (agent_in idle none (michoi.MediaRing.new 1000 64) empty) (new-IsWithin 1000 64, empty-IsTidy)

-- A claim, an unlock and the claim once more.
abbrev opened : Agent
opened = (execute true clock unlock (ascii "b") (execute true clock claim (ascii "a") bell).0).0

execute_later_replays_example :
    execute true clock hangup (ascii "a") opened
    ≡ (opened, ([], record ((execute true clock claim (ascii "a") bell).1.1) { replayed = true }))
unfolding get
execute_later_replays_example =
    execute_later_replays true true clock clock claim hangup (ascii "a") bell opened 1 refl refl
      (omega arith)
      (command 0 true clock unlock (ascii "b") (execute true clock claim (ascii "a") bell).0 opened
        (done opened))

execute_announces_example : IsAnnounced clock claim bell (execute true clock claim (ascii "a") bell)
unfolding get
execute_announces_example = execute_announces true clock claim (ascii "a") bell refl

unlock_sends_lawfully_example :
    ((execute true clock unlock (ascii "a") bell).1.0 ≡ []) ⊎ MayUnlock bell.call.machine 50
unlock_sends_lawfully_example = unlock_sends_lawfully true clock (ascii "a") bell

claim_keeps_call_example :
    ((execute false clock claim (ascii "a") bell).1.1 ≡ rejected (ascii "a") agent_offline)
    × (((execute false clock claim (ascii "a") bell).0.events ≡ empty_log)
        × (((execute false clock claim (ascii "a") bell).0.call.machine.state.phase ≡ connected)
            × ((execute false clock claim (ascii "a") bell).0.call.machine.state.owner ≡ remote)))
unfolding get peers_endpoints
claim_keeps_call_example =
    claim_keeps_call clock (ascii "a") bell (record { door = front_door; room = flat }) refl refl
      refl refl

abbrev sightings : List Sighting
sightings =
    address door_side there
    ∷ mac door_side (record { bytes = 2 ∷ 0 ∷ 0 ∷ 0 ∷ 0 ∷ 1 ∷ [] })
    ∷ session (record { door = front_door; room = flat })
    ∷ []

observe_all-KeepsPins_example : KeepsPins home (observe_all sightings bell).peers
observe_all-KeepsPins_example = observe_all-KeepsPins sightings bell

restart_loses_monitor_example :
    ((start_monitor_now clock (ascii "C2") 4 (some there) watching).1.0 ≡ cancelled 3 ∷ [])
    × (((start_monitor_now clock (ascii "C2") 4 (some there) watching).0.monitor
          ≡ some (record { camera = record { id = ascii "C2"; ip = there }; cancel = 4 }))
        × (((monitor_ended clock camera.camera
                (ascii "stopped")
                (start_monitor_now clock (ascii "C2") 4 (some there) watching).0).0.monitor
              ≡ none)
            × ((monitor_ended clock camera.camera
                  (ascii "stopped")
                  (start_monitor_now clock (ascii "C2") 4 (some there) watching).0).1
                ≡ cancelled 4 ∷ [])))
restart_loses_monitor_example =
    restart_loses_monitor clock clock (ascii "C2") (ascii "stopped") 4 there camera watching refl
      refl

abbrev voice : AudioChunk
voice = record { pts_us = 5; pcm = 1 ∷ 2 ∷ [] }

talk_sends_lawfully_example :
    ((talk (λ _. true) voice bell).1.1.0 ≡ [])
    ⊎ ((bell.call.machine.state.phase ≡ connected) × (bell.call.machine.state.owner ≡ remote))
talk_sends_lawfully_example = talk_sends_lawfully (λ _. true) voice bell refl

abbrev line : Dialled
line = record { binds = true; connects = true; caller_ip = there; cancel = 9 }

dial_now_exclusive_example :
    (((dial_now clock (ascii "S2") (λ _. some here) line quiet).0 ≡ quiet)
      × ((dial_now clock (ascii "S2") (λ _. some here) line quiet).1.0 ≡ []))
    ⊎ ((quiet.call.machine.state.phase ≡ idle)
        × ((quiet.monitor ≡ none) × (quiet.call_session ≡ none)))
dial_now_exclusive_example = dial_now_exclusive clock (ascii "S2") (λ _. some here) line quiet
