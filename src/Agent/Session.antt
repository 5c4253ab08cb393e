-- ===== src/Agent/Session.antt =====
-- agent.rs: the sessions. The incoming call as the wire shows it, the monitor of a camera and the
-- outbound call, with the task of the monitor as a step of its own.
pub mod Monitor
use michoi.Common.{
  ℕ, ◌+◌, ◌%◌, Bool, true, false, not, ◌||◌, Option, none, some, List, [], ◌∷◌, ◌++◌,
}
use michoi.Common.{if◌then◌else◌, Result, ok, err, is_ok}
use michoi.Common.Bytes.{Str, ascii}
use michoi.Net.{Ipv4Addr}
use michoi.Call.{
  CallMachine, StateError, Owner, pad, is_idle, is_pad, start_call, pad_answer, hangup, add_one64,
}
use michoi.Api.{
  EventKind, call_started, pad_answered, unlocked, call_ended, call_connected, call_hung_up,
  monitor_started, monitor_stopped, dialing, CallError, pad_owns_call, agent_offline,
  callee_unreachable,
}
use michoi.Protocol.{Station, Endpoints, ProtocolError}
use michoi.Protocol.Op
use michoi.Protocol.Builders.{session_control}
use michoi.Common.Text.{decimal}
use michoi.Agent.{
  Peers, peers_endpoints, CallSlot, MonitorHandle, CallHandle, Agent, Clock, Effect, send_as_pad,
  on_call_end, cancelled, session_string, emit,
}

unfoldable pub on_call_started : Clock → Endpoints → Agent → Agent
on_call_started clock e agent =
    let id = agent.call.next_session in
    if not (is_idle agent.call.machine.state.phase)
    then agent
    else emit clock (call_started (decimal id) e.door.id e.room.id) (record agent {
      call = record {
        machine = start_call agent.call.machine id;
        since_ms = some clock.now_ms;
        next_session = add_one64 id;
      };
    })

abbrev pub answered_by_pad : Clock → Agent → CallMachine × Result StateError (Unit {0}) → Agent
answered_by_pad clock agent (machine, err _) = record agent {
  call = record (agent.call) { machine = machine };
}
answered_by_pad clock agent (machine, ok _) =
    emit clock (pad_answered (session_string agent)) (record agent {
      call = record (agent.call) { machine = machine; since_ms = some clock.now_ms };
    })

unfoldable pub on_pad_answer : Clock → Agent → Agent
on_pad_answer clock agent = answered_by_pad clock agent (pad_answer agent.call.machine)

unfoldable pub on_pad_unlock : Clock → Agent → Agent
on_pad_unlock clock agent =
    if is_pad agent.call.machine.state.owner
    then emit clock (unlocked (session_string agent) pad) agent
    else agent

unfoldable pub on_wire_hangup : Clock → Peers → Agent → Agent × List Effect
on_wire_hangup clock peers agent =
    let now : Agent = record agent {
      call = record (agent.call) {
        machine = hangup agent.call.machine;
        since_ms = some clock.now_ms;
      };
    } in
    if is_idle agent.call.machine.state.phase then (now, []) else (
      emit clock (call_ended (session_string agent) (ascii "wire_hangup")) now,
      on_call_end peers ∷ [],
    )

abbrev keepalive_packet : Peers → Result ProtocolError (List ℕ) → List Effect
keepalive_packet peers (ok raw) = send_as_pad raw peers ∷ []
keepalive_packet peers (err _) = []

abbrev keepalive_to : Peers → Option Endpoints → List Effect
keepalive_to peers none = []
keepalive_to peers (some e) = keepalive_packet peers (session_control Op.keepalive e)

unfoldable pub send_keepalive : Agent → List Effect
send_keepalive agent =
    if is_idle agent.call.machine.state.phase
    then []
    else keepalive_to agent.peers (peers_endpoints agent.peers)

abbrev pub stop_monitor : Agent → Option MonitorHandle → Agent × (List Effect × Option Str)
stop_monitor agent none = (agent, ([], none))
stop_monitor agent (some handle) =
    (record agent { monitor = none }, (cancelled handle.cancel ∷ [], some (handle.camera.id)))

unfoldable pub stop_monitor_now : Agent → Agent × (List Effect × Option Str)
stop_monitor_now agent = stop_monitor agent agent.monitor

-- The rest of `start_monitor_now`, behind the answer of the discovery; `cancel` names the new watch
-- channel.
abbrev monitor_resolved :
    Clock → Str → ℕ → Option Ipv4Addr → Agent → Agent × (List Effect × Result CallError Station)
monitor_resolved clock camera_id cancel none agent = (agent, ([], err agent_offline))
monitor_resolved clock camera_id cancel (some ip) agent =
    let (stopped, (effects, _)) = stop_monitor_now agent in
    let camera : Station = record { id = camera_id; ip = ip } in
    (
      emit clock (monitor_started camera_id) (record stopped {
        monitor = some (record { camera = camera; cancel = cancel });
        monitor_frames = 0;
      }),
      (effects, ok camera),
    )

unfoldable pub start_monitor_now :
    Clock → Str → ℕ → Option Ipv4Addr → Agent → Agent × (List Effect × Result CallError Station)
start_monitor_now clock camera_id cancel resolved agent =
    if not (is_idle agent.call.machine.state.phase)
    then (agent, ([], err pad_owns_call))
    else monitor_resolved clock camera_id cancel resolved agent

-- The end of the task that `start_monitor_now` spawns: it drops the handle that it finds, which
-- closes the watch channel of that handle.
abbrev dropped : Option MonitorHandle → List Effect
dropped none = []
dropped (some handle) = cancelled handle.cancel ∷ []

unfoldable pub monitor_ended : Clock → Station → Str → Agent → Agent × List Effect
monitor_ended clock door reason agent = (
  emit clock (monitor_stopped door.id reason) (record agent { monitor = none }),
  dropped agent.monitor,
)

abbrev pub end_call : Clock → Str → Agent → Option CallHandle → Agent × (List Effect × Option Str)
end_call clock reason agent none = (agent, ([], none))
end_call clock reason agent (some handle) = (
  emit clock (call_hung_up handle.callee.id reason) (record agent { call_session = none }),
  (cancelled handle.cancel ∷ [], some (handle.callee.id)),
)

unfoldable pub hangup_call_now : Clock → Str → Agent → Agent × (List Effect × Option Str)
hangup_call_now clock reason agent = end_call clock reason agent agent.call_session

-- The callee has answered; only the first answer is announced.
abbrev pub callee_answered : Clock → Agent → Option CallHandle → Agent
callee_answered clock agent none = agent
callee_answered clock agent (some handle) =
    if handle.answered
    then agent
    else emit clock (call_connected handle.callee.id)
        (record agent { call_session = some (record handle { answered = true }) })
