-- ===== src/Agent/Command.antt =====
-- agent.rs: the commands of the remote backends (`execute`), the state they report and the short
-- station numbers.
pub mod Replay
pub mod Retry
pub mod Outcome
use michoi.Common.{
  ℕ, ◌+◌, ◌-◌, Bool, true, false, not, ◌&&◌, ◌||◌, Option, none, some, List, [], ◌∷◌, ◌++◌,
}
use michoi.Common.{length, take, drop, ltb, leb, ◌==◌, if◌then◌else◌, Result, ok, err}
use michoi.Common.Bytes.{Str, ascii}
use michoi.Call.{CallPhase, Owner, pad, remote, StateError, CallMachine, is_idle, remote_answer}
use michoi.Call.{unlock as unlock_machine, hangup as hangup_machine}
use michoi.Api.{
  EventKind, remote_answered, unlocked, call_ended, CallAction, claim, unlock, hangup, CallError,
  no_call, agent_offline, from_state_error, CommandResult, succeeded, rejected, CallState,
}
use michoi.CommandCache.{get, store}
use michoi.Protocol.{Station, Endpoints, ProtocolError}
use michoi.Protocol.Op
use michoi.Protocol.Builders.{session_control}
use michoi.Common.Text.{decimal}
use michoi.Agent.{
  Peers, peers_endpoints, CallSlot, Agent, Clock, Effect, send_as_pad, on_remote_claim, on_call_end,
  session_string, emit,
}

-- What a command builds: the event that it announces and the packet that it sends.
abbrev pub Built : Type 0
Built = Result CallError (EventKind × List ℕ)

abbrev or_offline : EventKind → Result ProtocolError (List ℕ) → Built
or_offline event (ok raw) = ok (event, raw)
or_offline event (err _) = err agent_offline

abbrev claimed :
    Clock
    → Str
    → Endpoints
    → CallSlot
    → CallMachine × Result StateError (Unit {0})
    → CallSlot × Built
claimed clock session e slot (machine, err error) =
    (record slot { machine = machine }, err (from_state_error error))
claimed clock session e slot (machine, ok _) = (
  record slot { machine = machine; since_ms = some clock.now_ms },
  or_offline (remote_answered session) (session_control Op.answer e),
)

abbrev opened :
    Str → Endpoints → CallSlot → CallMachine × Result StateError (Unit {0}) → CallSlot × Built
opened session e slot (machine, err error) =
    (record slot { machine = machine }, err (from_state_error error))
opened session e slot (machine, ok _) = (
  record slot { machine = machine },
  or_offline (unlocked session remote) (session_control Op.unlock e),
)

abbrev hung_up : Clock → Str → Endpoints → CallSlot → CallSlot × Built
hung_up clock session e slot = if is_idle slot.machine.state.phase then (slot, err no_call) else (
  record slot { machine = hangup_machine slot.machine; since_ms = some clock.now_ms },
  or_offline (call_ended session (ascii "remote_hangup")) (session_control Op.hangup e),
)

-- The `match action` of `execute`, under the lock of the call.
abbrev pub attempt : Clock → CallAction → Str → Endpoints → CallSlot → CallSlot × Built
attempt clock claim session e slot = claimed clock session e slot (remote_answer slot.machine)
attempt clock unlock session e slot =
    opened session e slot (unlock_machine slot.machine clock.instant)
attempt clock hangup session e slot = hung_up clock session e slot

abbrev pub build : Clock → CallAction → Str → Option Endpoints → CallSlot → CallSlot × Built
build clock action session none slot = (slot, err no_call)
build clock action session (some e) slot = attempt clock action session e slot

abbrev pub notify : CallAction → Peers → List Effect
notify claim peers = on_remote_claim peers ∷ []
notify hangup peers = on_call_end peers ∷ []
notify unlock peers = []

abbrev pub Outcome : Type 0
Outcome = Agent × (List Effect × CommandResult)

-- `sends` is whether `Wire::send_as_pad` returned `Ok`.
abbrev pub deliver : Bool → Clock → CallAction → Str → Agent → Built → Outcome
deliver sends clock action command_id agent (err error) = (agent, ([], rejected command_id error))
deliver true clock action command_id agent (ok (event, raw)) = (
  emit clock event agent,
  (send_as_pad raw agent.peers ∷ notify action agent.peers, succeeded command_id),
)
deliver false clock action command_id agent (ok (event, raw)) =
    (agent, (send_as_pad raw agent.peers ∷ [], rejected command_id agent_offline))

abbrev pub remember : Outcome → Outcome
remember (agent, (effects, result)) =
    (record agent { commands = store agent.commands result }, (effects, result))

unfoldable pub perform : Bool → Clock → CallAction → Str → Agent → Outcome
perform sends clock action command_id agent =
    let built =
      build clock action (session_string agent) (peers_endpoints agent.peers) agent.call in
    remember (deliver sends clock action command_id (record agent { call = built.0 }) built.1)

abbrev pub unless_replayed :
    Bool → Clock → CallAction → Str → Agent → Option CommandResult → Outcome
unless_replayed sends clock action command_id agent (some replayed) = (agent, ([], replayed))
unless_replayed sends clock action command_id agent none =
    perform sends clock action command_id agent

unfoldable pub execute : Bool → Clock → CallAction → Str → Agent → Outcome
execute sends clock action command_id agent =
    unless_replayed sends clock action command_id agent (get agent.commands command_id)

abbrev door_id_of : Option Station → Option Str
door_id_of none = none
door_id_of (some door) = some (door.id)

-- `AgentControl::state`
unfoldable pub report_state : Str → ℕ → Agent → CallState
report_state agent_id uptime_ms agent = record {
  phase = agent.call.machine.state.phase;
  owner = agent.call.machine.state.owner;
  session_id =
      if is_idle agent.call.machine.state.phase
      then none
      else some (decimal agent.call.machine.state.session_id);
  door_id = door_id_of agent.peers.door;
  room_id = some (agent.peers.room.id);
  since_ms = agent.call.since_ms;
  agent_id = agent_id;
  connected = true;
  uptime_ms = uptime_ms;
}

abbrev all_digits : Str → Bool
all_digits [] = true
all_digits (x ∷ xs) = (leb b'0' x && leb x b'9') && all_digits xs

unfoldable pub expand_station_number : Str → Str → Str
expand_station_number own input =
    if length input == 0 || not (all_digits input)
    then input
    else if ltb (length input + 1) (length own)
    then take (length own - 1 - length input) own ++ (input ++ drop (length own - 1) own)
    else input
