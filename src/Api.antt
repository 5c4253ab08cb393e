-- ===== src/Api.antt =====
-- agent_api.rs: the types that every Agent shares, events and commands with their results, and the
-- HTTP status of each rejection.
pub mod Control
use michoi.Common.{List, ℕ, Bool, true, false, Option, none, some}
use michoi.Common.Bytes.{Str, ascii}
use michoi.Call.{CallPhase, Owner, StateError}

pub record CallState : Type 0 where
  pub phase : CallPhase
  pub owner : Owner
  pub session_id : Option Str
  pub door_id : Option Str
  pub room_id : Option Str
  pub since_ms : Option ℕ
  pub agent_id : Str
  pub connected : Bool
  pub uptime_ms : ℕ

-- Each constructor takes the fields of the variant in their order.
pub data EventKind : Type 0 where
  snapshot : CallState → EventKind
  call_started : Str → Str → Str → EventKind
  pad_answered : Str → EventKind
  remote_answered : Str → EventKind
  unlocked : Str → Owner → EventKind
  call_ended : Str → Str → EventKind
  agent_error : Str → EventKind
  monitor_started : Str → EventKind
  monitor_stopped : Str → Str → EventKind
  elevator_called : Str → EventKind
  dialing : Str → EventKind
  call_connected : Str → EventKind
  call_hung_up : Str → Str → EventKind

unfoldable pub event_name : EventKind → Str
event_name (snapshot _) = ascii "snapshot"
event_name (call_started _ _ _) = ascii "call_started"
event_name (pad_answered _) = ascii "pad_answered"
event_name (remote_answered _) = ascii "remote_answered"
event_name (unlocked _ _) = ascii "unlocked"
event_name (call_ended _ _) = ascii "call_ended"
event_name (agent_error _) = ascii "agent_error"
event_name (monitor_started _) = ascii "monitor_started"
event_name (monitor_stopped _ _) = ascii "monitor_stopped"
event_name (elevator_called _) = ascii "elevator_called"
event_name (dialing _) = ascii "dialing"
event_name (call_connected _) = ascii "call_connected"
event_name (call_hung_up _ _) = ascii "call_hung_up"

pub record Event : Type 0 where
  pub seq : ℕ
  pub at_ms : ℕ
  pub kind : EventKind

pub data CallAction : Type 0 where
  claim unlock hangup : CallAction

pub data CallError : Type 0 where
  not_ringing pad_owns_call unlock_not_allowed unlock_cooldown no_call agent_offline unsupported
        callee_unreachable :
      CallError

unfoldable pub error_status : CallError → ℕ
error_status unlock_cooldown = 429
error_status agent_offline = 503
error_status unsupported = 501
error_status callee_unreachable = 502
error_status _ = 409

-- `CallError::from(StateError)`
unfoldable pub from_state_error : StateError → CallError
from_state_error StateError.not_ringing = not_ringing
from_state_error StateError.pad_owns_call = pad_owns_call
from_state_error StateError.unlock_not_allowed = unlock_not_allowed
from_state_error StateError.unlock_cooldown = unlock_cooldown

pub record CommandResult : Type 0 where
  pub command_id : Str
  pub success : Bool
  pub error : Option CallError
  pub replayed : Bool

-- `CommandResult::ok`
unfoldable pub succeeded : Str → CommandResult
succeeded command_id = record {
  command_id = command_id;
  success = true;
  error = none;
  replayed = false;
}

unfoldable pub rejected : Str → CallError → CommandResult
rejected command_id error = record {
  command_id = command_id;
  success = false;
  error = some error;
  replayed = false;
}

abbrev pub status_of : Option CallError → ℕ
unfolding error_status
status_of none = 200
status_of (some error) = error_status error

unfoldable pub result_status : CommandResult → ℕ
unfolding status_of error_status
result_status r = status_of r.error

pub record VideoFrame : Type 0 where
  pub pts_us : ℕ
  pub jpeg : List ℕ

pub record AudioChunk : Type 0 where
  pub pts_us : ℕ
  pub pcm : List ℕ
