-- ===== src/Api/Control.antt =====
-- agent_api.rs: what an Agent offers to a server: call control and media. The state of the
-- implementation is a type of its own; an awaited operation takes the state and gives the next one.
use michoi.Common.{ℕ, Bool, Option, List, [], Result, ok, err}
use michoi.Common.Bytes.{Str, ascii}
use michoi.Api.{
  CallState, Event, CallAction, CallError, not_ringing, pad_owns_call, unlock_not_allowed,
  unlock_cooldown, no_call, agent_offline, unsupported, callee_unreachable, CommandResult, rejected,
  VideoFrame, AudioChunk,
}

pub record VideoInfo : Type 0 where
  pub codec : Str
  pub width : ℕ
  pub height : ℕ

pub record AudioInfo : Type 0 where
  pub codec : Str
  pub sample_rate : ℕ
  pub channels : ℕ

pub record MediaInfo : Type 0 where
  pub rtsp_url : Option Str
  pub video : VideoInfo
  pub audio : AudioInfo
  pub talk : Bool
  pub history_ms : ℕ
  pub buffered_ms : ℕ

pub record ApiInfo : Type 0 where
  pub api_version : Str
  pub agent_id : Str
  pub media_types : List Str
  pub capabilities : List Str

pub record CameraInfo : Type 0 where
  pub station_id : Str
  pub ip : Option Str
  pub reachable : Bool

-- The messages of the errors.
unfoldable pub error_text : CallError → Str
error_text not_ringing = ascii "no ringing call is available"
error_text pad_owns_call = ascii "the physical pad owns this call"
error_text unlock_not_allowed = ascii "unlock is allowed only after the remote session has answered"
error_text unlock_cooldown = ascii "unlock cooldown is active"
error_text no_call = ascii "no call is active"
error_text agent_offline = ascii "the Agent is offline"
error_text unsupported = ascii "this operation is not supported in this mode"
error_text callee_unreachable =
    ascii "the callee did not answer discovery (offline or wrong number)"

abbrev pub Attempt : Type 0 → Type 0
Attempt S = S × Result CallError (Unit {0})

-- `AgentControl` and `AgentMedia`, without the live feeds.
pub record AgentApi (S : Type 0) : Type 0 where
  pub agent_id : S → Str
  pub state : S → CallState
  pub recent : S → ℕ → Option (List Event)
  pub command : CallAction → Str → S → S × CommandResult
  pub cameras : S → S × List CameraInfo
  pub call_elevator : Str → Option Str → S → S × CommandResult
  pub start_monitor : Str → S → Attempt S
  pub stop_monitor : S → Attempt S
  pub dial : Str → S → Attempt S
  pub hangup_call : S → Attempt S
  pub clock_us : S → ℕ
  pub snapshot : S → Option VideoFrame
  pub media_info : S → MediaInfo
  pub talk : AudioChunk → S → Attempt S
  pub talk_video : List ℕ → S → Attempt S

-- The defaults of the trait, for an Agent that has no outbound operations.
unfoldable pub default_cameras : {S : Type 0} → S → S × List CameraInfo
default_cameras s = (s, [])

unfoldable pub default_call_elevator : {S : Type 0} → Str → Option Str → S → S × CommandResult
default_call_elevator command_id room_id s = (s, rejected [] unsupported)

unfoldable pub default_outbound : {S : Type 0} → S → Attempt S
default_outbound s = (s, err unsupported)

unfoldable pub default_talk_video : {S : Type 0} → List ℕ → S → Attempt S
default_talk_video jpeg s = (s, ok tt)
