-- ===== src/Agent.antt =====
-- agent.rs: the state that one Agent keeps and the types of its parts. The mutexes are gone: an
-- operation takes the Agent and returns the new one. What an operation makes other parties do
-- (`Wire`, the oneshot and watch channels, spawned tasks) is the list of `Effect`s it returns.
-- A watch or oneshot sender is named by a number.
pub mod Identity
pub mod Command
pub mod Media
pub mod Session
pub mod Dispatch
pub mod Talk
use michoi.Common.Text.{decimal}
use michoi.Common.{
  ℕ, ◌+◌, ◌*◌, ◌/◌, ◌%◌, zero, suc, Bool, List, [], ◌∷◌, ◌++◌, Option, none, some, Result,
}
use michoi.Common.{ltb, if◌then◌else◌}
use michoi.Common.Text.{decimal}
use michoi.Common.Bytes.{Str}
use michoi.Call.{CallMachine, with_policy}
use michoi.Api.{EventKind, VideoFrame, AudioChunk}
use michoi.EventLog.{EventLog, push as push_event}
use michoi.CommandCache.{CommandCache}
use michoi.MediaRing.{MediaRing}
use michoi.Ethernet.{MacAddress}
use michoi.Protocol.{Station, Endpoints}
use michoi.Protocol.Jpeg.{JpegReassembler}

pub data Side : Type 0 where
  door_side pad_side : Side

pub record Peers : Type 0 where
  pub room : Station
  pub door : Option Station
  pub door_mac : Option MacAddress
  pub pad_mac : Option MacAddress
  pub control_port : ℕ

-- `Peers::endpoints`
abbrev pub endpoints_of : Option Station → Station → Option Endpoints
endpoints_of none room = none
endpoints_of (some door) room = some (record { door = door; room = room })

unfoldable pub peers_endpoints : Peers → Option Endpoints
peers_endpoints peers = endpoints_of peers.door peers.room

-- `Call`: the machine with the time of the last change and the number of the next session.
pub record CallSlot : Type 0 where
  pub machine : CallMachine
  pub since_ms : Option ℕ
  pub next_session : ℕ

pub record MonitorHandle : Type 0 where
  pub camera : Station
  pub cancel : ℕ

pub record CallHandle : Type 0 where
  pub callee : Station
  pub endpoints : Endpoints
  pub cancel : ℕ
  pub answered : Bool
  pub aseq : ℕ
  pub vseq : ℕ

pub record Agent : Type 0 where
  pub peers : Peers
  pub call : CallSlot
  pub events : EventLog
  pub commands : CommandCache
  pub video : List VideoFrame
  pub audio : List AudioChunk
  pub latest : Option VideoFrame
  pub history : MediaRing
  pub jpeg : JpegReassembler
  pub audio_seq : ℕ
  pub mismatches : ℕ
  pub elevator_acks : List ℕ
  pub monitor_frames : ℕ
  pub monitor : Option MonitorHandle
  pub call_session : Option CallHandle

-- What the three clocks read during one operation: `now_ms()`, `Instant::now()` and
-- `started.elapsed().as_micros()`.
pub record Clock : Type 0 where
  pub now_ms : ℕ
  pub instant : ℕ
  pub pts_us : ℕ

pub data Effect : Type 0 where
  handshake_reply : List ℕ → Peers → Effect
  send_as_pad : List ℕ → Peers → Effect
  on_remote_claim on_call_end : Peers → Effect
  acked cancelled : ℕ → Effect

-- `u32 + 1`
abbrev pub add_one32 : ℕ → ℕ
add_one32 n = (n + 1) % 4294967296

unfoldable pub session_string : Agent → Str
session_string agent = decimal agent.call.machine.state.session_id

-- `self.events.push(kind)`
unfoldable pub emit : Clock → EventKind → Agent → Agent
emit clock kind agent = record agent { events = (push_event agent.events clock.now_ms kind).0 }
