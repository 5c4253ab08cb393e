-- ===== src/Replay/Player.antt =====
-- replay_agent.rs: the Agent that plays the timeline. `act` is the part of `execute` under the lock
-- of the call, which door_station.rs has as well.
use michoi.Common.{
  ℕ, true, ◌&&◌, Option, none, some, List, [], ◌∷◌, ◌++◌, ◌==◌, if◌then◌else◌, Result, ok, err,
}
use michoi.Common.Bytes.{Str, ascii}
use michoi.Common.Text.{decimal}
use michoi.Call.{
  CallMachine, StateError, is_idle, is_pad, remote, pad, start_call, pad_answer, remote_answer,
  hangup, remote_media_allowed,
}
use michoi.Call.{unlock as unlock_machine}
use michoi.Api.{
  CallState, EventKind, CallAction, CallError, no_call, agent_offline, unlock_not_allowed,
  CommandResult, VideoFrame, AudioChunk, from_state_error, succeeded, rejected,
}
use michoi.Api
use michoi.EventLog.{EventLog, push as push_event}
use michoi.CommandCache.{CommandCache, get, store}
use michoi.MediaRing.{MediaRing, push_video as ring_video, push_audio as ring_audio}
use michoi.Protocol.{ProtocolError}
use michoi.Protocol.Op
use michoi.Protocol.Builders.{session_control, audio_packet}
use michoi.Agent.{Clock}
use michoi.Replay.{
  AgentEvent, call_started, pad_action_observed, call_ended, failure, FramePayload, control,
  jpeg_bytes, door_pcm, TimedFrame, captured,
}

-- `CallInner`, with the door and the room that the replay keeps there.
pub record CallInner : Type 0 where
  pub machine : CallMachine
  pub door_id : Option Str
  pub room_id : Option Str
  pub since_ms : Option ℕ

abbrev pub answered :
    Clock
    → Str
    → CallInner
    → CallMachine × Result StateError (Unit {0})
    → CallInner × Result CallError EventKind
answered clock session call (machine, ok _) = (
  record call { machine = machine; since_ms = some clock.now_ms },
  ok (Api.remote_answered session),
)
answered clock session call (machine, err e) =
    (record call { machine = machine }, err (from_state_error e))

abbrev pub unlocked :
    Str
    → CallInner
    → CallMachine × Result StateError (Unit {0})
    → CallInner × Result CallError EventKind
unlocked session call (machine, ok _) =
    (record call { machine = machine }, ok (Api.unlocked session remote))
unlocked session call (machine, err e) =
    (record call { machine = machine }, err (from_state_error e))

abbrev pub hung_up : Clock → Str → CallInner → CallInner × Result CallError EventKind
hung_up clock session call = if is_idle call.machine.state.phase then (call, err no_call) else (
  record call { machine = hangup call.machine; since_ms = some clock.now_ms },
  ok (Api.call_ended session (ascii "remote_hangup")),
)

unfoldable pub act : Clock → CallAction → Str → CallInner → CallInner × Result CallError EventKind
act clock Api.claim session call = answered clock session call (remote_answer call.machine)
act clock Api.unlock session call =
    unlocked session call (unlock_machine call.machine clock.instant)
act clock Api.hangup session call = hung_up clock session call

pub record ReplayAgent : Type 0 where
  pub call : CallInner
  pub events : EventLog
  pub commands : CommandCache
  pub video : List VideoFrame
  pub audio : List AudioChunk
  pub latest : Option VideoFrame
  pub history : MediaRing

abbrev pub emit : Clock → EventKind → ReplayAgent → ReplayAgent
emit clock kind agent = record agent { events = (push_event agent.events clock.now_ms kind).0 }

abbrev pub with_call : CallInner → ReplayAgent → ReplayAgent
with_call call agent = record agent { call = call }

abbrev pub after_pad_answer :
    Clock → Str → ReplayAgent → CallMachine × Result StateError (Unit {0}) → ReplayAgent
after_pad_answer clock session agent (machine, ok _) =
    emit clock (Api.pad_answered session)
      (with_call (record (agent.call) { machine = machine; since_ms = some clock.now_ms }) agent)
after_pad_answer clock session agent (machine, err _) =
    with_call (record (agent.call) { machine = machine }) agent

unfoldable pub apply : Clock → ℕ → AgentEvent → ReplayAgent → ReplayAgent
apply clock session_id (call_started door_id room_id) agent =
    emit clock (Api.call_started (decimal session_id) door_id room_id) (
      with_call
        (record {
          machine = start_call agent.call.machine session_id;
          door_id = some door_id;
          room_id = some room_id;
          since_ms = some clock.now_ms;
        })
        agent)
apply clock session_id (pad_action_observed opcode) agent =
    if opcode == Op.answer
    then after_pad_answer clock (decimal session_id) agent (pad_answer agent.call.machine)
    else if opcode == Op.unlock && is_pad agent.call.machine.state.owner
    then emit clock (Api.unlocked (decimal session_id) pad) agent
    else agent
apply clock session_id (call_ended reason) agent =
    let ended =
      with_call
        (record (agent.call) { machine = hangup agent.call.machine; since_ms = some clock.now_ms })
        agent in
    if is_idle agent.call.machine.state.phase
    then ended
    else emit clock (Api.call_ended (decimal session_id) reason) ended
apply clock session_id (failure message) agent = emit clock (Api.agent_error message) agent

abbrev with_ring : ReplayAgent → Option MediaRing → Option ReplayAgent
with_ring agent none = none
with_ring agent (some ring) = some (record agent { history = ring })

-- The body of `run`'s inner loop: one frame of the timeline, at its time.
unfoldable pub play : Clock → TimedFrame → ReplayAgent → Option ReplayAgent
play clock timed agent = played timed.frame.payload
  where
    picture : List ℕ → VideoFrame
    picture bytes = record { pts_us = clock.pts_us; jpeg = bytes }

    sound : List ℕ → AudioChunk
    sound bytes = record { pts_us = clock.pts_us; pcm = bytes }

    played : FramePayload → Option ReplayAgent
    played (control event) = some (apply clock timed.frame.session_id event agent)
    played (jpeg_bytes bytes) =
        with_ring
          (record agent {
            latest = some (picture bytes);
            video = agent.video ++ (picture bytes ∷ []);
          })
          (ring_video agent.history (picture bytes))
    played (door_pcm bytes) =
        with_ring (record agent { audio = agent.audio ++ (sound bytes ∷ []) })
          (ring_audio agent.history (sound bytes))

abbrev opcode_of : CallAction → ℕ
opcode_of Api.claim = Op.answer
opcode_of Api.unlock = Op.unlock
opcode_of Api.hangup = Op.hangup

abbrev pub session_string : CallInner → Str
session_string call = decimal call.machine.state.session_id

-- `act`, behind the check that the packet can be encoded.
abbrev encoded :
    Clock
    → CallAction
    → CallInner
    → Result ProtocolError (List ℕ)
    → CallInner × Result CallError EventKind
encoded clock action call (err _) = (call, err agent_offline)
encoded clock action call (ok _) = act clock action (session_string call) call

abbrev concluded :
    Clock → Str → ReplayAgent → CallInner × Result CallError EventKind → ReplayAgent × CommandResult
concluded clock command_id agent (call, ok event) =
    (emit clock event (with_call call agent), succeeded command_id)
concluded clock command_id agent (call, err e) = (with_call call agent, rejected command_id e)

abbrev remembered : ReplayAgent × CommandResult → ReplayAgent × CommandResult
remembered (agent, result) = (record agent { commands = store agent.commands result }, result)

abbrev unless_replayed :
    Clock → CallAction → Str → ReplayAgent → Option CommandResult → ReplayAgent × CommandResult
unless_replayed clock action command_id agent (some replayed) = (agent, replayed)
unless_replayed clock action command_id agent none = remembered (
    concluded clock command_id agent
      (encoded clock action agent.call (session_control (opcode_of action) captured)))

unfoldable pub execute : Clock → CallAction → Str → ReplayAgent → ReplayAgent × CommandResult
execute clock action command_id agent =
    unless_replayed clock action command_id agent (get agent.commands command_id)

unfoldable pub report_state : ℕ → ReplayAgent → CallState
report_state uptime_ms agent = record {
  phase = agent.call.machine.state.phase;
  owner = agent.call.machine.state.owner;
  session_id =
      if is_idle agent.call.machine.state.phase then none else some (session_string agent.call);
  door_id = agent.call.door_id;
  room_id = agent.call.room_id;
  since_ms = agent.call.since_ms;
  agent_id = ascii "fake-pad-cap";
  connected = true;
  uptime_ms = uptime_ms;
}

abbrev sent_or_offline : Result ProtocolError (List ℕ) → Result CallError (Unit {0})
sent_or_offline (ok _) = ok tt
sent_or_offline (err _) = err agent_offline

unfoldable pub talk : AudioChunk → ReplayAgent → Result CallError (Unit {0})
talk chunk agent =
    if remote_media_allowed agent.call.machine agent.call.machine.state.session_id
    then sent_or_offline (audio_packet 0 chunk.pcm captured)
    else err unlock_not_allowed
