-- ===== src/DoorStation.antt =====
-- door_station.rs: the software door station. The tasks that it spawns are counted: `loops` is the
-- number of media loops that run. What a callback or the audio sink does is a parameter or an effect.
-- `ring` and `hangup_local` are each in two parts, since another thread can come in between.
pub mod Streaming
use michoi.Common.{
  ℕ, zero, suc, ◌+◌, ◌-◌, ◌*◌, ◌/◌, ◌%◌, Bool, true, false, not, ◌&&◌, Option, none, some, List, [],
  ◌∷◌, ◌++◌, length, get_or, ◌==◌, if◌then◌else◌, Result, ok, err, head?,
}
use Prim.Native.Nat.{max}
use michoi.Common.Options.{◌>>=◌}
use michoi.Common.Bytes.{Str, ascii}
use michoi.Common.Text.{decimal}
use michoi.Call.{CallMachine, with_policy, is_idle, start_call, hangup, connected}
use michoi.Api.{
  CallState, EventKind, CallAction, CallError, CommandResult, VideoFrame, AudioChunk, call_started,
  call_ended, succeeded, rejected,
}
use michoi.Api
use michoi.EventLog.{EventLog, push as push_event}
use michoi.EventLog
use michoi.CommandCache.{CommandCache, get, store}
use michoi.CommandCache
use michoi.MediaRing.{MediaRing, push_video as ring_video, push_audio as ring_audio}
use michoi.MediaRing
use michoi.Net.{Ipv4Addr, unspecified}
use michoi.Net.Address.{SocketAddr, v4, v6}
use michoi.Agent.{Clock}
use michoi.Replay.{TimedFrame, jpeg_bytes, door_pcm, FramePayload}
use michoi.Replay.Player.{CallInner, act}

pub record Callbacks : Type 0 where
  pub on_answer : Option Str
  pub on_unlock : Option Str
  pub on_hangup : Option Str

pub record DoorStationConfig : Type 0 where
  pub door_id : Str
  pub room_id : Str
  pub door_ip : Ipv4Addr
  pub loop_fps : ℕ
  pub cooldown : ℕ
  pub history : ℕ
  pub history_max_bytes : ℕ
  pub callbacks : Callbacks
  pub play : Bool
  pub player : Option Str
  pub audio_out : Option Str

-- The cooldown is in milliseconds, the history in microseconds.
abbrev pub default_station : DoorStationConfig
default_station = record {
  door_id = ascii "M00000000000";
  room_id = ascii "S00000000000";
  door_ip = record { a = 192; b = 168; c = 124; d = 2 };
  loop_fps = 8;
  cooldown = 1000;
  history = 5000000;
  history_max_bytes = 2 * 1024 * 1024;
  callbacks = record { on_answer = none; on_unlock = none; on_hangup = none };
  play = false;
  player = none;
  audio_out = none;
}

-- `sink` tells whether the audio sink is open.
pub record DoorStation : Type 0 where
  pub frames : List (List ℕ)
  pub microphone : List (List ℕ)
  pub config : DoorStationConfig
  pub call : CallInner
  pub events : EventLog
  pub commands : CommandCache
  pub video : List VideoFrame
  pub door_audio : List AudioChunk
  pub latest : Option VideoFrame
  pub history : MediaRing
  pub streaming : Bool
  pub loops : ℕ
  pub sink : Bool

-- What goes out of the process: a callback's command with the event and the session.
pub data Hook : Type 0 where
  run : Str → Str → Str → Hook

abbrev pub session_string : DoorStation → Str
session_string d = decimal d.call.machine.state.session_id

abbrev pub jpegs : List TimedFrame → List (List ℕ)
jpegs [] = []
jpegs (t ∷ ts) = elim (t.frame.payload) [ jpeg_bytes bytes ↦ bytes ∷ jpegs ts | _ ↦ jpegs ts ]

abbrev pub sounds : List TimedFrame → List (List ℕ)
sounds [] = []
sounds (t ∷ ts) = elim (t.frame.payload) [ door_pcm bytes ↦ bytes ∷ sounds ts | _ ↦ sounds ts ]

abbrev pub station_of : DoorStationConfig → List TimedFrame → Bool → DoorStation
station_of config timeline sink = record {
  frames = jpegs timeline;
  microphone = sounds timeline;
  config = config;
  call = record {
    machine = with_policy config.cooldown false;
    door_id = none;
    room_id = none;
    since_ms = none;
  };
  events = EventLog.new 256;
  commands = CommandCache.new 256;
  video = [];
  door_audio = [];
  latest = none;
  history = MediaRing.new config.history config.history_max_bytes;
  streaming = false;
  loops = 0;
  sink = sink;
}

-- `from_capture`, behind the timeline and the audio sink. `none`: no frame to loop.
unfoldable pub from_timeline : DoorStationConfig → List TimedFrame → Bool → Option DoorStation
from_timeline config timeline sink =
    if length (jpegs timeline) == 0 then none else some (station_of config timeline sink)

abbrev pub emit : Clock → EventKind → DoorStation → DoorStation
emit clock kind d = record d { events = (push_event d.events clock.now_ms kind).0 }

-- The first part of `ring`: the call and its event. The test is false when a call is on already.
unfoldable pub ring_call : Clock → DoorStation → DoorStation × Bool
ring_call clock d =
    let session = max clock.now_ms 1 in
    let ringing = record d {
      call = record (d.call) {
        machine = start_call d.call.machine session;
        since_ms = some clock.now_ms;
      };
    } in
    if not (is_idle d.call.machine.state.phase) then (d, false) else (
      emit clock (call_started (session_string ringing) d.config.door_id d.config.room_id) ringing,
      true,
    )

-- The second part: `streaming.swap(true)`, and a media loop if there was none.
unfoldable pub ring_stream : DoorStation → DoorStation
ring_stream d = if d.streaming then d else record d { streaming = true; loops = d.loops + 1 }

abbrev rung : DoorStation × Bool → DoorStation
rung (d, started) = let streamed = ring_stream d in if started then streamed else d

unfoldable pub ring : Clock → DoorStation → DoorStation
ring clock d = rung (ring_call clock d)

abbrev callback : Str → DoorStation → Option Str → List Hook
callback event d none = []
callback event d (some command) = run command event (session_string d) ∷ []

-- The first part of `hangup_local`: under the lock of the call. The test is whether a call was on.
unfoldable pub hangup_machine : Clock → DoorStation → DoorStation × Bool
hangup_machine clock d = (
  record d {
    call = record (d.call) { machine = hangup d.call.machine; since_ms = some clock.now_ms };
  },
  not (is_idle d.call.machine.state.phase),
)

-- The second part: the stream, the event and the callback.
unfoldable pub hangup_stream : Clock → Str → DoorStation × Bool → DoorStation × List Hook
hangup_stream clock reason (d, active) =
    let stopped = record d { streaming = false } in
    if active
    then (
      emit clock (call_ended (session_string stopped) reason) stopped,
      callback (ascii "hangup") stopped d.config.callbacks.on_hangup,
    )
    else (stopped, [])

unfoldable pub hangup_local : Clock → Str → DoorStation → DoorStation × List Hook
hangup_local clock reason d = hangup_stream clock reason (hangup_machine clock d)

-- A turn of the media loop's clocks: `indices` count the frames and the chunks so far.
abbrev with_ring : DoorStation → Option MediaRing → Option DoorStation
with_ring d none = none
with_ring d (some ring) = some (record d { history = ring })

abbrev picture : Clock → ℕ → DoorStation → VideoFrame
picture clock fi d = record {
  pts_us = clock.pts_us;
  jpeg = get_or d.frames (fi % length d.frames) [];
}

unfoldable pub frame_tick : Clock → ℕ → DoorStation → Option DoorStation
frame_tick clock fi d =
    with_ring
      (record d {
        latest = some (picture clock fi d);
        video = d.video ++ (picture clock fi d ∷ []);
      })
      (ring_video d.history (picture clock fi d))

abbrev sound : Clock → ℕ → DoorStation → AudioChunk
sound clock ai d = record {
  pts_us = clock.pts_us;
  pcm = get_or d.microphone (ai % length d.microphone) [];
}

unfoldable pub audio_tick : Clock → ℕ → DoorStation → Option DoorStation
audio_tick clock ai d =
    let sent =
      with_ring (record d { door_audio = d.door_audio ++ (sound clock ai d ∷ []) })
        (ring_audio d.history (sound clock ai d)) in
    if length d.microphone == 0 then some d else sent

-- One media loop looks at `streaming`: it ends when the flag is down.
unfoldable pub loop_check : DoorStation → DoorStation
loop_check d = if d.streaming then d else record d { loops = d.loops - 1 }

abbrev hook_of : CallAction → Callbacks → Str × Option Str
hook_of Api.claim callbacks = (ascii "answer", callbacks.on_answer)
hook_of Api.unlock callbacks = (ascii "unlock", callbacks.on_unlock)
hook_of Api.hangup callbacks = (ascii "hangup", callbacks.on_hangup)

abbrev is_end : EventKind → Bool
is_end (call_ended _ _) = true
is_end _ = false

abbrev pub Outcome : Type 0
Outcome = DoorStation × (List Hook × CommandResult)

abbrev pub stop_if : Bool → DoorStation → DoorStation
stop_if ended d = if ended then record d { streaming = false } else d

abbrev pub concluded :
    Clock → CallAction → Str → DoorStation → CallInner × Result CallError EventKind → Outcome
concluded clock action command_id d (call, err e) =
    (record d { call = call }, ([], rejected command_id e))
concluded clock action command_id d (call, ok event) =
    let told = emit clock event (record d { call = call }) in
    let (name, hook) = hook_of action d.config.callbacks in
    (stop_if (is_end event) told, (callback name told hook, succeeded command_id))

abbrev pub remembered : Outcome → Outcome
remembered (d, (hooks, result)) = (record d { commands = store d.commands result }, (hooks, result))

abbrev pub unless_replayed : Clock → CallAction → Str → DoorStation → Option CommandResult → Outcome
unless_replayed clock action command_id d (some replayed) = (d, ([], replayed))
unless_replayed clock action command_id d none =
    remembered (concluded clock action command_id d (act clock action (session_string d) d.call))

unfoldable pub command : Clock → CallAction → Str → DoorStation → Outcome
command clock action command_id d =
    unless_replayed clock action command_id d (get d.commands command_id)

abbrev when : {A : Type 0} → Bool → A → Option A
when active a = if active then some a else none

unfoldable pub report_state : ℕ → DoorStation → CallState
report_state uptime_ms d =
    let active = not (is_idle d.call.machine.state.phase) in
    record {
      phase = d.call.machine.state.phase;
      owner = d.call.machine.state.owner;
      session_id = when active (session_string d);
      door_id = when active d.config.door_id;
      room_id = when active d.config.room_id;
      since_ms = d.call.since_ms;
      agent_id = ascii "software-door-station";
      connected = true;
      uptime_ms = uptime_ms;
    }

abbrev first_frame : ℕ → Option (List ℕ) → Option VideoFrame
first_frame now_us none = none
first_frame now_us (some jpeg) = some (record { pts_us = now_us; jpeg = jpeg })

abbrev or_first : ℕ → List (List ℕ) → Option VideoFrame → Option VideoFrame
or_first now_us frames none = first_frame now_us (head? frames)
or_first now_us frames (some frame) = some frame

unfoldable pub snapshot : ℕ → DoorStation → Option VideoFrame
snapshot now_us d = or_first now_us d.frames d.latest

-- `talk`, where `accepts` is whether the sink takes the bytes: a sink that fails is closed.
unfoldable pub talk : (List ℕ → Bool) → AudioChunk → DoorStation → DoorStation
talk accepts chunk d = record d { sink = d.sink && accepts chunk.pcm }

-- `target_v4`
unfoldable pub target_v4 : SocketAddr → Ipv4Addr
target_v4 (v4 ip port) = ip
target_v4 (v6 ip port) = unspecified
