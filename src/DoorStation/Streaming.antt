-- ===== src/DoorStation/Streaming.antt =====
-- door_station.rs: the media loop and the call, when each operation runs alone.
use michoi.Common.{
  ℕ, ◌-◌, ◌<◌, Bool, true, false, not, ◌&&◌, ◌||◌, Option, none, some, List, [], ◌∷◌, ◌≡◌, refl,
  sym, ◌∙◌, inl, inr, Bool-cases, Result, ok, err, arith, if-both, ◌==◌, length,
}
use mathlib.Core.Bool.{false≢true}
use mathlib.Core.Option.{some-injective, none-ne-some}
use michoi.Replay.{TimedFrame}
use michoi.Common.{if-cases, ◌++◌}
use michoi.DoorStation.{DoorStationConfig, from_timeline, station_of, jpegs}
use mathlib.Core.Path.{subst}
use michoi.Common.Bytes.{Str}
use michoi.Call.{
  CallMachine, StateError, is_idle, is_ringing, is_pad, start_call, hangup, remote_answer,
  connected,
}
use michoi.Call.{unlock as unlock_machine}
use michoi.Call
use michoi.Api.{CallAction, CallError, EventKind, CommandResult, VideoFrame, AudioChunk}
use michoi.Api
use michoi.CommandCache.{get}
use michoi.MediaRing.{MediaRing, push_video as ring_video, push_audio as ring_audio}
use michoi.Agent.{Clock}
use michoi.Replay.Player.{CallInner, act, answered, unlocked}
use michoi.DoorStation.{
  DoorStation, ring, ring_call, ring_stream, hangup_local, hangup_machine, hangup_stream,
  frame_tick, audio_tick, loop_check, command, concluded, unless_replayed, session_string,
  with_ring, picture, sound, is_end,
}

-- A call that rings or is connected has the stream on, and a stream that is on has a media loop.
pub record IsStreaming (d : DoorStation) : Type 0 where
  pub active : is_idle d.call.machine.state.phase ≡ false → d.streaming ≡ true
  pub fed : d.streaming ≡ true → 0 < d.loops

ring-IsStreaming : (clock : Clock) (d : DoorStation) → IsStreaming d → IsStreaming (ring clock d)
unfolding ring ring_call ring_stream start_call
ring-IsStreaming clock d h = elim (Bool-cases (not (is_idle d.call.machine.state.phase))) [
  | inl busy ↦ rw busy h
  | inr free ↦ elim (Bool-cases d.streaming) [
    | inl on ↦ rw (free, on) (record { active = λ _. refl; fed = λ _. h.fed on })
    | inr off ↦ rw (free, off) (record { active = λ _. refl; fed = λ _. omega arith })
  ]
]

hangup_local-IsStreaming :
    (clock : Clock) (reason : Str) (d : DoorStation)
    → IsStreaming d
    → IsStreaming (hangup_local clock reason d).0
unfolding hangup_local hangup_machine hangup_stream hangup
hangup_local-IsStreaming clock reason d h =
    elim (Bool-cases (not (is_idle d.call.machine.state.phase))) [
      | inl busy ↦
          rw busy
            (record { active = λ e. absurd (false≢true (sym e)); fed = λ e. absurd (false≢true e) })
      | inr free ↦
          rw free
            (record { active = λ e. absurd (false≢true (sym e)); fed = λ e. absurd (false≢true e) })
    ]

-- What `act` leaves of a call that is not active, by its event.
abbrev IsActed : CallInner → CallInner × Result CallError EventKind → Type 0
IsActed before (after, err e) =
    is_idle after.machine.state.phase ≡ is_idle before.machine.state.phase
IsActed before (after, ok event) =
    (is_end event ≡ true → is_idle after.machine.state.phase ≡ true)
    × (is_end event ≡ false
        → is_idle after.machine.state.phase ≡ is_idle before.machine.state.phase)

remote_answer-phase :
    (m : CallMachine) → is_idle (remote_answer m).0.state.phase ≡ is_idle m.state.phase
unfolding remote_answer
remote_answer-phase m = elim (Bool-cases (is_ringing m.state.phase)) [
  | inr other ↦ rw other refl
  | inl rings ↦ elim (Bool-cases (is_pad m.state.owner)) [
    | inl own ↦ rw (rings, own) refl
    | inr other ↦ rw (rings, other) (sym (ringing_active m.state.phase rings))
  ]
]
  where
    ringing_active : (p : Call.CallPhase) → is_ringing p ≡ true → is_idle p ≡ false
    ringing_active Call.ringing e = refl
    ringing_active Call.idle e = absurd (false≢true e)
    ringing_active Call.connected e = refl
    ringing_active Call.ending e = refl

unlock-phase :
    (m : CallMachine) (now : ℕ)
    → is_idle (unlock_machine m now).0.state.phase ≡ is_idle m.state.phase
unfolding unlock_machine
unlock-phase m now =
    let strict : Bool =
      m.unlock_requires_answer
      && (not (Call.is_connected m.state.phase) || not (Call.is_remote m.state.owner)) in
    elim (Bool-cases strict) [
      | inl refused ↦ rw refused refl
      | inr passed ↦ elim (Bool-cases (Call.cooling m.last_unlock now m.cooldown)) [
        | inl early ↦ rw (passed, early) refl
        | inr late ↦ rw (passed, late) refl
      ]
    ]

act-IsActed :
    (clock : Clock) (action : CallAction) (session : Str) (call : CallInner)
    → IsActed call (act clock action session call)
unfolding act hangup
act-IsActed clock Api.claim session call =
    claimed (remote_answer call.machine) (remote_answer-phase call.machine)
  where
    claimed :
        (o : CallMachine × Result StateError (Unit {0}))
        → is_idle o.0.state.phase ≡ is_idle call.machine.state.phase
        → IsActed call (answered clock session call o)
    claimed (m, ok _) e = ((λ x. absurd (false≢true x)), (λ _. e))
    claimed (m, err _) e = e
act-IsActed clock Api.unlock session call =
    opened (unlock_machine call.machine clock.instant) (unlock-phase call.machine clock.instant)
  where
    opened :
        (o : CallMachine × Result StateError (Unit {0}))
        → is_idle o.0.state.phase ≡ is_idle call.machine.state.phase
        → IsActed call (unlocked session call o)
    opened (m, ok _) e = ((λ x. absurd (false≢true x)), (λ _. e))
    opened (m, err _) e = e
act-IsActed clock Api.hangup session call = elim (Bool-cases (is_idle call.machine.state.phase)) [
  | inl free ↦ rw free refl
  | inr busy ↦ rw busy ((λ _. refl), (λ e. absurd (false≢true (sym e))))
]

concluded-IsStreaming :
    (clock : Clock) (action : CallAction) (id : Str) (d : DoorStation)
    (o : CallInner × Result CallError EventKind)
    → IsActed d.call o
    → IsStreaming d
    → IsStreaming (concluded clock action id d o).0
concluded-IsStreaming clock action id d (call, err e) acted h = record {
  active = λ x. h.active (sym acted ∙ x);
  fed = h.fed;
}
concluded-IsStreaming clock action id d (call, ok event) acted h =
    elim (Bool-cases (is_end event)) [
      | inl ends ↦ rw ends (record {
        active = λ x. absurd (false≢true (sym x ∙ acted.0 ends));
        fed = λ e. absurd (false≢true e);
      })
      | inr goes ↦ rw goes (record { active = λ x. h.active (sym (acted.1 goes) ∙ x); fed = h.fed })
    ]

command-IsStreaming :
    (clock : Clock) (action : CallAction) (id : Str) (d : DoorStation)
    → IsStreaming d
    → IsStreaming (command clock action id d).0
unfolding command
command-IsStreaming clock action id d h = looked (get d.commands id)
  where
    looked : (o : Option CommandResult) → IsStreaming (unless_replayed clock action id d o).0
    looked (some replayed) = h
    looked none =
        let run =
          concluded-IsStreaming clock action id d (act clock action (session_string d) d.call)
            (act-IsActed clock action (session_string d) d.call) h in
        record { active = run.active; fed = run.fed }

loop_check-IsStreaming : (d : DoorStation) → IsStreaming d → IsStreaming (loop_check d)
unfolding loop_check
loop_check-IsStreaming d h =
    if-both IsStreaming d.streaming d (record d { loops = d.loops - 1 }) (λ _. h)
      (λ off. record { active = h.active; fed = λ e. absurd (false≢true (sym off ∙ e)) })

-- One operation of the station, by whichever thread, when it runs alone.
pub data Step : DoorStation → DoorStation → Type 0 where
  rings : (clock : Clock) (d : DoorStation) → Step d (ring clock d)
  hangs_up :
      (clock : Clock) (reason : Str) (d : DoorStation) → Step d (hangup_local clock reason d).0
  commands :
      (clock : Clock) (action : CallAction) (id : Str) (d : DoorStation)
      → Step d (command clock action id d).0
  shows : (clock : Clock) (fi : ℕ) (d e : DoorStation) → frame_tick clock fi d ≡ some e → Step d e
  sounds : (clock : Clock) (ai : ℕ) (d e : DoorStation) → audio_tick clock ai d ≡ some e → Step d e
  checks : (d : DoorStation) → Step d (loop_check d)

pub data Steps : DoorStation → DoorStation → Type 0 where
  done : (d : DoorStation) → Steps d d
  step : (d e f : DoorStation) → Step d e → Steps e f → Steps d f

-- The ring's clocks change neither the call nor the stream.
with_ring-IsStreaming :
    (d e : DoorStation) (o : Option MediaRing)
    → with_ring d o ≡ some e
    → IsStreaming d
    → IsStreaming e
with_ring-IsStreaming d e none made h = absurd (none-ne-some e made)
with_ring-IsStreaming d e (some kept) made h =
    subst IsStreaming (some-injective (record d { history = kept }) e made)
      (record { active = h.active; fed = h.fed })

frame_tick-IsStreaming :
    (clock : Clock) (fi : ℕ) (d e : DoorStation)
    → frame_tick clock fi d ≡ some e
    → IsStreaming d
    → IsStreaming e
unfolding frame_tick
frame_tick-IsStreaming clock fi d e made h =
    with_ring-IsStreaming
      (record d {
        latest = some (picture clock fi d);
        video = d.video ++ (picture clock fi d ∷ []);
      })
      e (ring_video d.history (picture clock fi d)) made (record { active = h.active; fed = h.fed })

audio_tick-IsStreaming :
    (clock : Clock) (ai : ℕ) (d e : DoorStation)
    → audio_tick clock ai d ≡ some e
    → IsStreaming d
    → IsStreaming e
unfolding audio_tick
audio_tick-IsStreaming clock ai d e made h = elim (if-cases (length d.microphone == 0) _ _ _ made) [
  | inl (_, same) ↦ subst IsStreaming (some-injective d e same) h
  | inr (_, rest) ↦
      with_ring-IsStreaming (record d { door_audio = d.door_audio ++ (sound clock ai d ∷ []) }) e
        (ring_audio d.history (sound clock ai d)) rest (record { active = h.active; fed = h.fed })
]

step-IsStreaming : (d e : DoorStation) → Step d e → IsStreaming d → IsStreaming e
step-IsStreaming _ _ (rings clock d) h = ring-IsStreaming clock d h
step-IsStreaming _ _ (hangs_up clock reason d) h = hangup_local-IsStreaming clock reason d h
step-IsStreaming _ _ (commands clock action id d) h = command-IsStreaming clock action id d h
step-IsStreaming _ _ (shows clock fi d e made) h = frame_tick-IsStreaming clock fi d e made h
step-IsStreaming _ _ (sounds clock ai d e made) h = audio_tick-IsStreaming clock ai d e made h
step-IsStreaming _ _ (checks d) h = loop_check-IsStreaming d h

steps-IsStreaming : (d e : DoorStation) → Steps d e → IsStreaming d → IsStreaming e
steps-IsStreaming _ _ (done d) h = h
steps-IsStreaming _ _ (step d e f one rest) h =
    steps-IsStreaming e f rest (step-IsStreaming d e one h)

-- A new station, and any number of rings, hang-ups, commands with any identifiers, and turns of the
-- media loops, each of which runs alone: while a call rings or is connected the stream is on and a
-- media loop runs.
pub reached-IsStreaming :
    (config : DoorStationConfig) (timeline : List TimedFrame) (sink : Bool) (d e : DoorStation)
    → from_timeline config timeline sink ≡ some d
    → Steps d e
    → IsStreaming e
unfolding from_timeline michoi.Call.with_policy
reached-IsStreaming config timeline sink d e made steps =
    elim (if-cases (length (jpegs timeline) == 0) _ _ _ made) [
      | inl (_, empty) ↦ absurd (none-ne-some d empty)
      | inr (_, new) ↦ steps-IsStreaming d e steps (
          subst IsStreaming (some-injective (station_of config timeline sink) d new) (record {
            active = λ x. absurd (false≢true (sym x));
            fed = λ x. absurd (false≢true x);
          }))
    ]
