-- ===== src/Call.antt =====
-- state.rs: the call state machine. A method that takes `&mut self` returns the new machine; its
-- `Result` stands beside it. `Instant` and `Duration` are numbers on one clock, and
-- `duration_since` stops at zero as the standard library's does.
pub mod Invariant
pub mod Trace
use michoi.Common.{ℕ, ◌+◌, ◌-◌, ◌%◌, ◌^◌, Bool, true, false, not, ◌&&◌, ◌||◌, Option, none, some}
use michoi.Common.{ltb, ◌==◌, if◌then◌else◌, Result, ok, err}

pub data CallPhase : Type 0 where
  idle ringing connected ending : CallPhase

pub data Owner : Type 0 where
  nobody pad remote : Owner

pub data StateError : Type 0 where
  not_ringing pad_owns_call unlock_not_allowed unlock_cooldown : StateError

pub record PublicCallState : Type 0 where
  pub session_id : ℕ
  pub phase : CallPhase
  pub owner : Owner
  pub video_frames : ℕ
  pub door_audio_packets : ℕ
  pub unlocks : ℕ

pub record CallMachine : Type 0 where
  pub state : PublicCallState
  pub cooldown : ℕ
  pub unlock_requires_answer : Bool
  pub last_unlock : Option ℕ

abbrev pub is_idle : CallPhase → Bool
is_idle idle = true
is_idle _ = false

abbrev pub is_ringing : CallPhase → Bool
is_ringing ringing = true
is_ringing _ = false

abbrev pub is_connected : CallPhase → Bool
is_connected connected = true
is_connected _ = false

abbrev pub is_pad : Owner → Bool
is_pad pad = true
is_pad _ = false

abbrev pub is_remote : Owner → Bool
is_remote remote = true
is_remote _ = false

-- `u64 += 1`
abbrev pub add_one64 : ℕ → ℕ
add_one64 n = (n + 1) % 2 ^ 64

abbrev pub fresh_state : ℕ → CallPhase → PublicCallState
fresh_state session phase = record {
  session_id = session;
  phase = phase;
  owner = nobody;
  video_frames = 0;
  door_audio_packets = 0;
  unlocks = 0;
}

unfoldable pub with_policy : ℕ → Bool → CallMachine
with_policy cooldown unlock_requires_answer = record {
  state = fresh_state 0 idle;
  cooldown = cooldown;
  unlock_requires_answer = unlock_requires_answer;
  last_unlock = none;
}

unfoldable pub new : ℕ → CallMachine
unfolding with_policy
new cooldown = with_policy cooldown false

unfoldable pub start_call : CallMachine → ℕ → CallMachine
start_call m session = record m { state = fresh_state session ringing; last_unlock = none }

abbrev connect : CallMachine → Owner → CallMachine
connect m who = record m { state = record (m.state) { phase = connected; owner = who } }

unfoldable pub pad_answer : CallMachine → CallMachine × Result StateError (Unit {0})
pad_answer m =
    if not (is_ringing m.state.phase)
    then (m, err not_ringing)
    else if is_remote m.state.owner
    then (m, err not_ringing)
    else (connect m pad, ok tt)

unfoldable pub remote_answer : CallMachine → CallMachine × Result StateError (Unit {0})
remote_answer m =
    if not (is_ringing m.state.phase)
    then (m, err not_ringing)
    else if is_pad m.state.owner
    then (m, err pad_owns_call)
    else (connect m remote, ok tt)

-- `last.is_some_and(|last| now.duration_since(last) < cooldown)`
abbrev pub cooling : Option ℕ → ℕ → ℕ → Bool
cooling none now cooldown = false
cooling (some last) now cooldown = ltb (now - last) cooldown

unfoldable pub unlock : CallMachine → ℕ → CallMachine × Result StateError (Unit {0})
unlock m now =
    if m.unlock_requires_answer
      && (not (is_connected m.state.phase) || not (is_remote m.state.owner))
    then (m, err unlock_not_allowed)
    else if cooling m.last_unlock now m.cooldown
    then (m, err unlock_cooldown)
    else (
      record m {
        state = record (m.state) { unlocks = add_one64 m.state.unlocks };
        last_unlock = some now;
      },
      ok tt,
    )

unfoldable pub video_frame : CallMachine → CallMachine
video_frame m = record m {
  state = record (m.state) { video_frames = add_one64 m.state.video_frames };
}

unfoldable pub door_audio : CallMachine → CallMachine
door_audio m = record m {
  state = record (m.state) { door_audio_packets = add_one64 m.state.door_audio_packets };
}

unfoldable pub hangup : CallMachine → CallMachine
hangup m = record m {
  state = record (m.state) { phase = idle; owner = nobody };
  last_unlock = none;
}

unfoldable pub remote_media_allowed : CallMachine → ℕ → Bool
remote_media_allowed m session =
    m.state.session_id == session && is_connected m.state.phase && is_remote m.state.owner
