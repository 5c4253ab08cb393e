-- ===== src/Call/Trace.antt =====
-- state.rs: what holds over sequences of method calls: the first answer wins, unlocks keep their
-- distance, and the remote owner keeps the media.
use michoi.Common.{ℕ, ◌-◌, ◌≤◌, ◌≡◌, refl, ◌≢◌, ◌⊎◌, Bool, true, false, not, ◌&&◌, List, [], ◌∷◌}
use mathlib.Core.Path.{subst}
use michoi.Common.{inl, inr, sym, ◌∙◌, ◌||◌, ==_refl, if◌then◌else◌, some, ok, err, is_ok, arith}
use michoi.Call.{
  ringing, CallMachine, cooling, pad_answer, remote_answer, unlock, video_frame, door_audio, hangup,
  remote_media_allowed, unlock_not_allowed, unlock_cooldown, add_one64, not_ringing,
}
use michoi.Call.Invariant.{
  Op, op_start, op_pad_answer, op_remote_answer, op_unlock, op_video, op_audio, op_hangup, step,
  run,
}

-- The steps that neither start nor end a call.
abbrev pub keeps_call : Op → Bool
keeps_call (op_start _) = false
keeps_call op_hangup = false
keeps_call _ = true

abbrev pub within_call : List Op → Bool
within_call [] = true
within_call (o ∷ os) = keeps_call o && within_call os

abbrev pub no_start : List Op → Bool
no_start [] = true
no_start (op_start _ ∷ os) = false
no_start (_ ∷ os) = no_start os

-- Every unlock of the sequence happens at `t` or later.
abbrev pub NotBefore : ℕ → Op → Type 0
NotBefore t (op_unlock now) = t ≤ now
NotBefore t _ = Unit {0}

abbrev pub AllNotBefore : ℕ → List Op → Type 0
AllNotBefore t [] = Unit {0}
AllNotBefore t (o ∷ os) = NotBefore t o × AllNotBefore t os

-- The machine remembers an unlock at `t` or later, and its cooldown.
abbrev Remembers : ℕ → ℕ → CallMachine → Type 0
Remembers t c m = (l : ℕ) × (m.last_unlock ≡ some l) × (t ≤ l) × (m.cooldown ≡ c)

-- An unlock either leaves the machine alone or records its own time.
unlock_cases :
    (m : CallMachine) (now : ℕ)
    → ((unlock m now).0 ≡ m)
      ⊎ (((unlock m now).0.last_unlock ≡ some now) × ((unlock m now).0.cooldown ≡ m.cooldown))
unfolding unlock
unlock_cases m now = ground arith

step-Remembers :
    (t c : ℕ) (m : CallMachine) (o : Op)
    → keeps_call o ≡ true
    → NotBefore t o
    → Remembers t c m
    → Remembers t c (step m o)
unfolding pad_answer remote_answer video_frame door_audio
step-Remembers t c m (op_start _) k b h = cc
step-Remembers t c m op_pad_answer k b h = (h.0, ground arith, h.2, ground arith)
step-Remembers t c m op_remote_answer k b h = (h.0, ground arith, h.2, ground arith)
step-Remembers t c m (op_unlock now) k b h = elim (unlock_cases m now) [
  | inl e ↦ subst (Remembers t c) (sym e) h
  | inr e ↦ (now, e.0, b, e.1 ∙ h.3)
]
step-Remembers t c m op_video k b h = h
step-Remembers t c m op_audio k b h = h
step-Remembers t c m op_hangup k b h = cc

run-Remembers :
    (t c : ℕ) (os : List Op) (m : CallMachine)
    → within_call os ≡ true
    → AllNotBefore t os
    → Remembers t c m
    → Remembers t c (run m os)
run-Remembers t c [] m k b h = h
run-Remembers t c (o ∷ os) m k b h =
    run-Remembers t c os (step m o) (ground arith) b.1 (step-Remembers t c m o (ground arith) b.0 h)

unlock-Remembers :
    (m : CallMachine) (t : ℕ) → (unlock m t).1 ≡ ok tt → Remembers t m.cooldown (unlock m t).0
unfolding unlock
unlock-Remembers m t h = (t, ground arith, omega arith, ground arith)

spaced : (t c u : ℕ) (m : CallMachine) → Remembers t c m → (unlock m u).1 ≡ ok tt → c ≤ u - t
unfolding unlock
spaced t c u m h e = ground (arith, h.1, h.2, h.3)

-- Two unlocks that the machine accepts within one call are at least the cooldown apart, whatever
-- else happens between them, if no unlock between them is dated before the first.
pub unlock_spacing :
    (m : CallMachine) (t u : ℕ) (os : List Op)
    → (unlock m t).1 ≡ ok tt
    → within_call os ≡ true
    → AllNotBefore t os
    → (unlock (run (unlock m t).0 os) u).1 ≡ ok tt
    → m.cooldown ≤ u - t
unlock_spacing m t u os first k b second =
    spaced t m.cooldown u (run (unlock m t).0 os)
      (run-Remembers t m.cooldown os (unlock m t).0 k b (unlock-Remembers m t first)) second

-- Ending a call forgets the last unlock: unless the strict policy is set, an unlock right after a
-- hangup is accepted at every time, however recent the unlock before it and whatever the cooldown.
pub hangup_resets_cooldown :
    (m : CallMachine) (t u : ℕ)
    → m.unlock_requires_answer ≡ false
    → (unlock (hangup (unlock m t).0) u).1 ≡ ok tt
unfolding unlock hangup
hangup_resets_cooldown m t u h = ground arith

-- What an unlock does, on every branch: it is accepted exactly if the policy lets the caller in and
-- no unlock is cooling; then it records its time and counts, and otherwise it changes nothing. It
-- never touches the phase, the owner or the session.
pub unlock_lem :
    (m : CallMachine) (now : ℕ)
    → let allowed : Bool =
        remote_media_allowed m m.state.session_id || not m.unlock_requires_answer in
      let (m', r) = unlock m now in
      (r ≡ (
        if not allowed
        then err unlock_not_allowed
        else if cooling m.last_unlock now m.cooldown
        then err unlock_cooldown
        else ok tt))
      × (m'.last_unlock ≡ (if is_ok r then some now else m.last_unlock))
      × (m'.state ≡ record (m.state) {
        unlocks = if is_ok r then add_one64 m.state.unlocks else m.state.unlocks;
      })
unfolding unlock remote_media_allowed
unlock_lem m now = (ground (arith, ==_refl m.state.session_id), ground arith, ground arith)

-- Once a call no longer rings it cannot be answered, by either side, before the next one starts.
step_answered :
    (m : CallMachine) (o : Op)
    → no_start (o ∷ []) ≡ true
    → m.state.phase ≢ ringing
    → (step m o).state.phase ≢ ringing
unfolding pad_answer remote_answer unlock video_frame door_audio hangup
step_answered m (op_start _) k h = cc
step_answered m op_pad_answer k h = ground arith
step_answered m op_remote_answer k h = ground arith
step_answered m (op_unlock now) k h = ground arith
step_answered m op_video k h = ground arith
step_answered m op_audio k h = ground arith
step_answered m op_hangup k h = ground arith

no_start-split :
    (o : Op) (os : List Op)
    → no_start (o ∷ os) ≡ true
    → (no_start (o ∷ []) ≡ true) × (no_start os ≡ true)
no_start-split (op_start _) os h = cc
no_start-split op_hangup os h = (refl, h)
no_start-split _ os h = (refl, h)

run_answered :
    (os : List Op) (m : CallMachine)
    → no_start os ≡ true
    → m.state.phase ≢ ringing
    → (run m os).state.phase ≢ ringing
run_answered [] m k h = h
run_answered (o ∷ os) m k h =
    let (k₀, k₁) = no_start-split o os k in run_answered os (step m o) k₁ (step_answered m o k₀ h)

answer_connects :
    (m : CallMachine)
    → ((pad_answer m).1 ≡ ok tt) ⊎ ((remote_answer m).1 ≡ ok tt)
    → (m.state.phase ≡ ringing)
unfolding pad_answer remote_answer
answer_connects m h = ground arith

pad_answer-phase :
    (m : CallMachine) → (pad_answer m).1 ≡ ok tt → (pad_answer m).0.state.phase ≢ ringing
unfolding pad_answer
pad_answer-phase m h = ground arith

remote_answer-phase :
    (m : CallMachine) → (remote_answer m).1 ≡ ok tt → (remote_answer m).0.state.phase ≢ ringing
unfolding remote_answer
remote_answer-phase m h = ground arith

refused :
    (m : CallMachine)
    → m.state.phase ≢ ringing
    → ((pad_answer m).1 ≡ err not_ringing) × ((remote_answer m).1 ≡ err not_ringing)
unfolding pad_answer remote_answer
refused m h = ground arith

-- The first answer wins: after the Pad or the remote side has answered, and through any steps that
-- start no new call, a further answer of either side is refused with `not_ringing`.
pub first_answer_wins :
    (m m' : CallMachine) (os : List Op)
    → (((pad_answer m).1 ≡ ok tt) × ((pad_answer m).0 ≡ m'))
      ⊎ (((remote_answer m).1 ≡ ok tt) × ((remote_answer m).0 ≡ m'))
    → no_start os ≡ true
    → ((pad_answer (run m' os)).1 ≡ err not_ringing)
      × ((remote_answer (run m' os)).1 ≡ err not_ringing)
first_answer_wins m m' os h k = refused (run m' os) (run_answered os m' k (answered h))
  where
    answered :
        (((pad_answer m).1 ≡ ok tt) × ((pad_answer m).0 ≡ m'))
          ⊎ (((remote_answer m).1 ≡ ok tt) × ((remote_answer m).0 ≡ m'))
        → m'.state.phase ≢ ringing
    answered (inl p) = subst (λ n. n.state.phase ≢ ringing) p.1 (pad_answer-phase m p.0)
    answered (inr p) = subst (λ n. n.state.phase ≢ ringing) p.1 (remote_answer-phase m p.0)

step_owned :
    (session : ℕ) (m : CallMachine) (o : Op)
    → keeps_call o ≡ true
    → remote_media_allowed m session ≡ true
    → remote_media_allowed (step m o) session ≡ true
unfolding remote_media_allowed pad_answer remote_answer unlock video_frame door_audio
step_owned session m (op_start _) k h = cc
step_owned session m op_pad_answer k h = ground arith
step_owned session m op_remote_answer k h = ground arith
step_owned session m (op_unlock now) k h = ground arith
step_owned session m op_video k h = ground arith
step_owned session m op_audio k h = ground arith
step_owned session m op_hangup k h = cc

run_owned :
    (session : ℕ) (os : List Op) (m : CallMachine)
    → within_call os ≡ true
    → remote_media_allowed m session ≡ true
    → remote_media_allowed (run m os) session ≡ true
run_owned session [] m k h = h
run_owned session (o ∷ os) m k h =
    run_owned session os (step m o) (ground arith) (step_owned session m o (ground arith) h)

claim_opens :
    (m : CallMachine)
    → (remote_answer m).1 ≡ ok tt
    → remote_media_allowed (remote_answer m).0 m.state.session_id ≡ true
unfolding remote_answer remote_media_allowed
claim_opens m h = ground (arith, ==_refl m.state.session_id)

-- A remote side that has claimed a call may send media for its session until the call ends or
-- another starts: no step within the call takes it away.
pub claim_keeps_media :
    (m : CallMachine) (os : List Op)
    → (remote_answer m).1 ≡ ok tt
    → within_call os ≡ true
    → remote_media_allowed (run (remote_answer m).0 os) m.state.session_id ≡ true
claim_keeps_media m os h k = run_owned m.state.session_id os (remote_answer m).0 k (claim_opens m h)
