-- ===== src/Examples/Calls.antt =====
-- state.rs: the theorems on the call machine at concrete calls.
use michoi.Common.{◌-◌, ◌≤◌, ◌≡◌, refl, true, false, none, [], ◌∷◌, ok, err, arith, inr}
use michoi.Call.{
  ringing, CallMachine, with_policy, pad_answer, remote_answer, unlock, hangup,
  remote_media_allowed, fresh_state, not_ringing,
}
use michoi.Call.Invariant.{
  op_start, op_pad_answer, op_remote_answer, op_unlock, op_video, op_hangup, run, IsConsistent,
  reachable-IsConsistent,
}
use michoi.Call.Trace.{unlock_spacing, hangup_resets_cooldown, first_answer_wins, claim_keeps_media}

-- A ringing call with a cooldown of 10.
abbrev bell : CallMachine
bell = record {
  state = fresh_state 1 ringing;
  cooldown = 10;
  unlock_requires_answer = false;
  last_unlock = none;
}

reachable-IsConsistent_example : IsConsistent (
    run
      (with_policy 10 true)
      (op_start 1 ∷ op_remote_answer ∷ op_unlock 5 ∷ op_hangup ∷ op_start 2 ∷ op_pad_answer ∷ []))
reachable-IsConsistent_example =
    reachable-IsConsistent 10 true
      (op_start 1 ∷ op_remote_answer ∷ op_unlock 5 ∷ op_hangup ∷ op_start 2 ∷ op_pad_answer ∷ [])

unlock_spacing_example : 10 ≤ 17 - 5
unfolding unlock remote_answer
unlock_spacing_example =
    unlock_spacing bell 5 17 (op_remote_answer ∷ op_unlock 9 ∷ []) refl refl (tt, (omega arith, tt))
      refl

hangup_resets_cooldown_example : (unlock (hangup (unlock bell 5).0) 6).1 ≡ ok tt
hangup_resets_cooldown_example = hangup_resets_cooldown bell 5 6 refl

first_answer_wins_example :
    ((pad_answer (run (remote_answer bell).0 (op_unlock 5 ∷ op_hangup ∷ []))).1 ≡ err not_ringing)
    × ((remote_answer (run (remote_answer bell).0 (op_unlock 5 ∷ op_hangup ∷ []))).1
        ≡ err not_ringing)
unfolding remote_answer
first_answer_wins_example =
    first_answer_wins bell (remote_answer bell).0 (op_unlock 5 ∷ op_hangup ∷ []) (inr (refl, refl))
      refl

claim_keeps_media_example :
    remote_media_allowed (run (remote_answer bell).0 (op_video ∷ op_unlock 5 ∷ [])) 1 ≡ true
unfolding remote_answer
claim_keeps_media_example = claim_keeps_media bell (op_video ∷ op_unlock 5 ∷ []) refl refl
