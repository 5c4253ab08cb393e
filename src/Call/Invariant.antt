-- ===== src/Call/Invariant.antt =====
-- state.rs: what holds of the call machine after any calls of its methods.
use michoi.Common.{ℕ, ◌≡◌, ◌≢◌, Bool, List, [], ◌∷◌}
use michoi.Common.{arith}
use michoi.Call.{
  connected, ending, nobody, CallMachine, with_policy, start_call, pad_answer, remote_answer,
  unlock, video_frame, door_audio, hangup,
}

-- A call of one method, with its arguments.
pub data Op : Type 0 where
  op_start : ℕ → Op
  op_pad_answer : Op
  op_remote_answer : Op
  op_unlock : ℕ → Op
  op_video : Op
  op_audio : Op
  op_hangup : Op

abbrev pub step : CallMachine → Op → CallMachine
step m (op_start session) = start_call m session
step m op_pad_answer = (pad_answer m).0
step m op_remote_answer = (remote_answer m).0
step m (op_unlock now) = (unlock m now).0
step m op_video = video_frame m
step m op_audio = door_audio m
step m op_hangup = hangup m

abbrev pub run : CallMachine → List Op → CallMachine
run m [] = m
run m (o ∷ os) = run (step m o) os

-- Someone owns the call exactly while it is connected, and a call never rests in `ending`.
pub record IsConsistent (m : CallMachine) : Type 0 where
  pub owned : m.state.phase ≡ connected → m.state.owner ≢ nobody
  pub free : m.state.phase ≢ connected → m.state.owner ≡ nobody
  pub live : m.state.phase ≢ ending

pub with_policy-IsConsistent :
    (cooldown : ℕ) (strict : Bool) → IsConsistent (with_policy cooldown strict)
unfolding with_policy
with_policy-IsConsistent cooldown strict = ground arith

pub step-IsConsistent : (m : CallMachine) (o : Op) → IsConsistent m → IsConsistent (step m o)
unfolding start_call pad_answer remote_answer unlock video_frame door_audio hangup
step-IsConsistent m (op_start session) h = ground arith
step-IsConsistent m op_pad_answer h = ground arith
step-IsConsistent m op_remote_answer h = ground arith
step-IsConsistent m (op_unlock now) h = ground arith
step-IsConsistent m op_video h = ground arith
step-IsConsistent m op_audio h = ground arith
step-IsConsistent m op_hangup h = ground arith

run-IsConsistent : (m : CallMachine) (os : List Op) → IsConsistent m → IsConsistent (run m os)
run-IsConsistent m [] h = h
run-IsConsistent m (o ∷ os) h = run-IsConsistent (step m o) os (step-IsConsistent m o h)

-- After any sequence of method calls on a new machine, the call has an owner exactly while it is
-- connected, and its phase is never `ending`.
pub reachable-IsConsistent :
    (cooldown : ℕ) (strict : Bool) (os : List Op)
    → IsConsistent (run (with_policy cooldown strict) os)
reachable-IsConsistent cooldown strict os =
    run-IsConsistent (with_policy cooldown strict) os (with_policy-IsConsistent cooldown strict)
