-- ===== src/Agent/Dispatch/Kept.antt =====
-- agent.rs: the operations on calls leave the media buffers and the pinned identity alone.
use michoi.Common.{not, Option, none, some, List, ◌≡◌, refl, sym, inl, inr}
use michoi.Common.{Result, ok, err, Bool-cases}
use michoi.Call.{is_idle, is_pad}
use michoi.MediaRing.Accounting.{IsWithin}
use michoi.Protocol.{Endpoints}
use michoi.Protocol.Jpeg.Tidy.{IsTidy}
use michoi.Agent.{Peers, MonitorHandle, CallHandle, Agent, Clock, Effect, emit}
use michoi.Common.{str_eq}
use michoi.Agent.Identity.{
  warn_mismatch, after_room, settle, check_room, check_door, accept_endpoints,
}
use michoi.Agent.Identity.Pinned.{KeepsPins, KeepsPins-same, accept_endpoints-KeepsPins}
use michoi.Agent.Session.{
  on_call_started, on_pad_answer, on_pad_unlock, on_wire_hangup, stop_monitor_now, hangup_call_now,
  callee_answered, stop_monitor, end_call, answered_by_pad,
}
use michoi.Agent.Dispatch.{Step}
use mathlib.Core.Path.{subst}
use michoi.Common.Bytes.{Str}
use michoi.Call.{CallMachine, StateError, pad_answer}

abbrev pub IsSound : Agent → Type 0
IsSound agent = IsWithin agent.history × IsTidy agent.jpeg

-- What one step may do to an Agent.
abbrev pub IsKept : Agent → Agent → Type 0
IsKept before after = IsSound after × KeepsPins before.peers after.peers

abbrev pub IsDone : Agent → Step → Type 0
IsDone before step =
    (after : Agent) × ((effects : List Effect) × ((step ≡ some (after, effects))
        × IsKept before after))

-- The parts that the calls' own operations leave alone.
pub record Untouched (p q : Agent) : Type 0 where
  pub history : q.history ≡ p.history
  pub jpeg : q.jpeg ≡ p.jpeg
  pub peers : q.peers ≡ p.peers

pub Untouched-same : (p : Agent) → Untouched p p
Untouched-same p = record { history = refl; jpeg = refl; peers = refl }

pub Untouched-IsKept : (p q : Agent) → IsSound p → Untouched p q → IsKept p q
Untouched-IsKept p q s u = (
  (subst IsWithin (sym u.history) s.0, subst IsTidy (sym u.jpeg) s.1),
  subst (KeepsPins p.peers) (sym u.peers) (KeepsPins-same p.peers),
)

pub Untouched-IsDone :
    (p q : Agent) (effects : List Effect) → IsSound p → Untouched p q → IsDone p (some (q, effects))
Untouched-IsDone p q effects s u = (q, (effects, (refl, Untouched-IsKept p q s u)))

pub on_call_started-Untouched :
    (clock : Clock) (e : Endpoints) (agent : Agent)
    → Untouched agent (on_call_started clock e agent)
unfolding on_call_started emit
on_call_started-Untouched clock e agent =
    elim (Bool-cases (not (is_idle agent.call.machine.state.phase))) [
      | inl busy ↦ rw busy (Untouched-same agent)
      | inr free ↦ rw free (record { history = refl; jpeg = refl; peers = refl })
    ]

pub on_pad_answer-Untouched :
    (clock : Clock) (agent : Agent) → Untouched agent (on_pad_answer clock agent)
unfolding on_pad_answer emit
on_pad_answer-Untouched clock agent = answered (pad_answer agent.call.machine)
  where
    answered :
        (o : CallMachine × Result StateError (Unit {0}))
        → Untouched agent (answered_by_pad clock agent o)
    answered (machine, err _) = record { history = refl; jpeg = refl; peers = refl }
    answered (machine, ok _) = record { history = refl; jpeg = refl; peers = refl }

pub on_pad_unlock-Untouched :
    (clock : Clock) (agent : Agent) → Untouched agent (on_pad_unlock clock agent)
unfolding on_pad_unlock emit
on_pad_unlock-Untouched clock agent = elim (Bool-cases (is_pad agent.call.machine.state.owner)) [
  | inl own ↦ rw own (record { history = refl; jpeg = refl; peers = refl })
  | inr other ↦ rw other (Untouched-same agent)
]

pub on_wire_hangup-Untouched :
    (clock : Clock) (peers : Peers) (agent : Agent)
    → Untouched agent (on_wire_hangup clock peers agent).0
unfolding on_wire_hangup emit
on_wire_hangup-Untouched clock peers agent =
    elim (Bool-cases (is_idle agent.call.machine.state.phase)) [
      | inl free ↦ rw free (record { history = refl; jpeg = refl; peers = refl })
      | inr busy ↦ rw busy (record { history = refl; jpeg = refl; peers = refl })
    ]

pub stop_monitor_now-Untouched : (agent : Agent) → Untouched agent (stop_monitor_now agent).0
unfolding stop_monitor_now
stop_monitor_now-Untouched agent = stopped agent.monitor
  where
    stopped : (o : Option MonitorHandle) → Untouched agent (stop_monitor agent o).0
    stopped none = Untouched-same agent
    stopped (some handle) = record { history = refl; jpeg = refl; peers = refl }

pub hangup_call_now-Untouched :
    (clock : Clock) (reason : Str) (agent : Agent)
    → Untouched agent (hangup_call_now clock reason agent).0
unfolding hangup_call_now emit
hangup_call_now-Untouched clock reason agent = ended agent.call_session
  where
    ended : (o : Option CallHandle) → Untouched agent (end_call clock reason agent o).0
    ended none = Untouched-same agent
    ended (some handle) = record { history = refl; jpeg = refl; peers = refl }

pub callee_answered-Untouched :
    (clock : Clock) (agent : Agent) (o : Option CallHandle)
    → Untouched agent (callee_answered clock agent o)
unfolding emit
callee_answered-Untouched clock agent none = Untouched-same agent
callee_answered-Untouched clock agent (some handle) = elim (Bool-cases handle.answered) [
  | inl again ↦ rw again (Untouched-same agent)
  | inr first ↦ rw first (record { history = refl; jpeg = refl; peers = refl })
]

-- The check of the endpoints leaves the buffers alone.
abbrev SameBuffers : Agent → Agent → Type 0
SameBuffers p q = (q.history ≡ p.history) × (q.jpeg ≡ p.jpeg)

settle-SameBuffers : (agent : Agent) (o : Option Peers) → SameBuffers agent (settle agent o).0
unfolding warn_mismatch
settle-SameBuffers agent none = (refl, refl)
settle-SameBuffers agent (some peers) = (refl, refl)

after_room-SameBuffers :
    (e : Endpoints) (agent : Agent) (o : Option Peers) → SameBuffers agent (after_room e agent o).0
unfolding warn_mismatch
after_room-SameBuffers e agent none = (refl, refl)
after_room-SameBuffers e agent (some peers) =
    settle-SameBuffers (record agent { peers = peers }) (check_door peers.door e peers)

pub accept_endpoints-IsKept :
    (e : Endpoints) (agent : Agent) → IsSound agent → IsKept agent (accept_endpoints e agent).0
unfolding accept_endpoints
accept_endpoints-IsKept e agent s =
    let same : SameBuffers agent (accept_endpoints e agent).0 =
      elim (Bool-cases (not (str_eq e.room.id agent.peers.room.id))) [
        | inl other ↦ rw other (refl, refl)
        | inr own ↦ rw own (after_room-SameBuffers e agent (check_room e agent.peers))
      ] in
    (
      (subst IsWithin (sym same.0) s.0, subst IsTidy (sym same.1) s.1),
      accept_endpoints-KeepsPins e agent,
    )
