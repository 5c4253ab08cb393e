-- ===== src/Agent/Talk/Allowed.antt =====
-- agent.rs: who may talk and dial.
use michoi.Common.{
  ℕ, Bool, false, not, ◌&&◌, ◌||◌, Option, none, some, [], ◌≡◌, refl, sym, inl, inr, ◌⊎◌,
}
use michoi.Common.{◌==◌, Bool-cases}
use michoi.Common.Bytes.{Str}
use michoi.Common.{and_left, and_right, or_left, or_right}
use michoi.Net.{Ipv4Addr}
use michoi.Call.{
  CallPhase, idle, connected, remote, is_idle, is_connected, is_remote, remote_media_allowed,
}
use michoi.Api.{AudioChunk}
use michoi.Agent.{Agent, Clock}
use michoi.Agent.Command.Outcome.{owner_of, phase_of}
use michoi.Agent.Dispatch.{is_running}
use michoi.Agent.Talk.{Dialled, talk, dial_now}
use mathlib.Core.Bool.{false≢true}

-- Without an outbound call, audio that reaches the door as from the Pad is audio of a call that the
-- remote side has claimed: otherwise nothing is sent, whatever the wire would take.
pub talk_sends_lawfully :
    (sends : ℕ → Bool) (chunk : AudioChunk) (agent : Agent)
    → agent.call_session ≡ none
    → ((talk sends chunk agent).1.1.0 ≡ [])
      ⊎ ((agent.call.machine.state.phase ≡ connected) × (agent.call.machine.state.owner ≡ remote))
unfolding talk remote_media_allowed
talk_sends_lawfully sends chunk agent alone =
    let session = agent.call.machine.state.session_id in
    let phase = agent.call.machine.state.phase in
    let owner = agent.call.machine.state.owner in
    elim (Bool-cases (session == session && is_connected phase && is_remote owner)) [
      | inl may ↦
          inr
            (phase_of phase (and_right _ _ (and_left _ _ may)), owner_of owner (and_right _ _ may))
      | inr shut ↦ inl (rw (alone, shut) refl)
    ]

idle_of : (p : CallPhase) → not (is_idle p) ≡ false → p ≡ idle
idle_of idle h = refl
idle_of CallPhase.ringing h = absurd (false≢true (sym h))
idle_of connected h = absurd (false≢true (sym h))
idle_of CallPhase.ending h = absurd (false≢true (sym h))

stopped_of {ℓ} : {A : Type ℓ} (o : Option A) → is_running o ≡ false → o ≡ none
stopped_of none h = refl
stopped_of (some a) h = absurd (false≢true (sym h))

-- Whatever the discovery and the sockets answer: dialling that sends anything starts from an Agent
-- with no incoming call, no monitor and no other outbound call; otherwise the Agent is unchanged
-- too.
pub dial_now_exclusive :
    (clock : Clock) (callee_id : Str) (resolve : Str → Option Ipv4Addr) (socket : Dialled)
    (agent : Agent)
    → (((dial_now clock callee_id resolve socket agent).0 ≡ agent)
        × ((dial_now clock callee_id resolve socket agent).1.0 ≡ []))
      ⊎ ((agent.call.machine.state.phase ≡ idle)
          × ((agent.monitor ≡ none) × (agent.call_session ≡ none)))
unfolding dial_now
dial_now_exclusive clock callee_id resolve socket agent =
    elim (Bool-cases (not (is_idle agent.call.machine.state.phase))) [
      | inl busy ↦ inl (rw busy (refl, refl))
      | inr free ↦ elim (Bool-cases (is_running agent.monitor || is_running agent.call_session)) [
        | inl taken ↦ inl (rw (free, taken) (refl, refl))
        | inr open_line ↦ inr (
          idle_of agent.call.machine.state.phase free,
          (
            stopped_of agent.monitor (or_left _ _ open_line),
            stopped_of agent.call_session (or_right _ _ open_line),
          ),
        )
      ]
    ]
