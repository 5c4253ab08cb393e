-- ===== src/Agent/Command/Outcome.antt =====
-- agent.rs: what a command that is not a replay leads to, on the wire and in the log of events.
use michoi.Common.{
  Bool, true, false, not, ◌&&◌, ◌||◌, none, some, List, [], ◌∷◌, ◌≡◌, refl, ap, sym, inl, inr, ◌⊎◌,
  ℕ,
}
use michoi.Common.{ok, err, Bool-cases, Option-cases}
use michoi.Common.Bytes.{Str}
use michoi.Call.{
  CallPhase, Owner, ringing, connected, nobody, remote, CallMachine, is_connected, is_remote,
  cooling, remote_answer,
}
use michoi.Call.{unlock as unlock_machine}
use michoi.Api.{EventKind, CallAction, claim, unlock, agent_offline, rejected, succeeded}
use michoi.CommandCache.{get}
use michoi.EventLog.{push as push_event}
use michoi.Protocol.{Endpoints}
use michoi.Protocol.Op
use michoi.Protocol.Builders.{session_control}
use michoi.Agent.{
  Agent, Clock, Peers, Effect, on_remote_claim, on_call_end, send_as_pad, peers_endpoints,
  session_string, emit,
}
use michoi.Agent.Command.{Built, Outcome, build, deliver, remember, perform, execute, notify}
use mathlib.Core.Bool.{false≢true}
use michoi.Call.{StateError}
use michoi.Common.{Result-cases}

-- What the wire is to be told behind the packet: a claim silences the Pad, a hangup frees it.
abbrev pub told : CallAction → Peers → List Effect
told claim peers = on_remote_claim peers ∷ []
told unlock peers = []
told CallAction.hangup peers = on_call_end peers ∷ []

-- Nothing was sent, or one packet to the door as from the Pad.
abbrev pub OnePacketAtMost : Peers → List Effect → Type 0
OnePacketAtMost peers effects =
    (effects ≡ []) ⊎ ((raw : List ℕ) × (effects ≡ send_as_pad raw peers ∷ []))

-- What was announced and sent: a success sends one packet, then tells the wire, and pushes one
-- event; a rejection pushes none, and sends at most the packet that the wire refused.
abbrev pub IsAnnounced : Clock → CallAction → Agent → Outcome → Type 0
IsAnnounced clock action before (after, (effects, result)) =
    ((result.success ≡ true)
      × ((kind : EventKind) × ((raw : List ℕ) × ((effects
                ≡ send_as_pad raw before.peers ∷ told action before.peers)
              × (after.events ≡ (push_event before.events clock.now_ms kind).0)))))
    ⊎ ((result.success ≡ false)
        × (OnePacketAtMost before.peers effects × (after.events ≡ before.events)))

remember-IsAnnounced :
    (clock : Clock) (action : CallAction) (before : Agent) (o : Outcome)
    → IsAnnounced clock action before o
    → IsAnnounced clock action before (remember o)
remember-IsAnnounced clock action before (after, (effects, result)) h = h

notify_lem : (action : CallAction) (peers : Peers) → notify action peers ≡ told action peers
notify_lem claim peers = refl
notify_lem unlock peers = refl
notify_lem CallAction.hangup peers = refl

deliver-IsAnnounced :
    (sends : Bool) (clock : Clock) (action : CallAction) (command_id : Str) (agent : Agent)
    (b : Built)
    → IsAnnounced clock action agent (deliver sends clock action command_id agent b)
unfolding rejected succeeded emit
deliver-IsAnnounced sends clock action command_id agent (err error) = inr (refl, (inl refl, refl))
deliver-IsAnnounced true clock action command_id agent (ok (event, raw)) = inl (
  refl,
  (
    event,
    (raw, (ap (λ more. send_as_pad raw agent.peers ∷ more) (notify_lem action agent.peers), refl)),
  ),
)
deliver-IsAnnounced false clock action command_id agent (ok (event, raw)) =
    inr (refl, (inr (raw, refl), refl))

-- A command whose identifier is not in the cache: when it succeeds, one packet went to the door as
-- from the Pad, then the wire was told of a claim or of a hangup, and one event was pushed; when it
-- does not, no event was pushed and nothing was sent but at most one packet to the door as from the
-- Pad.
pub execute_announces :
    (sends : Bool) (clock : Clock) (action : CallAction) (command_id : Str) (agent : Agent)
    → get agent.commands command_id ≡ none
    → IsAnnounced clock action agent (execute sends clock action command_id agent)
unfolding execute perform
execute_announces sends clock action command_id agent e =
    let built =
      build clock action (session_string agent) (peers_endpoints agent.peers) agent.call in
    let now : Agent = record agent { call = built.0 } in
    rw e (
      remember-IsAnnounced clock action now (deliver sends clock action command_id now built.1)
        (deliver-IsAnnounced sends clock action command_id now built.1))

-- The policy for opening the door, as the configuration states it.
abbrev pub MayUnlock : CallMachine → ℕ → Type 0
MayUnlock m now =
    (m.unlock_requires_answer ≡ true → (m.state.phase ≡ connected) × (m.state.owner ≡ remote))
    × (cooling m.last_unlock now m.cooldown ≡ false)

pub owner_of : (o : Owner) → is_remote o ≡ true → o ≡ remote
owner_of nobody h = absurd (false≢true h)
owner_of Owner.pad h = absurd (false≢true h)
owner_of remote h = refl

pub phase_of : (p : CallPhase) → is_connected p ≡ true → p ≡ connected
phase_of CallPhase.idle h = absurd (false≢true h)
phase_of ringing h = absurd (false≢true h)
phase_of connected h = refl
phase_of CallPhase.ending h = absurd (false≢true h)

both_of : (b p q : Bool) → (b && (not p || not q)) ≡ false → b ≡ true → (p ≡ true) × (q ≡ true)
both_of true true true h k = (refl, refl)
both_of true true false h k = absurd (false≢true (sym h))
both_of true false q h k = absurd (false≢true (sym h))
both_of false p q h k = absurd (false≢true k)

unlock-MayUnlock :
    (m : CallMachine) (now : ℕ)
    → ((error : StateError) × (unlock_machine m now ≡ (m, err error))) ⊎ MayUnlock m now
unfolding unlock_machine
unlock-MayUnlock m now =
    elim (Bool-cases (
      m.unlock_requires_answer
      && (not (is_connected m.state.phase) || not (is_remote m.state.owner)))) [
        | inl e ↦ inl (StateError.unlock_not_allowed, rw e refl)
        | inr allowed ↦ elim (Bool-cases (cooling m.last_unlock now m.cooldown)) [
          | inl hot ↦ inl (StateError.unlock_cooldown, rw (allowed, hot) refl)
          | inr cold ↦ inr (
            (λ k. (
              phase_of m.state.phase (both_of _ _ _ allowed k).0,
              owner_of m.state.owner (both_of _ _ _ allowed k).1,
            )),
            cold,
          )
        ]
      ]

-- Whatever the identifier and the wire: an unlock command that makes the Agent send anything at all
-- is one that the policy allows, so the cooldown is over and, where the policy wants an answer
-- first, the call is connected and owned by the remote side.
pub unlock_sends_lawfully :
    (sends : Bool) (clock : Clock) (command_id : Str) (agent : Agent)
    → ((execute sends clock unlock command_id agent).1.0 ≡ [])
      ⊎ MayUnlock agent.call.machine clock.instant
unfolding execute perform
unlock_sends_lawfully sends clock command_id agent =
    elim (Option-cases (get agent.commands command_id)) [
      | inr (r, e) ↦ inl (rw e refl)
      | inl e ↦ elim (Option-cases (peers_endpoints agent.peers)) [
        | inl unknown ↦ inl (rw (e, unknown) refl)
        | inr (known, k) ↦ elim (unlock-MayUnlock agent.call.machine clock.instant) [
          | inl (error, shut) ↦ inl (rw (e, k, shut) refl)
          | inr may ↦ inr may
        ]
      ]
    ]

-- A claim of a ringing call that nobody owns, whose answer packet the wire refuses to send: the
-- command is rejected as `AgentOffline` and no event is pushed, but the machine says that the call
-- is connected and owned by the remote side. The door station must be known and the identifier new.
pub claim_keeps_call :
    (clock : Clock) (command_id : Str) (agent : Agent) (e : Endpoints)
    → get agent.commands command_id ≡ none
    → peers_endpoints agent.peers ≡ some e
    → agent.call.machine.state.phase ≡ ringing
    → agent.call.machine.state.owner ≡ nobody
    → ((execute false clock claim command_id agent).1.1 ≡ rejected command_id agent_offline)
      × (((execute false clock claim command_id agent).0.events ≡ agent.events)
          × (((execute false clock claim command_id agent).0.call.machine.state.phase ≡ connected)
              × ((execute false clock claim command_id agent).0.call.machine.state.owner ≡ remote)))
unfolding execute perform remote_answer
claim_keeps_call clock command_id agent e fresh known rings free =
    elim (Result-cases (session_control Op.answer e)) [
      | inl (raw, sent) ↦ rw (fresh, known, rings, free, sent) (refl, (refl, (refl, refl)))
      | inr (error, unsent) ↦ rw (fresh, known, rings, free, unsent) (refl, (refl, (refl, refl)))
    ]
