-- ===== src/Agent/Command/Retry.antt =====
-- agent.rs: a command that is sent again later, after other commands and whatever else happened.
use michoi.Common.{
  ℕ, suc, ◌+◌, ◌<◌, Bool, true, false, none, some, [], ◌≡◌, refl, ap, sym, ◌∙◌, inl, inr, ok, err,
  Option-cases, arith, member, keys, str_key,
}
use mathlib.Core.Path.{subst}
use michoi.Common.Bytes.{Str}
use michoi.Api.{CallAction, CommandResult}
use michoi.CommandCache.{CommandCache, get, store}
use michoi.CommandCache.Recent.{
  IsOrdered, IsRecent, get-not_member, store-IsRecent, store-stays, get-IsRecent,
}
use michoi.Agent.{Agent, Clock, peers_endpoints, session_string}
use michoi.Agent.Command.{Built, Outcome, build, deliver, remember, perform, execute}
use michoi.Agent.Command.Replay.{deliver-command_id}

-- From one state of the Agent to a later one, with so many commands in between, each with any
-- identifier; and between them anything that leaves the cache of commands as it is.
pub data Between : ℕ → Agent → Agent → Type 0 where
  done : (agent : Agent) → Between 0 agent agent
  command :
      (n : ℕ) (sends : Bool) (clock : Clock) (action : CallAction) (command_id : Str)
      (agent after : Agent)
      → Between n (execute sends clock action command_id agent).0 after
      → Between (suc n) agent after
  apart :
      (n : ℕ) (agent next after : Agent)
      → next.commands ≡ agent.commands
      → Between n next after
      → Between n agent after

deliver-commands :
    (sends : Bool) (clock : Clock) (action : CallAction) (command_id : Str) (agent : Agent)
    (b : Built)
    → (deliver sends clock action command_id agent b).0.commands ≡ agent.commands
unfolding michoi.Agent.emit
deliver-commands sends clock action command_id agent (err error) = refl
deliver-commands true clock action command_id agent (ok (event, raw)) = refl
deliver-commands false clock action command_id agent (ok (event, raw)) = refl

remember-stores :
    (o : Outcome) (c : CommandCache)
    → o.0.commands ≡ c
    → ((remember o).0.commands ≡ store c (remember o).1.1)
remember-stores (agent, (effects, r)) c h = ap (λ d. store d r) h

remember-answer : (o : Outcome) → (remember o).1.1 ≡ o.1.1
remember-answer (agent, (effects, r)) = refl

-- A command that runs stores its answer, under its identifier.
perform-stores :
    (sends : Bool) (clock : Clock) (action : CallAction) (command_id : Str) (agent : Agent)
    → ((perform sends clock action command_id agent).0.commands
        ≡ store agent.commands (perform sends clock action command_id agent).1.1)
      × ((perform sends clock action command_id agent).1.1.command_id ≡ command_id)
unfolding perform
perform-stores sends clock action command_id agent =
    let built =
      build clock action (session_string agent) (peers_endpoints agent.peers) agent.call in
    let now : Agent = record agent { call = built.0 } in
    let o : Outcome = deliver sends clock action command_id now built.1 in
    (
      remember-stores o agent.commands (deliver-commands sends clock action command_id now built.1),
      ap (λ r. r.command_id) (remember-answer o)
          ∙ deliver-command_id sends clock action command_id now built.1,
    )

fresh_id :
    (sends : Bool) (clock : Clock) (action : CallAction) (command_id : Str) (agent : Agent)
    → get agent.commands command_id ≡ none
    → member
        (perform sends clock action command_id agent).1.1.command_id
        (keys agent.commands.results)
      ≡ false
fresh_id sends clock action command_id agent h =
    subst (λ id. member id (keys agent.commands.results) ≡ false)
      (sym (perform-stores sends clock action command_id agent).1)
      (get-not_member agent.commands command_id h)

store-capacity : (c : CommandCache) (r : CommandResult) → (store c r).capacity ≡ c.capacity
unfolding store
store-capacity c r = refl

-- One more command: the answer is one place further from the newest, at most.
execute-IsRecent :
    (sends : Bool) (clock : Clock) (action : CallAction) (command_id : Str) (agent : Agent)
    (r : CommandResult) (n : ℕ)
    → suc n < agent.commands.capacity
    → IsRecent n r agent.commands
    → IsRecent (suc n) r (execute sends clock action command_id agent).0.commands
      × ((execute sends clock action command_id agent).0.commands.capacity
          ≡ agent.commands.capacity)
unfolding execute
execute-IsRecent sends clock action command_id agent r n h k =
    elim (Option-cases (get agent.commands command_id)) [
      | inl e ↦
          let (stored, _) = perform-stores sends clock action command_id agent in
          let result = (perform sends clock action command_id agent).1.1 in
          rw e (
            subst (IsRecent (suc n) r) (sym stored) (
                store-stays agent.commands r result n h k
                  (fresh_id sends clock action command_id agent e)),
            ap (λ c. c.capacity) stored ∙ store-capacity agent.commands result,
          )
      | inr (answer, e) ↦ rw e (
        record {
          older_ones = k.older_ones;
          newer_ones = k.newer_ones;
          held = k.held;
          few = omega (arith, k.few);
          first = k.first;
          ordered = k.ordered;
        },
        refl,
      )
    ]

stays :
    (n m : ℕ) (agent after : Agent) (r : CommandResult)
    → Between m agent after
    → n + m < agent.commands.capacity
    → IsRecent n r agent.commands
    → IsRecent (n + m) r after.commands
stays n _ agent _ r (done _) h k = subst (λ i. IsRecent i r agent.commands) (omega arith) k
stays n _ agent after r (command m sends clock action id _ _ rest) h k =
    let next : Agent = (execute sends clock action id agent).0 in
    let (recent, same) = execute-IsRecent sends clock action id agent r n (omega (arith, h)) k in
    subst (λ i. IsRecent i r after.commands) (omega arith)
      (stays (suc n) m next after r rest (omega (arith, h, same)) recent)
stays n _ agent after r (apart m _ next _ same rest) h k =
    stays n m next after r rest (omega (arith, h, ap (λ c. c.capacity) same))
      (subst (IsRecent n r) (sym same) k)

-- A command whose identifier is not in the cache is executed. Then other commands come, fewer than
-- the cache has places, and anything else that does not touch the cache. When the first command
-- arrives again with the same identifier, even as another action and even when the wire has changed
-- its mind, it does nothing: the Agent stays as it is, nothing is sent, and the answer is that of the
-- first time, marked as replayed.
pub execute_later_replays :
    (sends again : Bool) (clock later : Clock) (action other : CallAction) (command_id : Str)
    (agent after : Agent) (n : ℕ)
    → get agent.commands command_id ≡ none
    → IsOrdered agent.commands
    → n < agent.commands.capacity
    → Between n (execute sends clock action command_id agent).0 after
    → execute again later other command_id after ≡ (
      after,
      ([], record ((execute sends clock action command_id agent).1.1) { replayed = true }),
    )
unfolding execute
execute_later_replays sends again clock later action other command_id agent after n new ordered h
      rest =
    let result = (perform sends clock action command_id agent).1.1 in
    let (stored, named) = perform-stores sends clock action command_id agent in
    let same : (execute sends clock action command_id agent)
        ≡ perform sends clock action command_id agent =
      rw new refl in
    let start : Between n (perform sends clock action command_id agent).0 after =
      subst (λ o. Between n o.0 after) same rest in
    let first : IsRecent 0 result (perform sends clock action command_id agent).0.commands =
      subst (IsRecent 0 result) (sym stored) (
        store-IsRecent agent.commands result (omega (arith, h)) ordered
          (fresh_id sends clock action command_id agent new)) in
    let capacity : (perform sends clock action command_id agent).0.commands.capacity
        ≡ agent.commands.capacity =
      ap (λ c. c.capacity) stored ∙ store-capacity agent.commands result in
    let kept : IsRecent n result after.commands =
      subst (λ i. IsRecent i result after.commands) (omega arith)
        (stays 0 n (perform sends clock action command_id agent).0 after result start
          (omega (arith, h, capacity)) first) in
    let found : get after.commands command_id ≡ some (record result { replayed = true }) =
      subst (λ id. get after.commands id ≡ some (record result { replayed = true })) named
        (get-IsRecent after.commands result n kept) in
    rw (found, new) refl
