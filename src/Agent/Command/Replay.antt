-- ===== src/Agent/Command/Replay.antt =====
-- agent.rs: a command that is sent again with the same identifier is answered from the cache.
use michoi.Common.{Bool, true, false, Option, none, some, [], ◌≡◌, refl, ap, sym, ◌∙◌, inl, inr}
use mathlib.Core.Option.{some-injective}
use michoi.Common.{ok, err, Option-cases, lookup-insert_self, str_key, lookup}
use michoi.Common.Bytes.{Str}
use michoi.Api.{CallAction, CommandResult, rejected, succeeded}
use michoi.CommandCache.{CommandCache, get, store, as_replayed, make_room}
use michoi.Agent.{Agent, Clock, peers_endpoints, session_string}
use michoi.Agent.Command.{Built, Outcome, build, deliver, remember, perform, execute}

get-store :
    (c : CommandCache) (r : CommandResult)
    → get (store c r) r.command_id ≡ some (record r { replayed = true })
unfolding get store
get-store c r = ap as_replayed (lookup-insert_self r.command_id r (make_room c).0)

pub deliver-command_id :
    (sends : Bool) (clock : Clock) (action : CallAction) (command_id : Str) (agent : Agent)
    (b : Built)
    → (deliver sends clock action command_id agent b).1.1.command_id ≡ command_id
unfolding rejected succeeded
deliver-command_id sends clock action command_id agent (err error) = refl
deliver-command_id true clock action command_id agent (ok (event, raw)) = refl
deliver-command_id false clock action command_id agent (ok (event, raw)) = refl

get-remember :
    (o : Outcome) (command_id : Str)
    → o.1.1.command_id ≡ command_id
    → get (remember o).0.commands command_id ≡ some (record ((remember o).1.1) { replayed = true })
get-remember (agent, (effects, r)) command_id h =
    ap (λ id. get (store agent.commands r) id) (sym h) ∙ get-store agent.commands r

get-perform :
    (sends : Bool) (clock : Clock) (action : CallAction) (command_id : Str) (agent : Agent)
    → get (perform sends clock action command_id agent).0.commands command_id
      ≡ some (record ((perform sends clock action command_id agent).1.1) { replayed = true })
unfolding perform
get-perform sends clock action command_id agent =
    let built =
      build clock action (session_string agent) (peers_endpoints agent.peers) agent.call in
    get-remember (deliver sends clock action command_id (record agent { call = built.0 }) built.1)
      command_id
      (deliver-command_id sends clock action command_id (record agent { call = built.0 }) built.1)

as_replayed_twice : (o : Option CommandResult) → as_replayed (as_replayed o) ≡ as_replayed o
as_replayed_twice none = refl
as_replayed_twice (some r) = refl

get-replayed :
    (c : CommandCache) (command_id : Str) (r : CommandResult)
    → get c command_id ≡ some r
    → r ≡ record r { replayed = true }
unfolding get
get-replayed c command_id r h =
    some-injective r (record r { replayed = true })
      (sym h ∙ sym (as_replayed_twice (lookup command_id c.results)) ∙ ap as_replayed h)

-- A command that arrives again with the same identifier, even as another action and even when the
-- wire has changed its mind, does nothing: the Agent stays as the first one left it, nothing is
-- sent, and the answer is that of the first one, marked as replayed.
pub execute_replays :
    (sends again : Bool) (clock later : Clock) (action other : CallAction) (command_id : Str)
    (agent : Agent)
    → execute again later other command_id (execute sends clock action command_id agent).0 ≡ (
      (execute sends clock action command_id agent).0,
      ([], record ((execute sends clock action command_id agent).1.1) { replayed = true }),
    )
unfolding execute
execute_replays sends again clock later action other command_id agent =
    elim (Option-cases (get agent.commands command_id)) [
      | inl e ↦ rw (e, get-perform sends clock action command_id agent) refl
      | inr (r, e) ↦
          rw (e, e) (ap (λ x. (agent, ([], x))) (get-replayed agent.commands command_id r e))
    ]
