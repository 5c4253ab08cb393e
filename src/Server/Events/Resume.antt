-- ===== src/Server/Events/Resume.antt =====
-- agent_server.rs and agent_api.rs: what a client that reconnects is sent, from the event log.
use michoi.Common.{
  map, [], ◌∷◌, ◌∙◌, arith, ap, List, ℕ, ◌+◌, ◌-◌, ◌^◌, ◌<◌, some, ◌++◌, ◌≡◌, refl, inl, inr,
  length, drop, leb, if◌then◌else◌, Bool-cases,
}
use michoi.Common.Bytes.{Str, ascii}
use michoi.Common.Text.{decimal}
use michoi.Api.{CallState, Event, snapshot, event_name}
use michoi.Api.Control.{AgentApi}
use michoi.Server.Events.Number.{parse-decimal}
use michoi.EventLog.{EventLog, recent}
use michoi.EventLog.Refine.{IsHistory, recent_lem}
use michoi.Server.{Request, header}
use michoi.Server.Events.{
  initial, or_resumed, messages_of, snapshot_message, last_event_id, sse_message,
}

-- One event as the text of Server-Sent Events: its number, its name, its JSON text, an empty line.
abbrev pub event_text : (Event → Str) → Event → Str
event_text to_json event =
    ascii "id: "
    ++ (decimal event.seq
        ++ (10
            ∷ (ascii "event: "
                ++ (event_name event.kind
                    ++ (10 ∷ (ascii "data: " ++ (to_json event ++ (10 ∷ 10 ∷ []))))))))

-- The texts of several events, one behind the other; `fold` is over all of them.
abbrev pub all_texts : (Event → Str) → List Event → Str
all_texts to_json events = fold (map (event_text to_json) events)
  where
    fold : List Str → Str
    fold [] = []
    fold (t ∷ ts) = t ++ fold ts

-- What stands for an empty resumption.
abbrev pub some_sign : Str → Str
some_sign [] = ascii ": resumed" ++ (10 ∷ 10 ∷ [])
some_sign (x ∷ xs) = x ∷ xs

-- One snapshot of the state, with the number 0.
abbrev pub snapshot_text : (Event → Str) → ℕ → CallState → Str
snapshot_text to_json now_ms state =
    event_text to_json (record { seq = 0; at_ms = now_ms; kind = snapshot state })

messages_lem :
    (to_json : Event → Str) (events : List Event)
    → messages_of to_json events ≡ all_texts to_json events
unfolding sse_message
messages_lem to_json [] = refl
messages_lem to_json (e ∷ es) = ap (λ t. event_text to_json e ++ t) (messages_lem to_json es)

or_resumed_lem : (to_json : Event → Str) (text : Str) → or_resumed to_json text ≡ some_sign text
or_resumed_lem to_json [] = refl
or_resumed_lem to_json (x ∷ xs) = refl

snapshot_lem :
    (to_json : Event → Str) (now_ms : ℕ) (state : CallState)
    → snapshot_message to_json now_ms state ≡ snapshot_text to_json now_ms state
unfolding sse_message event_name
snapshot_lem to_json now_ms state = refl

-- The Agent answers from an event log whose history `live` is all that was ever sent. A client that
-- reconnects and gives the number of the last event that it saw, `after`, in decimal, is sent first:
-- the number, name and JSON text of each later event of the history and of no other, in their order,
-- or a sign of life when there are none (a number beyond the history included), if the log still
-- holds the next one; and else one snapshot of the state.
pub initial-resumed :
    {S : Type 0} (to_json : Event → Str) (api : AgentApi S) (now_ms : ℕ) (request : Request) (s : S)
    (log : EventLog) (after : ℕ)
    → api.recent s ≡ recent log
    → 0 < log.capacity
    → after + 1 < 2 ^ 64
    → IsHistory log
    → header (ascii "last-event-id") request ≡ some (decimal after)
    → initial to_json api now_ms request s
      ≡ (if leb (length log.live - log.capacity) after
          then some_sign (all_texts to_json (drop after log.live))
          else snapshot_text to_json now_ms (api.state s))
        ++ (ascii "retry: 1000" ++ (10 ∷ 10 ∷ []))
unfolding initial
initial-resumed to_json api now_ms request s log after same c b h shown =
    let named : last_event_id to_json (header (ascii "last-event-id") request) ≡ some after =
      ap (last_event_id to_json) shown ∙ parse-decimal after (omega (arith, b)) in
    let later : List Event = drop after log.live in
    let texts : or_resumed to_json (messages_of to_json later)
        ≡ some_sign (all_texts to_json later) =
      or_resumed_lem to_json (messages_of to_json later)
      ∙ ap some_sign (messages_lem to_json later) in
    elim (Bool-cases (leb (length log.live - log.capacity) after)) [
      | inl held ↦
          rw (named, same, recent_lem log after c b h, held)
            (ap (λ t. t ++ (ascii "retry: 1000" ++ (10 ∷ 10 ∷ []))) texts)
      | inr gone ↦
          rw (named, same, recent_lem log after c b h, gone)
            (ap (λ t. t ++ (ascii "retry: 1000" ++ (10 ∷ 10 ∷ [])))
              (snapshot_lem to_json now_ms (api.state s)))
    ]
