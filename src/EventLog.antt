-- ===== src/EventLog.antt =====
-- agent_api.rs: `EventLog`, the ring of numbered events with a live feed.
-- `live` is the broadcast channel, as the list of what has been sent into it, oldest first. The
-- wall clock is an argument.
pub mod Refine
use michoi.Common.{
  ℕ, ◌+◌, ◌-◌, List, [], ◌∷◌, ◌++◌, Option, none, some, ltb, leb, ◌==◌, if◌then◌else◌,
}
use michoi.Common.{length, head?, tail, keep}
use michoi.Call.{add_one64}
use michoi.Api.{EventKind, Event}

pub record EventLog : Type 0 where
  pub events : List Event
  pub next_seq : ℕ
  pub live : List Event
  pub capacity : ℕ

unfoldable pub new : ℕ → EventLog
new capacity = record { events = []; next_seq = 1; live = []; capacity = capacity }

abbrev event_of : EventLog → ℕ → EventKind → Event
event_of log now_ms kind = record { seq = log.next_seq; at_ms = now_ms; kind = kind }

unfoldable pub push : EventLog → ℕ → EventKind → EventLog × Event
push log now_ms kind =
    let event = event_of log now_ms kind in
    let kept = if length log.events == log.capacity then tail log.events else log.events in
    (
      record log {
        events = kept ++ (event ∷ []);
        next_seq = add_one64 log.next_seq;
        live = log.live ++ (event ∷ []);
      },
      event,
    )

unfoldable pub last_seq : EventLog → ℕ
last_seq log = log.next_seq - 1

-- The `match oldest` of `recent`.
abbrev since_oldest : Option Event → ℕ → List Event → Option (List Event)
since_oldest none after events = none
since_oldest (some oldest) after events =
    if leb oldest.seq (add_one64 after) then some (keep (λ e. ltb after e.seq) events) else none

unfoldable pub recent : EventLog → ℕ → Option (List Event)
recent log after =
    if leb log.next_seq (add_one64 after)
    then some []
    else since_oldest (head? log.events) after log.events
