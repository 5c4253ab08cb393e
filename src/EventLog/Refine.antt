-- ===== src/EventLog/Refine.antt =====
-- agent_api.rs: the event ring against the whole history of events.
use mathlib.Core.Path.{subst}
use native.Mathlib.Decide.{dec_lt}
use michoi.Common.{inl, inr, Bool-cases, drop_nil, drop_all, drop-drop, tail-drop, drop-append_le}
use michoi.Common.{
  ℕ, zero, suc, ◌+◌, ◌-◌, ◌<◌, ◌^◌, List, [], ◌∷◌, ◌++◌, none, some, ltb, leb, ◌==◌, if◌then◌else◌,
}
use michoi.Common.{
  length, head?, tail, keep, drop, length-append, length-drop, ◌≡◌, refl, sym, ◌∙◌, ap, arith, true,
  false,
}
use michoi.Call.{add_one64}
use michoi.Api.{EventKind, Event}
use michoi.EventLog.{EventLog, new, event_of, push, since_oldest, recent}

-- The events are numbered one by one from `k` on.
abbrev pub NumberedFrom : ℕ → List Event → Type 0
NumberedFrom k [] = Unit {0}
NumberedFrom k (e ∷ es) = (e.seq ≡ k) × NumberedFrom (k + 1) es

NumberedFrom-append :
    (k : ℕ) (es : List Event) (e : Event)
    → NumberedFrom k es
    → e.seq ≡ k + length es
    → NumberedFrom k (es ++ (e ∷ []))
NumberedFrom-append k [] e h p = (omega arith, tt)
NumberedFrom-append k (x ∷ es) e h p = (h.0, NumberedFrom-append (k + 1) es e h.1 (omega arith))

NumberedFrom-drop :
    (d k : ℕ) (es : List Event) → NumberedFrom k es → NumberedFrom (k + d) (drop d es)
NumberedFrom-drop zero k es h = subst (λ j. NumberedFrom j es) (omega arith) h
NumberedFrom-drop (suc d) k [] h = tt
NumberedFrom-drop (suc d) k (e ∷ es) h =
    subst (λ j. NumberedFrom j (drop d es)) (omega arith) (NumberedFrom-drop d (k + 1) es h.1)

-- Numbered events later than `after` are those behind the first ones.
keep_later :
    (after : ℕ) (es : List Event) (k : ℕ)
    → NumberedFrom k es
    → keep (λ e. ltb after e.seq) es ≡ drop (after + 1 - k) es
keep_later after [] k h = sym (drop_nil (after + 1 - k))
keep_later after (e ∷ es) k h = elim (Bool-cases (ltb after e.seq)) [
  | inl later ↦ rw later (
      let none_dropped : after + 1 - k ≡ 0 = ground (arith, h.0) in
      let so_none : after + 1 - (k + 1) ≡ 0 = omega arith in
      rw (none_dropped, keep_later after es (k + 1) h.1, so_none))
  | inr sooner ↦ rw sooner (
      let one_more : after + 1 - k ≡ suc (after + 1 - (k + 1)) = ground (arith, h.0) in
      rw one_more (keep_later after es (k + 1) h.1))
]

head?-NumberedFrom :
    (k d : ℕ) (es : List Event)
    → NumberedFrom k es
    → d < length es
    → (e : Event) × (head? (drop d es) ≡ some e) × (e.seq ≡ k + d)
head?-NumberedFrom k d [] h l = absurd (omega arith)
head?-NumberedFrom k zero (e ∷ es) h l = (e, refl, omega arith)
head?-NumberedFrom k (suc d) (e ∷ es) h l =
    let (x, p, q) = head?-NumberedFrom (k + 1) d es h.1 (omega arith) in (x, p, omega arith)

-- What the ring knows: the whole history is numbered from 1, and it holds its last `capacity`.
pub record IsHistory (log : EventLog) : Type 0 where
  pub numbered : NumberedFrom 1 log.live
  pub counted : log.next_seq ≡ length log.live + 1
  pub kept : log.events ≡ drop (length log.live - log.capacity) log.live

pub new-IsHistory : (capacity : ℕ) → IsHistory (new capacity)
unfolding new
new-IsHistory capacity = record {
  numbered = tt;
  counted = omega arith;
  kept = rw (drop_nil (0 - capacity));
}

kept-push :
    (capacity : ℕ) (live : List Event) (e : Event)
    → 0 < capacity
    → let events = drop (length live - capacity) live in
      (if length events == capacity then tail events else events) ++ (e ∷ [])
      ≡ drop (length (live ++ (e ∷ [])) - capacity) (live ++ (e ∷ []))
kept-push capacity live e h = elim (dec_lt (length live) capacity) [
  | yes few ↦
      let all : length live - capacity ≡ 0 = omega arith in
      let still : length (live ++ (e ∷ [])) - capacity ≡ 0 =
        omega (arith, length-append live (e ∷ [])) in
      let room : (length live == capacity) ≡ false = ground arith in rw (all, still, room)
  | no full ↦
      let d : ℕ = length live - capacity in
      let room : (length (drop d live) == capacity) ≡ true = ground (arith, length-drop d live) in
      let one_more : length (live ++ (e ∷ [])) - capacity ≡ suc d =
        omega (arith, length-append live (e ∷ [])) in
      rw (room, one_more, tail-drop d live)
        (sym (drop-append_le (suc d) live (e ∷ []) (omega arith)))
]

-- A push keeps the ring a window on the whole history: the new event takes the next number, joins
-- the history and the live feed, and only the oldest event of a full ring is dropped. The ring has
-- room for an event at least, and the numbers are not used up.
pub push-IsHistory :
    (log : EventLog) (now_ms : ℕ) (kind : EventKind)
    → 0 < log.capacity
    → log.next_seq + 1 < 2 ^ 64
    → IsHistory log
    → IsHistory (push log now_ms kind).0
unfolding push
push-IsHistory log now_ms kind c b h =
    let e = event_of log now_ms kind in
    record {
      numbered = NumberedFrom-append 1 log.live e h.numbered (omega (arith, h.counted));
      counted = omega (arith, length-append log.live (e ∷ []), h.counted);
      kept = rw h.kept (kept-push log.capacity log.live e c);
    }

since_oldest-drop :
    (live : List Event) (d after : ℕ)
    → NumberedFrom 1 live
    → d < length live
    → after + 1 < 2 ^ 64
    → since_oldest (head? (drop d live)) after (drop d live)
      ≡ (if leb d after then some (drop after live) else none)
since_oldest-drop live d after h l b =
    let (e, first, at) = head?-NumberedFrom 1 d live h l in
    elim (dec_lt after d) [
      | yes gap ↦
          let lost : leb e.seq (add_one64 after) ≡ false = ground (arith, at) in
          let lost' : leb d after ≡ false = ground arith in rw (first, lost, lost')
      | no whole ↦
          let held : leb e.seq (add_one64 after) ≡ true = ground (arith, at) in
          let held' : leb d after ≡ true = ground arith in
          let rest : after + 1 - (1 + d) + d ≡ after = omega arith in
          rw (first, held, held')
            (ap some (
              keep_later after (drop d live) (1 + d) (NumberedFrom-drop d 1 live h)
              ∙ drop-drop (after + 1 - (1 + d)) d live
              ∙ ap (λ n. drop n live) rest))
    ]

-- `recent` answers from the history itself: with every event after the first `after` of them if none
-- of those has been dropped from the ring, and with `none` exactly if one has.
pub recent_lem :
    (log : EventLog) (after : ℕ)
    → 0 < log.capacity
    → after + 1 < 2 ^ 64
    → IsHistory log
    → recent log after
      ≡ (if leb (length log.live - log.capacity) after then some (drop after log.live) else none)
unfolding recent
recent_lem log after c b h = elim (dec_lt after (length log.live)) [
  | yes more ↦
      let behind : leb log.next_seq (add_one64 after) ≡ false = ground (arith, h.counted) in
      rw (behind, h.kept)
        (since_oldest-drop log.live (length log.live - log.capacity) after h.numbered (omega arith)
          b)
  | no caught ↦
      let current : leb log.next_seq (add_one64 after) ≡ true = ground (arith, h.counted) in
      let held : leb (length log.live - log.capacity) after ≡ true = ground arith in
      rw (current, held, drop_all log.live after (omega arith))
]
