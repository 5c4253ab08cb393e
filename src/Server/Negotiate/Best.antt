-- ===== src/Server/Negotiate/Best.antt =====
-- agent_server.rs: the type that a negotiation picks.
use michoi.Common.{
  Bool, true, false, Option, none, some, List, [], ◌∷◌, ◌≡◌, refl, ap, sym, ◌∙◌, ◌⊎◌, inl, inr, All,
  Any, Bool-cases, Option-cases, if-cases,
}
use mathlib.Core.Bool.{false≢true}
use michoi.Common.Bytes.{Str}
use michoi.Common.Text.{split}
use michoi.Server.Negotiate.Match.{
  Matches, asked_type, asked_quality, IsAsked, accepts-Matches, Matches-accepts, candidates-Any,
  candidates-All,
}
use michoi.Server.Negotiate.{
  Quality, candidates, insert_by_quality, sort_by_quality, accepts, first_match, pick, negotiate,
}

is_some : Option Str → Bool
is_some none = false
is_some (some _) = true

none≢some : (t : Str) → none ≡ some t → ⊥
unfolding is_some
none≢some t h = false≢true (ap is_some h)

-- What is asked of the order of the quality values.
pub record IsOrder (quality : Quality) : Type 0 where
  pub asymmetric : (q r : quality.Q) → quality.is_above q r ≡ true → quality.is_above r q ≡ false
  pub transitive :
      (q r s : quality.Q)
      → quality.is_above r q ≡ false
      → quality.is_above s r ≡ false
      → quality.is_above s q ≡ false

-- An offer of the server that the client accepts under the type `wanted`.
pub first_match-some :
    (wanted : Str) (offered : List Str) (t : Str)
    → first_match wanted offered ≡ some t
    → Any (λ offer. offer ≡ t) offered × (accepts wanted t ≡ true)
first_match-some wanted [] t h = absurd (none≢some t h)
first_match-some wanted (offer ∷ rest) t h = elim (if-cases (accepts wanted offer) _ _ _ h) [
  | inl (yes_it, e) ↦ (inl (some-value e), ap (accepts wanted) (sym (some-value e)) ∙ yes_it)
  | inr (_, e) ↦ let (found, accepted) = first_match-some wanted rest t e in (inr found, accepted)
]
  where
    value : Option Str → Str
    value none = offer
    value (some x) = x

    some-value : some offer ≡ some t → offer ≡ t
    some-value e = ap value e

unmatched :
    (wanted : Str) (offered : List Str)
    → first_match wanted offered ≡ none
    → Any (Matches wanted) offered
    → ⊥
unmatched wanted [] h found = found
unmatched wanted (offer ∷ rest) h found = elim (if-cases (accepts wanted offer) _ _ _ h) [
  | inl (_, e) ↦ none≢some offer (sym e)
  | inr (other, e) ↦ elim found [
    | inl m ↦ false≢true (sym other ∙ Matches-accepts wanted offer m)
    | inr later ↦ unmatched wanted rest e later
  ]
]

module _ (quality : Quality) (order : IsOrder quality) where
  abbrev Candidate : Type 0
  Candidate = quality.Q × Str

  -- No candidate that matches an offer is above `q`.
  abbrev pub IsBeaten : List Str → quality.Q → Candidate → Type 0
  IsBeaten offered q (r, wanted) =
      (first_match wanted offered ≡ none) ⊎ (quality.is_above r q ≡ false)

  -- A sorted list: nothing behind an element is above it.
  abbrev Sorted : List Candidate → Type 0
  Sorted [] = Unit {0}
  Sorted ((q, wanted) ∷ rest) = All (λ c. quality.is_above c.0 q ≡ false) rest × Sorted rest

  irreflexive : (q : quality.Q) → quality.is_above q q ≡ false
  irreflexive q = elim (Bool-cases (quality.is_above q q)) [
    | inl e ↦ order.asymmetric q q e
    | inr e ↦ e
  ]

  All-insert :
      (P : Candidate → Type 0) (c : Candidate) (cs : List Candidate)
      → (All P (insert_by_quality quality c cs) → P c × All P cs)
        × (P c → All P cs → All P (insert_by_quality quality c cs))
  unfolding insert_by_quality
  All-insert P c [] = ((λ h. (h.0, tt)), (λ p _. (p, tt)))
  All-insert P (q, wanted) ((r, other) ∷ rest) = elim (Bool-cases (quality.is_above r q)) [
    | inl above ↦
        let (back, forth) = All-insert P (q, wanted) rest in
        rw above ((λ h. ((back h.1).0, (h.0, (back h.1).1))), (λ p h. (h.0, forth p h.1)))
    | inr below ↦ rw below ((λ h. (h.0, h.1)), (λ p h. (p, h)))
  ]

  Any-insert :
      (P : Candidate → Type 0) (c : Candidate) (cs : List Candidate)
      → Any P (insert_by_quality quality c cs)
      → P c ⊎ Any P cs
  unfolding insert_by_quality
  Any-insert P c [] = λ h. h
  Any-insert P (q, wanted) ((r, other) ∷ rest) =
      let again = Any-insert P (q, wanted) rest in
      elim (Bool-cases (quality.is_above r q)) [
        | inl above ↦ rw above (λ h. swap _ _ _ _ again h)
        | inr below ↦ rw below (λ h. h)
      ]
    where
      swap : (A B C D : Type 0) → (B → C ⊎ D) → A ⊎ B → C ⊎ (A ⊎ D)
      swap A B C D f (inl a) = inr (inl a)
      swap A B C D f (inr b) = elim (f b) [ inl c ↦ inl c | inr d ↦ inr (inr d) ]

  All-weaken :
      (P R : Candidate → Type 0) (cs : List Candidate)
      → ((c : Candidate) → P c → R c)
      → All P cs
      → All R cs
  All-weaken P R [] f h = tt
  All-weaken P R (c ∷ cs) f h = (f c h.0, All-weaken P R cs f h.1)

  insert-Sorted :
      (c : Candidate) (cs : List Candidate) → Sorted cs → Sorted (insert_by_quality quality c cs)
  unfolding insert_by_quality
  insert-Sorted c [] h = (tt, tt)
  insert-Sorted (q, wanted) ((r, other) ∷ rest) h = elim (Bool-cases (quality.is_above r q)) [
    | inl above ↦ rw above (
      (All-insert (λ c. quality.is_above c.0 r ≡ false) (q, wanted) rest).1
          (order.asymmetric r q above) h.0,
      insert-Sorted (q, wanted) rest h.1,
    )
    | inr below ↦
        rw below ((below, All-weaken _ _ rest (λ c k. order.transitive q r c.0 below k) h.0), h)
  ]

  sort-Sorted : (cs : List Candidate) → Sorted (sort_by_quality quality cs)
  unfolding sort_by_quality
  sort-Sorted [] = tt
  sort-Sorted (c ∷ cs) = insert-Sorted c (sort_by_quality quality cs) (sort-Sorted cs)

  All-sort :
      (P : Candidate → Type 0) (cs : List Candidate) → All P (sort_by_quality quality cs) → All P cs
  unfolding sort_by_quality
  All-sort P [] h = tt
  All-sort P (c ∷ cs) h =
      let (p, rest) = (All-insert P c (sort_by_quality quality cs)).0 h in (p, All-sort P cs rest)

  Any-sort :
      (P : Candidate → Type 0) (cs : List Candidate) → Any P (sort_by_quality quality cs) → Any P cs
  unfolding sort_by_quality
  Any-sort P [] h = h
  Any-sort P (c ∷ cs) h =
      let again = Any-sort P cs in
      elim (Any-insert P c (sort_by_quality quality cs) h) [ inl p ↦ inl p | inr k ↦ inr (again k) ]

  -- The candidate that gave the offer `t`.
  abbrev pub Chosen : List Str → Str → List Candidate → Type 0
  Chosen offered t cs =
      (q : quality.Q) × (Any (λ c. (c.0 ≡ q) × (accepts c.1 t ≡ true)) cs
        × All (IsBeaten offered q) cs)

  pick-some :
      (cs : List Candidate) (offered : List Str) (t : Str)
      → Sorted cs
      → pick quality cs offered ≡ some t
      → Any (λ offer. offer ≡ t) offered × Chosen offered t cs
  unfolding pick
  pick-some [] offered t s h = absurd (none≢some t h)
  pick-some ((q, wanted) ∷ rest) offered t s h = elim (Option-cases (first_match wanted offered)) [
    | inl nothing ↦
        let next : pick quality rest offered ≡ some t = sym (rw nothing refl) ∙ h in
        let (found, (r, (chosen, beaten))) = pick-some rest offered t s.1 next in
        (found, (r, (inr chosen, (inl nothing, beaten))))
    | inr (offer, e) ↦
        let same : some offer ≡ some t = sym (rw e refl) ∙ h in
        let (found, accepted) = first_match-some wanted offered t (e ∙ same) in
        (
          found,
          (
            q,
            (inl (refl, accepted), (inr (irreflexive q), All-weaken _ _ rest (λ c k. inr k) s.0)),
          ),
        )
  ]

  pick-none :
      (cs : List Candidate) (offered : List Str)
      → pick quality cs offered ≡ none
      → All (λ c. first_match c.1 offered ≡ none) cs
  unfolding pick
  pick-none [] offered h = tt
  pick-none ((q, wanted) ∷ rest) offered h = elim (Option-cases (first_match wanted offered)) [
    | inl nothing ↦ (nothing, pick-none rest offered (sym (rw nothing refl) ∙ h))
    | inr (offer, e) ↦ absurd (none≢some offer (sym h ∙ rw e refl))
  ]

  -- The answer to an Accept header. A type that is picked is offered, and matches an item of the
  -- header that asks for something; no other such item that matches any offer has a greater quality.
  -- When none is picked, no item that asks for something matches any offer.
  abbrev pub IsAnswer : Str → List Str → Option Str → Type 0
  IsAnswer accept offered (some t) =
      Any (λ offer. offer ≡ t) offered
      × ((item : Str) × Any (λ i. i ≡ item) (split b',' accept)
          × IsAsked quality item
          × Matches (asked_type item) t
          × All
              (λ other.
                IsAsked quality other
                → Any (Matches (asked_type other)) offered
                → quality.is_above (asked_quality quality other) (asked_quality quality item)
                  ≡ false)
              (split b',' accept))
  IsAnswer accept offered none =
      All (λ item. IsAsked quality item → Any (Matches (asked_type item)) offered → ⊥)
        (split b',' accept)

  All-items :
      (P R : Str → Type 0) (items : List Str)
      → ((item : Str) → P item → R item)
      → All P items
      → All R items
  All-items P R [] f h = tt
  All-items P R (i ∷ is) f (p, h) = (f i p, All-items P R is f h)

  negotiated :
      (accept : Str) (offered : List Str) (o : Option Str)
      → pick quality (sort_by_quality quality (candidates quality (split b',' accept))) offered ≡ o
      → IsAnswer accept offered o
  negotiated accept offered none h =
      let cs : List Candidate = candidates quality (split b',' accept) in
      let nothing =
        All-sort (λ c. first_match c.1 offered ≡ none) cs
          (pick-none (sort_by_quality quality cs) offered h) in
      All-items _ _ (split b',' accept)
        (λ item p asked found. unmatched (asked_type item) offered (p asked) found)
        (candidates-All quality (λ c. first_match c.1 offered ≡ none) (split b',' accept) nothing)
  negotiated accept offered (some t) h =
      let cs : List Candidate = candidates quality (split b',' accept) in
      let (found, (q, (chosen, beaten))) =
        pick-some (sort_by_quality quality cs) offered t (sort-Sorted cs) h in
      let (item, among, asked, (same, accepted)) =
        candidates-Any quality (λ c. (c.0 ≡ q) × (accepts c.1 t ≡ true)) (split b',' accept)
          (Any-sort _ cs chosen) in
      (
        found,
        (
          item,
          among,
          asked,
          accepts-Matches (asked_type item) t accepted,
          All-items _ _ (split b',' accept)
              (λ other p wants matched. below other item q same matched (p wants))
              (candidates-All quality (IsBeaten offered q) (split b',' accept)
                (All-sort (IsBeaten offered q) cs beaten)),
        ),
      )
    where
      below :
          (other item : Str) (q : quality.Q)
          → asked_quality quality item ≡ q
          → Any (Matches (asked_type other)) offered
          → IsBeaten offered q (asked_quality quality other, asked_type other)
          → quality.is_above (asked_quality quality other) (asked_quality quality item) ≡ false
      below other item q same matched (inl nothing) =
          absurd (unmatched (asked_type other) offered nothing matched)
      below other item q same matched (inr lower) =
          ap (quality.is_above (asked_quality quality other)) same ∙ lower

  -- Any Accept header and any offers, with quality values that are ordered: the answer is the best
  -- match, and there is none only if nothing matches.
  pub negotiate_lem :
      (accept : Str) (offered : List Str)
      → IsAnswer accept offered (negotiate quality (some accept) offered)
  unfolding negotiate
  negotiate_lem accept offered =
      negotiated accept offered
        (pick quality (sort_by_quality quality (candidates quality (split b',' accept))) offered)
        refl
