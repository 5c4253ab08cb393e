-- ===== src/Protocol/Split/Total.antt =====
-- protocol.rs: the splitting loop ends on every datagram, and cuts whole messages out of it.
use michoi.Common.{
  ℕ, zero, suc, ◌≤◌, ◌<◌, Option, some, List, [], ◌∷◌, ◌++◌, ◌≡◌, refl, sym, ap, ◌∙◌, arith, inl,
  inr, Bool-cases, Option-cases, Result, ok, err,
}
use michoi.Common.{
  length, drop, take, leb, length-append, length-take, length-drop, take-append-drop, All, str_eq,
  str_eq→eq,
}
use michoi.Protocol.{Message, ProtocolError, magic, parse_message}
use michoi.Protocol.Split.{
  logical_size, size_of, told_size, find_magic, until_next, segment_size, skip_to_magic, cons_to,
  split_round, split_loop, split_coalesced,
}
use mathlib.Core.Path.{subst}

-- The messages stand in the datagram one behind the other, with gaps before them.
abbrev pub Inside : List (List ℕ) → List ℕ → Type 0
Inside [] payload = Unit {0}
Inside (p ∷ ps) payload =
    (gap : List ℕ) × (rest : List ℕ) × (gap ++ (p ++ rest) ≡ payload) × Inside ps rest

abbrev pub HasMagic : List ℕ → Type 0
HasMagic p = take 8 p ≡ magic

magic_long : (q : List ℕ) → HasMagic q → 8 ≤ length q
magic_long q h = omega (arith, length-take 8 q, ap length h)

take-take : (n k : ℕ) (xs : List ℕ) → n ≤ k → take n (take k xs) ≡ take n xs
take-take zero k xs h = refl
take-take (suc n) zero xs h = absurd (omega arith)
take-take (suc n) (suc k) [] h = refl
take-take (suc n) (suc k) (x ∷ xs) h = ap (λ t. x ∷ t) (take-take n k xs (omega arith))

pub find_magic-some :
    (xs : List ℕ) (p : ℕ) → find_magic xs ≡ some p → (p < length xs) × HasMagic (drop p xs)
unfolding find_magic
find_magic-some [] p h = cc
find_magic-some (x ∷ xs) p h = elim (Bool-cases (str_eq (take 8 (x ∷ xs)) magic)) [
  | inl here ↦
      let e : 0 ≡ p = ground (arith, here) in
      subst (λ k. (k < length (x ∷ xs)) × HasMagic (drop k (x ∷ xs))) e
        (omega arith, str_eq→eq (take 8 (x ∷ xs)) magic here)
  | inr later ↦ elim (Option-cases (find_magic xs)) [
    | inl nowhere ↦ cc (later, nowhere)
    | inr (j, there) ↦
        let e : suc j ≡ p = ground (arith, later, there) in
        let (inside, at) = find_magic-some xs j there in
        subst (λ k. (k < length (x ∷ xs)) × HasMagic (drop k (x ∷ xs))) e (omega arith, at)
  ]
]

told_size_big : (raw : List ℕ) (m : Message) (n : ℕ) → told_size raw m ≡ some n → 32 ≤ n
told_size_big raw m n h = ground arith

logical_size_big : (raw : List ℕ) (n : ℕ) → logical_size raw ≡ some n → 32 ≤ n
unfolding logical_size
logical_size_big raw n h = sized (parse_message raw) h
  where
    sized : (r : Result ProtocolError Message) → size_of raw r ≡ some n → 32 ≤ n
    sized (ok m) e = told_size_big raw m n e
    sized (err x) e = cc

until_next_lem :
    (q : List ℕ)
    → 8 ≤ length q
    → let size = until_next q (find_magic (drop 8 q)) in (8 ≤ size) × (size ≤ length q)
until_next_lem q h = elim (Option-cases (find_magic (drop 8 q))) [
  | inl last ↦ rw last (h, omega arith)
  | inr (p, more) ↦
      let at = find_magic-some (drop 8 q) p more in
      rw more (omega arith, omega (arith, at.0, length-drop 8 q))
]

-- Behind a magic the next message takes between eight bytes and all of them.
pub segment_size_lem :
    (q : List ℕ) → HasMagic q → (8 ≤ segment_size q) × (segment_size q ≤ length q)
unfolding segment_size
segment_size_lem q h = elim (Option-cases (logical_size q)) [
  | inl unknown ↦ rw unknown (until_next_lem q (magic_long q h))
  | inr (n, told) ↦ elim (Bool-cases (leb n (length q))) [
    | inl whole ↦ rw (told, whole) (omega (arith, logical_size_big q n told), ground arith)
    | inr short ↦ rw (told, short) (until_next_lem q (magic_long q h))
  ]
]

-- Skipping to the next magic drops a gap.
pub skip_to_magic-some :
    (payload q : List ℕ)
    → skip_to_magic payload ≡ some q
    → HasMagic q × ((gap : List ℕ) × (gap ++ q ≡ payload))
unfolding skip_to_magic
skip_to_magic-some payload q h = elim (Bool-cases (str_eq (take 8 payload) magic)) [
  | inl here ↦
      let e : payload ≡ q = ground (arith, here) in
      (subst HasMagic e (str_eq→eq (take 8 payload) magic here), ([], sym e))
  | inr later ↦ elim (Option-cases (find_magic payload)) [
    | inl nowhere ↦ absurd (ground (arith, later, nowhere))
    | inr (j, there) ↦
        let e : drop j payload ≡ q = ground (arith, later, there) in
        (
          subst HasMagic e (find_magic-some payload j there).1,
          (take j payload, ap (λ t. take j payload ++ t) (sym e) ∙ take-append-drop j payload),
        )
  ]
]

-- A round in which a magic is found cuts a message off and goes on behind it.
pub split_round-some :
    (again : List ℕ → Option (List (List ℕ))) (q : List ℕ)
    → HasMagic q
    → split_round again (some q)
      ≡ cons_to (take (segment_size q) q) (again (drop (segment_size q) q))
split_round-some again q h = ground (arith, segment_size_lem q h)

pub WellCut : List ℕ → Type 0
WellCut p = HasMagic p × (8 ≤ length p)

well_cut : (q : List ℕ) → HasMagic q → WellCut (take (segment_size q) q)
unfolding WellCut
well_cut q h =
    let (lo, hi) = segment_size_lem q h in
    (take-take 8 (segment_size q) q lo ∙ h, omega (arith, length-take (segment_size q) q))

split_loop_lem :
    (fuel : ℕ) (payload : List ℕ)
    → length payload ≤ fuel
    → (parts : List (List ℕ)) × (split_loop fuel payload ≡ some parts)
      × All WellCut parts
      × Inside parts payload
unfolding split_loop
split_loop_lem zero [] h = ([], refl, tt, tt)
split_loop_lem (suc fuel) [] h = ([], refl, tt, tt)
split_loop_lem zero (x ∷ xs) h = absurd (omega arith)
split_loop_lem (suc fuel) (x ∷ xs) h = elim (Option-cases (skip_to_magic (x ∷ xs))) [
  | inl nowhere ↦ ([], rw nowhere, tt, tt)
  | inr (q, found) ↦
      let (magical, (gap, cut)) = skip_to_magic-some (x ∷ xs) q found in
      let size : ℕ = segment_size q in
      let (lo, hi) = segment_size_lem q magical in
      let shorter : length (drop size q) ≤ fuel =
        omega (arith, length-drop size q, ap length cut, length-append gap q) in
      let (parts, e, cuts, inside) = split_loop_lem fuel (drop size q) shorter in
      (
        take size q ∷ parts,
        rw found (split_round-some (split_loop fuel) q magical ∙ ap (cons_to (take size q)) e),
        (well_cut q magical, cuts),
        (gap, drop size q, ap (λ t. gap ++ t) (take-append-drop size q) ∙ cut, inside),
      )
]

-- Splitting a datagram always ends. What it gives are messages: each begins with the magic and is at
-- least eight bytes long, and they stand in the datagram one behind the other, without overlap and
-- in that order.
pub split_coalesced_total :
    (payload : List ℕ)
    → (parts : List (List ℕ)) × (split_coalesced payload ≡ some parts)
      × All WellCut parts
      × Inside parts payload
unfolding split_coalesced
split_coalesced_total payload = split_loop_lem (length payload) payload (omega arith)
