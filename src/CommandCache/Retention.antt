-- ===== src/CommandCache/Retention.antt =====
-- agent_api.rs: what the command cache remembers of the results stored in it.
use michoi.Common.{lookup_absent}
use mathlib.Core.Path.{subst}
use mathlib.Core.List.{append-nil, append_assoc}
use michoi.CommandCache.{make_room}
use mathlib.Core.Bool.{false≢true}
use native.Mathlib.Decide.{dec_lt}
use michoi.Common.{
  ℕ, zero, suc, ◌-◌, ◌<◌, List, [], ◌∷◌, ◌++◌, none, some, ltb, leb, if◌then◌else◌, length, tail,
  drop, length-append, length-drop, ◌≡◌, refl, sym, ◌∙◌, ap, arith, true, false, inl, inr,
  Bool-cases, drop_nil, tail-drop, drop-append_le, lookup, insert, keys, member, str_key, str_eq,
  str_eq_iff, insert_fresh, remove_head,
}
use michoi.Common.Bytes.{Str}
use michoi.Api.{CommandResult}
use michoi.CommandCache.{CommandCache, new, as_replayed, get, store, evict_oldest}

abbrev pub entries : List CommandResult → List (Str × CommandResult)
entries [] = []
entries (r ∷ rs) = (r.command_id, r) ∷ entries rs

abbrev pub ids : List CommandResult → List Str
ids [] = []
ids (r ∷ rs) = r.command_id ∷ ids rs

abbrev pub store_all : CommandCache → List CommandResult → CommandCache
store_all c [] = c
store_all c (r ∷ rs) = store_all (store c r) rs

-- The cache holds the last `capacity` of the results stored, in their order.
pub record IsFifo (c : CommandCache) (rs : List CommandResult) : Type 0 where
  pub held : c.results ≡ drop (length rs - c.capacity) (entries rs)
  pub ordered : c.order ≡ keys c.results

length-entries : (rs : List CommandResult) → length (entries rs) ≡ length rs
length-entries [] = refl
length-entries (r ∷ rs) = ap suc (length-entries rs)

entries-append : (rs ss : List CommandResult) → entries (rs ++ ss) ≡ entries rs ++ entries ss
entries-append [] ss = refl
entries-append (r ∷ rs) ss = ap (λ t. (r.command_id, r) ∷ t) (entries-append rs ss)

pub keys-append :
    (m : List (Str × CommandResult)) (k : Str) (v : CommandResult)
    → keys (m ++ ((k, v) ∷ [])) ≡ keys m ++ (k ∷ [])
keys-append [] k v = refl
keys-append ((j, w) ∷ m) k v = ap (λ t. j ∷ t) (keys-append m k v)

member-drop :
    (k : Str) (n : ℕ) (rs : List CommandResult)
    → member k (ids rs) ≡ false
    → member k (keys (drop n (entries rs))) ≡ false
member-drop k zero [] h = refl
member-drop k zero (r ∷ rs) h = ground (arith, member-drop k zero rs)
member-drop k (suc n) [] h = refl
member-drop k (suc n) (r ∷ rs) h = member-drop k n rs (ground arith)

-- The entries before a store, the full cache's oldest one gone.
unfoldable pub room : ℕ → List (Str × CommandResult) → List (Str × CommandResult)
room capacity m = if leb capacity (length m) then tail m else m

room-window :
    (capacity : ℕ) (rs : List CommandResult) (r : CommandResult)
    → 0 < capacity
    → room capacity (drop (length rs - capacity) (entries rs)) ++ entries (r ∷ [])
      ≡ drop (length (rs ++ (r ∷ [])) - capacity) (entries (rs ++ (r ∷ [])))
unfolding room
room-window capacity rs r h = elim (dec_lt (length rs) capacity) [
  | yes few ↦
      let all : length rs - capacity ≡ 0 = omega arith in
      let still : length (rs ++ (r ∷ [])) - capacity ≡ 0 =
        omega (arith, length-append rs (r ∷ [])) in
      let fits : leb capacity (length (entries rs)) ≡ false = ground (arith, length-entries rs) in
      rw (all, still, fits) (sym (entries-append rs (r ∷ [])))
  | no full ↦
      let d : ℕ = length rs - capacity in
      let packed : leb capacity (length (drop d (entries rs))) ≡ true =
        ground (arith, length-drop d (entries rs), length-entries rs) in
      let one_more : length (rs ++ (r ∷ [])) - capacity ≡ suc d =
        omega (arith, length-append rs (r ∷ [])) in
      rw (packed, one_more, tail-drop d (entries rs), entries-append rs (r ∷ []))
        (sym (
          drop-append_le (suc d) (entries rs) (entries (r ∷ []))
            (omega (arith, length-entries rs))))
]

pub room_member :
    (k : Str) (capacity : ℕ) (m : List (Str × CommandResult))
    → member k (keys m) ≡ false
    → member k (keys (room capacity m)) ≡ false
unfolding room
room_member k capacity [] h = ground arith
room_member k capacity ((j, v) ∷ m) h = ground arith

-- The first half of `store`: a full cache forgets its oldest entry.
evict_room :
    (capacity : ℕ) (m : List (Str × CommandResult))
    → 0 < capacity
    → (if leb capacity (length m) then evict_oldest m (keys m) else (m, keys m))
      ≡ (room capacity m, keys (room capacity m))
unfolding room
evict_room capacity [] h = ground arith
evict_room capacity ((k, v) ∷ m) h = elim (Bool-cases (leb capacity (suc (length m)))) [
  | inl full ↦ rw full (ap (λ t. (t, keys m)) (remove_head k v m))
  | inr few ↦ rw few
]

pub make_room_lem :
    (c : CommandCache)
    → 0 < c.capacity
    → c.order ≡ keys c.results
    → make_room c ≡ (room c.capacity c.results, keys (room c.capacity c.results))
make_room_lem c h o =
    ap
      (λ order.
        if leb c.capacity (length c.results)
        then evict_oldest c.results order
        else (c.results, order))
      o
    ∙ evict_room c.capacity c.results h

-- Storing a result under a new identifier keeps the cache a queue of the latest results.
pub store-IsFifo :
    (c : CommandCache) (rs : List CommandResult) (r : CommandResult)
    → 0 < c.capacity
    → member r.command_id (ids rs) ≡ false
    → IsFifo c rs
    → IsFifo (store c r) (rs ++ (r ∷ []))
unfolding store
store-IsFifo c rs r h fresh f =
    let made = make_room_lem c h f.ordered in
    let m : List (Str × CommandResult) = room c.capacity c.results in
    let new_key : member r.command_id (keys m) ≡ false =
      room_member r.command_id c.capacity c.results (
        subst (λ t. member r.command_id (keys t) ≡ false) (sym f.held)
          (member-drop r.command_id (length rs - c.capacity) rs fresh)) in
    let added : insert r.command_id r (make_room c).0 ≡ m ++ entries (r ∷ []) =
      ap (λ t. insert r.command_id r t.0) made ∙ insert_fresh r.command_id r m new_key in
    record {
      held =
          added
          ∙ ap (λ t. room c.capacity t ++ entries (r ∷ [])) f.held
          ∙ room-window c.capacity rs r h;
      ordered =
          ap (λ t. t.1 ++ (r.command_id ∷ [])) made
          ∙ sym (keys-append m r.command_id r)
          ∙ sym (ap keys added);
    }

pub new-IsFifo : (capacity : ℕ) → IsFifo (new capacity) []
unfolding new
new-IsFifo capacity = record { held = sym (drop_nil (0 - capacity)); ordered = refl }

-- The identifiers of `rs` are all different, and none stands in `ss`.
abbrev pub Fresh : List CommandResult → List CommandResult → Type 0
Fresh ss [] = Unit {0}
Fresh ss (r ∷ rs) = (member r.command_id (ids ss) ≡ false) × Fresh (ss ++ (r ∷ [])) rs

store_all-IsFifo :
    (rs : List CommandResult) (c : CommandCache) (ss : List CommandResult)
    → 0 < c.capacity
    → Fresh ss rs
    → IsFifo c ss
    → IsFifo (store_all c rs) (ss ++ rs) × ((store_all c rs).capacity ≡ c.capacity)
unfolding store
store_all-IsFifo [] c ss h d f = (subst (λ t. IsFifo c t) (sym (append-nil ss)) f, refl)
store_all-IsFifo (r ∷ rs) c ss h d f =
    let (kept, same) =
      store_all-IsFifo rs (store c r) (ss ++ (r ∷ [])) h d.1 (store-IsFifo c ss r h d.0 f) in
    (subst (λ t. IsFifo (store_all (store c r) rs) t) (append_assoc ss (r ∷ []) rs) kept, same)

lookup-drop :
    (d : ℕ) (older newer : List CommandResult) (r : CommandResult)
    → member r.command_id (ids older) ≡ false
    → member r.command_id (ids newer) ≡ false
    → lookup r.command_id (drop d (entries (older ++ (r ∷ newer))))
      ≡ (if leb d (length older) then some r else none)
lookup-drop zero [] newer r h k = ground (arith, str_eq_iff r.command_id r.command_id)
lookup-drop (suc d) [] newer r h k =
    lookup_absent r.command_id (drop d (entries newer)) (member-drop r.command_id d newer k)
    ∙ ground arith
lookup-drop zero (a ∷ older) newer r h k = ground (arith, lookup-drop zero older newer r)
lookup-drop (suc d) (a ∷ older) newer r h k =
    lookup-drop d older newer r (ground arith) k ∙ ground arith

member-append_left :
    (k : Str) (rs ss : List CommandResult)
    → member k (ids rs) ≡ true
    → member k (ids (rs ++ ss)) ≡ true
member-append_left k [] ss h = cc
member-append_left k (r ∷ rs) ss h = ground (arith, member-append_left k rs ss)

member-append_last :
    (ss : List CommandResult) (r : CommandResult)
    → member r.command_id (ids (ss ++ (r ∷ []))) ≡ true
member-append_last [] r = ground (arith, str_eq_iff r.command_id r.command_id)
member-append_last (s ∷ ss) r = ground (arith, member-append_last ss r)

-- A fresh list names nothing that was there before.
Fresh-member :
    (k : Str) (ss rs : List CommandResult)
    → member k (ids ss) ≡ true
    → Fresh ss rs
    → member k (ids rs) ≡ false
Fresh-member k ss [] h f = refl
Fresh-member k ss (r ∷ rs) h f = elim (Bool-cases (str_eq r.command_id k)) [
  | inl same ↦
      let e : r.command_id ≡ k = (str_eq_iff r.command_id k).0 same in
      absurd (false≢true (sym f.0 ∙ subst (λ j. member j (ids ss) ≡ true) (sym e) h))
  | inr other ↦
      let rest = Fresh-member k (ss ++ (r ∷ [])) rs (member-append_left k ss (r ∷ []) h) f.1 in
      ground arith
]

str_eq_sym : (a b : Str) → str_eq a b ≡ true → str_eq b a ≡ true
str_eq_sym a b h = (str_eq_iff b a).1 (sym ((str_eq_iff a b).0 h))

-- An identifier that is not among the rest differs from each of it.
not_among :
    (k : Str) (older newer : List CommandResult) (r : CommandResult)
    → member k (ids (older ++ (r ∷ newer))) ≡ false
    → str_eq r.command_id k ≡ false
not_among k [] newer r h = ground arith
not_among k (a ∷ older) newer r h = not_among k older newer r (ground arith)

Fresh-split :
    (ss older newer : List CommandResult) (r : CommandResult)
    → Fresh ss (older ++ (r ∷ newer))
    → (member r.command_id (ids older) ≡ false) × (member r.command_id (ids newer) ≡ false)
Fresh-split ss [] newer r f =
    (refl, Fresh-member r.command_id (ss ++ (r ∷ [])) newer (member-append_last ss r) f.1)
Fresh-split ss (a ∷ older) newer r f =
    let (p, q) = Fresh-split (ss ++ (a ∷ [])) older newer r f.1 in
    let later =
      Fresh-member a.command_id (ss ++ (a ∷ [])) (older ++ (r ∷ newer)) (member-append_last ss a)
        f.1 in
    let differ = not_among a.command_id older newer r later in
    (ground (arith, str_eq_sym a.command_id r.command_id), q)

-- A cache remembers a result until `capacity` others have been stored after it, and no longer: once
-- it has taken in results under pairwise different identifiers, it answers with this one, marked as
-- replayed, exactly if fewer than `capacity` of them came after it.
pub get-store_all :
    (capacity : ℕ) (older newer : List CommandResult) (r : CommandResult)
    → 0 < capacity
    → Fresh [] (older ++ (r ∷ newer))
    → get (store_all (new capacity) (older ++ (r ∷ newer))) r.command_id
      ≡ (if ltb (length newer) capacity then some (record r { replayed = true }) else none)
unfolding get new
get-store_all capacity older newer r h f =
    let all : List CommandResult = older ++ (r ∷ newer) in
    let (kept, same) = store_all-IsFifo all (new capacity) [] h f (new-IsFifo capacity) in
    let d : ℕ = length all - capacity in
    let (p, q) = Fresh-split [] older newer r f in
    let held : (store_all (new capacity) all).results ≡ drop d (entries all) =
      kept.held ∙ ap (λ c. drop (length all - c) (entries all)) same in
    ap (λ m. as_replayed (lookup r.command_id m)) held
    ∙ ap as_replayed (lookup-drop d older newer r p q)
    ∙ ground (arith, length-append older (r ∷ newer))
