-- ===== src/CommandCache/Recent.antt =====
-- agent_api.rs: a result that was stored stays in the command cache until as many newer ones have
-- come as the cache has places.
use michoi.Common.{
  ℕ, suc, ◌≤◌, ◌<◌, List, [], ◌∷◌, ◌++◌, Option, none, some, leb, length, length-append, ◌≡◌, refl,
  sym, ◌∙◌, ap, arith, true, false, inl, inr, Bool-cases, lookup, insert, keys, member, str_key,
  str_eq, str_eq_refl, insert_fresh,
}
use mathlib.Core.List.{append_assoc}
use mathlib.Core.Option.{none-ne-some}
use michoi.Common.Bytes.{Str}
use michoi.Api.{CommandResult}
use michoi.CommandCache.{CommandCache, make_room, store, get, as_replayed}
use michoi.CommandCache.Retention.{room, room_member, make_room_lem, keys-append}

-- The order lists what the table holds.
abbrev pub IsOrdered : CommandCache → Type 0
IsOrdered c = c.order ≡ keys c.results

-- `r` is in the cache and at most `newer` results came after it.
pub record IsRecent (newer : ℕ) (r : CommandResult) (c : CommandCache) : Type 0 where
  pub older_ones : List (Str × CommandResult)
  pub newer_ones : List (Str × CommandResult)
  pub held : c.results ≡ older_ones ++ ((r.command_id, r) ∷ newer_ones)
  pub few : length newer_ones ≤ newer
  pub first : member r.command_id (keys older_ones) ≡ false
  pub ordered : IsOrdered c

-- A result without an entry in the table: no key is its identifier.
pub not_member :
    (k : Str) (m : List (Str × CommandResult)) → lookup k m ≡ none → member k (keys m) ≡ false
not_member k [] h = refl
not_member k ((j, v) ∷ m) h = elim (Bool-cases (str_eq j k)) [
  | inl e ↦ absurd (none-ne-some v (sym h ∙ rw e refl))
  | inr e ↦ rw e (not_member k m (sym (rw e refl) ∙ h))
]

pub get-not_member :
    (c : CommandCache) (k : Str) → get c k ≡ none → member k (keys c.results) ≡ false
unfolding get
get-not_member c k h = not_member k c.results (absent (lookup k c.results) h)
  where
    absent : (o : Option CommandResult) → as_replayed o ≡ none → o ≡ none
    absent none e = refl
    absent (some r) e = absurd (none-ne-some (record r { replayed = true }) (sym e))

store_lem :
    (c : CommandCache) (r : CommandResult)
    → 0 < c.capacity
    → IsOrdered c
    → member r.command_id (keys c.results) ≡ false
    → ((store c r).results ≡ room c.capacity c.results ++ ((r.command_id, r) ∷ []))
      × IsOrdered (store c r)
unfolding store
store_lem c r h o fresh =
    let made = make_room_lem c h o in
    let m = room c.capacity c.results in
    let added : insert r.command_id r (make_room c).0 ≡ m ++ ((r.command_id, r) ∷ []) =
      ap (λ t. insert r.command_id r t.0) made
      ∙ insert_fresh r.command_id r m (room_member r.command_id c.capacity c.results fresh) in
    (
      added,
      ap (λ t. t.1 ++ (r.command_id ∷ [])) made
          ∙ sym (keys-append m r.command_id r)
          ∙ ap keys (sym added),
    )

-- What has just been stored is the newest.
pub store-IsRecent :
    (c : CommandCache) (r : CommandResult)
    → 0 < c.capacity
    → IsOrdered c
    → member r.command_id (keys c.results) ≡ false
    → IsRecent 0 r (store c r)
store-IsRecent c r h o fresh =
    let (held, ordered) = store_lem c r h o fresh in
    record {
      older_ones = room c.capacity c.results;
      newer_ones = [];
      held = held;
      few = omega arith;
      first = room_member r.command_id c.capacity c.results fresh;
      ordered = ordered;
    }

-- A full cache that stores another result forgets an older one than `r`.
room_split :
    (capacity : ℕ) (older newer : List (Str × CommandResult)) (k : Str) (r : CommandResult)
    → suc (length newer) < capacity
    → member k (keys older) ≡ false
    → (kept : List (Str × CommandResult)) × (room capacity (older ++ ((k, r) ∷ newer))
        ≡ kept ++ ((k, r) ∷ newer))
      × (member k (keys kept) ≡ false)
unfolding room
room_split capacity [] newer k r h first =
    let few : leb capacity (length ((k, r) ∷ newer)) ≡ false = ground arith in
    ([], rw few refl, refl)
room_split capacity ((j, v) ∷ older) newer k r h first =
    elim (Bool-cases (leb capacity (length ((j, v) ∷ (older ++ ((k, r) ∷ newer)))))) [
      | inl full ↦ (older, rw full refl, ground arith)
      | inr free ↦ ((j, v) ∷ older, rw free refl, first)
    ]

pub store-stays :
    (c : CommandCache) (r s : CommandResult) (n : ℕ)
    → suc n < c.capacity
    → IsRecent n r c
    → member s.command_id (keys c.results) ≡ false
    → IsRecent (suc n) r (store c s)
store-stays c r s n h k fresh =
    let (kept, e, first) =
      room_split c.capacity k.older_ones k.newer_ones r.command_id r (omega (arith, k.few))
        k.first in
    let (held, ordered) = store_lem c s (omega arith) k.ordered fresh in
    record {
      older_ones = kept;
      newer_ones = k.newer_ones ++ ((s.command_id, s) ∷ []);
      held =
          held
          ∙ ap (λ m. room c.capacity m ++ ((s.command_id, s) ∷ [])) k.held
          ∙ ap (λ m. m ++ ((s.command_id, s) ∷ [])) e
          ∙ append_assoc kept ((r.command_id, r) ∷ k.newer_ones) ((s.command_id, s) ∷ []);
      few = omega (arith, k.few, length-append k.newer_ones ((s.command_id, s) ∷ []));
      first = first;
      ordered = ordered;
    }

lookup-behind :
    (older newer : List (Str × CommandResult)) (k : Str) (r : CommandResult)
    → member k (keys older) ≡ false
    → lookup k (older ++ ((k, r) ∷ newer)) ≡ some r
lookup-behind [] newer k r h = rw (str_eq_refl k) refl
lookup-behind ((j, v) ∷ older) newer k r h = ground (arith, lookup-behind older newer k r)

pub get-IsRecent :
    (c : CommandCache) (r : CommandResult) (n : ℕ)
    → IsRecent n r c
    → get c r.command_id ≡ some (record r { replayed = true })
unfolding get
get-IsRecent c r n k = ap as_replayed (
    ap (lookup r.command_id) k.held
    ∙ lookup-behind k.older_ones k.newer_ones r.command_id r k.first)
