-- ===== src/Common/Maps.antt =====
-- Maps as association lists in the order of insertion: what the program uses of `HashMap` and
-- `BTreeMap`, over any key with a Boolean equality.
use michoi.Common.Tests.{if◌then◌else◌, ◌==◌, ==_iff, str_eq, str_eq→eq, str_eq_refl}
use michoi.Common.Lists.{length}
use Prim.Native.Nat.{ℕ}
use michoi.Common.Tests.{Bool-cases}
use mathlib.Core.Logic.{inl, inr}
use mathlib.Core.Path.{◌≡◌, refl, subst}
use mathlib.Core.Logic.{◌↔◌}
use mathlib.Core.Bool.{Bool, true, false, ◌||◌}
use mathlib.Core.Option.{Option, none, some}
use mathlib.Core.List.{List, [], ◌∷◌, ◌++◌}
use native.Mathlib.Omega.{arith}

pub record Key {ℓ} (K : Type ℓ) : Type ℓ where
  pub beq : K → K → Bool
  pub beq_iff : (a b : K) → (beq a b ≡ true) ↔ (a ≡ b)

instance abbrev pub nat_key : Key ℕ
nat_key = record { beq = ◌==◌; beq_iff = ==_iff }

pub str_eq_iff : (a b : List ℕ) → (str_eq a b ≡ true) ↔ (a ≡ b)
str_eq_iff a b = (str_eq→eq a b, λ e. subst (λ t. str_eq a t ≡ true) e (str_eq_refl a))

instance abbrev pub str_key : Key (List ℕ)
str_key = record { beq = str_eq; beq_iff = str_eq_iff }

module _ {ℓ κ} {K : Type ℓ} {V : Type κ} ⦃e : Key K⦄ where
  abbrev pub lookup : K → List (K × V) → Option V
  lookup k [] = none
  lookup k ((j, v) ∷ m) = if e.beq j k then some v else lookup k m

  -- `insert`: the value of a present key is replaced, a new key goes to the end.
  abbrev pub insert : K → V → List (K × V) → List (K × V)
  insert k v [] = (k, v) ∷ []
  insert k v ((j, w) ∷ m) = if e.beq j k then (j, v) ∷ m else (j, w) ∷ insert k v m

  abbrev pub remove : K → List (K × V) → List (K × V)
  remove k [] = []
  remove k ((j, w) ∷ m) = if e.beq j k then m else (j, w) ∷ remove k m

module _ {ℓ κ} {K : Type ℓ} {V : Type κ} where
  abbrev pub keys : List (K × V) → List K
  keys [] = []
  keys ((k, v) ∷ m) = k ∷ keys m

module _ {ℓ} {K : Type ℓ} ⦃e : Key K⦄ where
  abbrev pub member : K → List K → Bool
  member k [] = false
  member k (j ∷ js) = e.beq j k || member k js

  -- No key stands twice.
  abbrev pub Distinct : List K → Type 0
  Distinct [] = Unit {0}
  Distinct (k ∷ ks) = (member k ks ≡ false) × Distinct ks

module _ {ℓ κ} {K : Type ℓ} {V : Type κ} ⦃e : Key K⦄ where
  pub lookup-insert_self : (k : K) (v : V) (m : List (K × V)) → lookup k (insert k v m) ≡ some v
  lookup-insert_self k v [] = ground (arith, e.beq_iff k k)
  lookup-insert_self k v ((j, w) ∷ m) = ground (arith, lookup-insert_self k v m)

  -- A new key goes to the end.
  pub insert_fresh :
      (k : K) (v : V) (m : List (K × V))
      → member k (keys m) ≡ false
      → insert k v m ≡ m ++ ((k, v) ∷ [])
  insert_fresh k v [] h = refl
  insert_fresh k v ((j, w) ∷ m) h = ground (arith, insert_fresh k v m)

  pub length-keys : (m : List (K × V)) → length (keys m) ≡ length m
  length-keys [] = refl
  length-keys ((j, w) ∷ m) = omega (arith, length-keys m)

  pub remove_head : (k : K) (v : V) (m : List (K × V)) → remove k ((k, v) ∷ m) ≡ m
  remove_head k v m = ground (arith, e.beq_iff k k)

  pub lookup_absent : (k : K) (m : List (K × V)) → member k (keys m) ≡ false → lookup k m ≡ none
  lookup_absent k [] h = refl
  lookup_absent k ((j, w) ∷ m) h = ground (arith, lookup_absent k m)

  -- A key that was inserted and removed again is gone, if no key stood twice.
  pub lookup-remove-insert :
      (k : K) (v : V) (m : List (K × V))
      → Distinct (keys m)
      → lookup k (remove k (insert k v m)) ≡ none
  lookup-remove-insert k v [] d = ground (arith, e.beq_iff k k)
  lookup-remove-insert k v ((j, w) ∷ m) d = elim (Bool-cases (e.beq j k)) [
    | inl same ↦
        let equal : j ≡ k = (e.beq_iff j k).0 same in
        let absent : member k (keys m) ≡ false = subst (λ x. member x (keys m) ≡ false) equal d.0 in
        rw (same, same) (lookup_absent k m absent)
    | inr other ↦ rw (other, other, other) (lookup-remove-insert k v m d.1)
  ]
