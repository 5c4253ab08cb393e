-- ===== src/Common/Results.antt =====
-- `Result`: the value or the error of a fallible operation, with its chaining.
use michoi.Common.Tests.{if◌then◌else◌}
use mathlib.Core.Path.{◌≡◌, refl, ap}
use mathlib.Core.Bool.{Bool, true, false, false≢true}
use mathlib.Core.Option.{Option, none, some}
use mathlib.Core.Logic.{◌≢◌, ◌⊎◌, inl, inr}

pub data Result {ℓ κ} (E : Type ℓ) (A : Type κ) : Type (ℓ ⊔ κ) where
  ok : A → Result E A
  err : E → Result E A

infixl 5 ◌>>=◌ ◌>>◌
abbrev pub ◌>>=◌ {ℓ κ μ} :
    {E : Type ℓ} {A : Type κ} {B : Type μ} → Result E A → (A → Result E B) → Result E B
ok a >>= f = f a
err e >>= f = err e

abbrev pub ◌>>◌ {ℓ μ} : {E : Type ℓ} {B : Type μ} → Result E (Unit {0}) → Result E B → Result E B
m >> k = m >>= λ _. k

-- `is_ok`
abbrev pub is_ok {ℓ κ} : {E : Type ℓ} {A : Type κ} → Result E A → Bool
is_ok (ok a) = true
is_ok (err e) = false

-- `ok()`
abbrev pub to_option {ℓ κ} : {E : Type ℓ} {A : Type κ} → Result E A → Option A
to_option (ok a) = some a
to_option (err e) = none

-- `return Err(e)` unless the test holds.
abbrev pub ensure {ℓ} : {E : Type ℓ} → Bool → E → Result E (Unit {0})
ensure true e = ok tt
ensure false e = err e

pub Result-cases {ℓ κ} :
    {E : Type ℓ} {A : Type κ} (r : Result E A) → ((a : A) × (r ≡ ok a)) ⊎ ((e : E) × (r ≡ err e))
Result-cases (ok a) = inl (a, refl)
Result-cases (err e) = inr (e, refl)

-- A chain that succeeds: each of its parts did.
pub bind-ok {ℓ κ μ} :
    {E : Type ℓ} {A : Type κ} {B : Type μ} (m : Result E A) (f : A → Result E B) (b : B)
    → (m >>= f) ≡ ok b
    → (a : A) × (m ≡ ok a) × (f a ≡ ok b)
bind-ok (ok a) f b h = (a, refl, h)
bind-ok (err e) f b h = absurd (false≢true (ap is_ok h))

-- A chain without a certain error: none of its parts has it.
pub bind-err {ℓ κ μ} :
    {E : Type ℓ} {A : Type κ} {B : Type μ} (m : Result E A) (f : A → Result E B) (e : E)
    → m ≢ err e
    → ((a : A) → m ≡ ok a → f a ≢ err e)
    → (m >>= f) ≢ err e
bind-err (ok a) f e h k = k a refl
bind-err {E = E} {A = A} {B = B} (err d) f e h k = λ q. h (ap recast q)
  where
    recast : Result E B → Result E A
    recast (ok b) = err d
    recast (err c) = err c

-- A guarded result that succeeds: the test went the other way.
pub else_ok {ℓ κ} :
    {E : Type ℓ} {A : Type κ} (t : Bool) (e : E) (m : Result E A) (a : A)
    → (if t then err e else m) ≡ ok a
    → (t ≡ false) × (m ≡ ok a)
else_ok true e m a h = absurd (false≢true (ap is_ok h))
else_ok false e m a h = (refl, h)

pub then_ok {ℓ κ} :
    {E : Type ℓ} {A : Type κ} (t : Bool) (m : Result E A) (e : E) (a : A)
    → (if t then m else err e) ≡ ok a
    → (t ≡ true) × (m ≡ ok a)
then_ok false m e a h = absurd (false≢true (ap is_ok h))
then_ok true m e a h = (refl, h)

-- Two successes are equal only with equal values.
pub ok-injective {ℓ κ} :
    {E : Type ℓ} {A : Type κ} (a b : A) → ◌≡◌ {A = Result E A} (ok a) (ok b) → a ≡ b
ok-injective {E = E} {A = A} a b h = ap value h
  where
    value : Result E A → A
    value (ok x) = x
    value (err e) = a
