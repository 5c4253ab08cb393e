-- ===== src/Server/Events/Number.antt =====
-- agent_server.rs: the number of an event, printed and read again.
use michoi.Common.{
  ℕ, zero, suc, ◌+◌, ◌*◌, ◌/◌, ◌%◌, ◌^◌, ◌<◌, true, false, some, [], ◌∷◌, ◌≡◌, refl, ap, ◌∙◌, inl,
  inr, All, All-append, length, length-append, ltb, leb, ◌==◌, Bool-cases, arith,
}
use michoi.Common.Bytes.{Str}
use michoi.Common.Text.{
  decimal, decimal_from, trim, from_str_radix, digits_from, add_digit, digit_value,
}
use michoi.Server.Body.Lines.{IsPlain, trim-plain}
use michoi.Server.Body.RoundTrip.{digits_from-append}

digit-IsPlain : (d : ℕ) → d < 10 → IsPlain (48 + d)
digit-IsPlain d h = record {
  printable = ground arith;
  ascii = ground arith;
  no_semicolon = λ e. ground arith;
}

decimal_from-IsPlain : (fuel n : ℕ) → All IsPlain (decimal_from fuel n)
decimal_from-IsPlain zero n = tt
decimal_from-IsPlain (suc fuel) n = elim (Bool-cases (ltb n 10)) [
  | inl small ↦ let h : n < 10 = ground arith in rw small (digit-IsPlain n h, tt)
  | inr big ↦ rw big (
      All-append IsPlain (decimal_from fuel (n / 10)) ((48 + n % 10) ∷ [])
        (decimal_from-IsPlain fuel (n / 10)) (digit-IsPlain (n % 10) (omega arith), tt))
]

-- The numbers of so many decimal digits.
abbrev tens : ℕ → ℕ
tens zero = 1
tens (suc k) = 10 * tens k

digit_value-digit : (d : ℕ) → d < 10 → digit_value (48 + d) ≡ some d
digit_value-digit d h = ground arith

one_digit :
    (n d : ℕ)
    → d < 10
    → n * 10 + d < 2 ^ 64
    → digits_from 10 ((48 + d) ∷ []) (some n) ≡ some (n * 10 + d)
one_digit n d h b =
    let low : leb 10 d ≡ false = ground arith in
    let fits : ltb (n * 10 + d) (2 ^ 64) ≡ true = ground arith in
    ap (λ o. digits_from 10 [] (add_digit 10 n o)) (digit_value-digit d h) ∙ rw (low, fits) refl

digits-decimal_from :
    (fuel n : ℕ)
    → n < tens fuel
    → n < 2 ^ 64
    → digits_from 10 (decimal_from fuel n) (some 0) ≡ some n
digits-decimal_from zero n h b = ap some (omega arith)
digits-decimal_from (suc fuel) n h b = elim (Bool-cases (ltb n 10)) [
  | inl small ↦ rw small (one_digit 0 n (ground arith) (omega (arith, b)) ∙ ap some (omega arith))
  | inr big ↦
      let high : digits_from 10 (decimal_from fuel (n / 10)) (some 0) ≡ some (n / 10) =
        digits-decimal_from fuel (n / 10) (omega arith) (omega arith) in
      let whole : n / 10 * 10 + n % 10 ≡ n = omega arith in
      rw big (
        digits_from-append 10 (decimal_from fuel (n / 10)) ((48 + n % 10) ∷ []) (some 0)
        ∙ ap (digits_from 10 ((48 + n % 10) ∷ [])) high
        ∙ one_digit (n / 10) (n % 10) (omega arith) (omega arith)
        ∙ ap some whole)
]

decimal_from-nonempty : (fuel n : ℕ) → 0 < length (decimal_from (suc fuel) n)
decimal_from-nonempty fuel n = elim (Bool-cases (ltb n 10)) [
  | inl small ↦ rw small (omega arith)
  | inr big ↦
      rw big (omega (arith, length-append (decimal_from fuel (n / 10)) ((48 + n % 10) ∷ [])))
]

from_str_radix-plain :
    (s : Str) → All IsPlain s → 0 < length s → from_str_radix 10 s ≡ digits_from 10 s (some 0)
unfolding from_str_radix
from_str_radix-plain [] h pos = absurd (omega (arith, pos))
from_str_radix-plain (x ∷ xs) (p, h) pos =
    let other : (x == b'+') ≡ false = ground (arith, p.printable) in rw other refl

-- A number of 64 bits that is printed is read again, white space cut off first.
pub parse-decimal : (n : ℕ) → n < 2 ^ 64 → from_str_radix 10 (trim (decimal n)) ≡ some n
unfolding decimal
parse-decimal n b =
    let plain : All IsPlain (decimal_from 20 n) = decimal_from-IsPlain 20 n in
    ap (from_str_radix 10) (trim-plain (decimal_from 20 n) plain)
    ∙ from_str_radix-plain (decimal_from 20 n) plain (decimal_from-nonempty 19 n)
    ∙ digits-decimal_from 20 n (omega (arith, b)) b
