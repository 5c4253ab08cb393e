-- ===== src/Server/Body/Lines.antt =====
-- agent_server.rs: the lines between the chunks of a body. A plain byte is printable ASCII from the
-- digits on, and no semicolon.
use michoi.Common.{All-append}
use michoi.Common.{
  ℕ, zero, suc, ◌+◌, ◌-◌, ◌*◌, ◌/◌, ◌%◌, ◌^◌, ◌≤◌, ◌<◌, Bool, true, false, ◌&&◌, ◌||◌, Option, none,
  some, List, [], ◌∷◌, ◌++◌, ◌≡◌, refl, ap, sym, ◌∙◌, inl, inr, All, length, take, drop, ltb, leb,
  ◌==◌, str_eq, if◌then◌else◌, Result, ok, err, ◌≢◌, Bool-cases, arith,
}
use mathlib.Core.List.{reverse, reverse-cons, reverse-reverse, append_assoc, append-nil}
use michoi.Common.Bytes.{Str}
use michoi.Common.Text.{
  units, drop_spaces, bytes_of, trim, split, one_space, two_space, three_space,
}
use michoi.Net.{from_utf8_lossy, decode, decode_byte, lead}
use michoi.Server.Body.{read_line_from, read_line}

pub record IsPlain (x : ℕ) : Type 0 where
  pub printable : 47 < x
  pub ascii : x < 127
  pub no_semicolon : x ≢ 59

abbrev single : ℕ → Bool × List ℕ
single x = (false, x ∷ [])

abbrev singles : Str → List (Bool × List ℕ)
singles [] = []
singles (x ∷ xs) = single x ∷ singles xs

plain_space : (x : ℕ) → IsPlain x → one_space x ≡ false
plain_space x p = ground (arith, p.printable)

plain_two : (x y : ℕ) → IsPlain x → two_space x y ≡ false
plain_two x y p = ground (arith, p.ascii)

plain_three : (x y z : ℕ) → IsPlain x → three_space x y z ≡ false
plain_three x y z p = ground (arith, p.ascii)

units-plain : (s : Str) → All IsPlain s → units s ≡ singles s
unfolding units
units-plain [] h = refl
units-plain (x ∷ []) (p, _) = rw (plain_space x p) refl
units-plain (x ∷ (y ∷ [])) (p, h) =
    rw (plain_two x y p, plain_space x p, units-plain (y ∷ []) h) refl
units-plain (x ∷ (y ∷ (z ∷ rest))) (p, h) =
    rw (plain_two x y p, plain_three x y z p, plain_space x p, units-plain (y ∷ (z ∷ rest)) h) refl

drop_spaces-single :
    (x : ℕ) (us : List (Bool × List ℕ)) → drop_spaces (single x ∷ us) ≡ single x ∷ us
drop_spaces-single x us = refl

bytes_of-singles : (s : Str) → bytes_of (singles s) ≡ s
bytes_of-singles [] = refl
bytes_of-singles (x ∷ xs) = ap (λ t. x ∷ t) (bytes_of-singles xs)

NoSpace : Bool × List ℕ → Type 0
NoSpace u = u.0 ≡ false

drop_spaces-NoSpace : (us : List (Bool × List ℕ)) → All NoSpace us → drop_spaces us ≡ us
unfolding NoSpace
drop_spaces-NoSpace [] h = refl
drop_spaces-NoSpace ((space, bytes) ∷ rest) h = rw h.0 refl

singles-NoSpace : (s : Str) → All NoSpace (singles s)
unfolding NoSpace
singles-NoSpace [] = tt
singles-NoSpace (x ∷ xs) = (refl, singles-NoSpace xs)

All-reverse : (us : List (Bool × List ℕ)) → All NoSpace us → All NoSpace (reverse us)
All-reverse [] h = h
All-reverse (u ∷ us) h =
    rw (reverse-cons u us) (All-append NoSpace (reverse us) (u ∷ []) (All-reverse us h.1) (h.0, tt))

pub trim-plain : (s : Str) → All IsPlain s → trim s ≡ s
unfolding trim
trim-plain s h =
    rw
      (
        units-plain s h,
        drop_spaces-NoSpace (singles s) (singles-NoSpace s),
        drop_spaces-NoSpace (reverse (singles s)) (All-reverse (singles s) (singles-NoSpace s)),
        reverse-reverse (singles s),
      )
      (bytes_of-singles s)

pub split-plain : (s : Str) → All IsPlain s → split b';' s ≡ s ∷ []
unfolding split
split-plain [] h = refl
split-plain (x ∷ xs) (p, h) =
    let other : (x == b';') ≡ false = ground (arith, p.no_semicolon) in
    rw (other, split-plain xs h) refl

lossy-plain : (s : Str) → All IsPlain s → from_utf8_lossy s ≡ s
unfolding from_utf8_lossy decode decode_byte lead
lossy-plain [] h = refl
lossy-plain (x ∷ xs) (p, h) =
    let small : ltb x 0x80 ≡ true = ground (arith, p.ascii) in
    rw small (ap (λ t. x ∷ t) (lossy-plain xs h))

-- A line of plain bytes, behind some that were seen.
read_line_from-plain :
    (seen line : Str) (rest : List ℕ)
    → All IsPlain line
    → length seen + length line ≤ 1000
    → read_line_from seen (line ++ (13 ∷ 10 ∷ rest))
      ≡ ok (from_utf8_lossy (reverse seen ++ line), rest)
unfolding read_line_from michoi.Common.Tests.str_eq
read_line_from-plain seen [] rest h short =
    let one : ltb 1024 (suc (length seen)) ≡ false = ground arith in
    rw (one, append-nil (reverse seen)) refl
read_line_from-plain seen (x ∷ xs) rest (p, h) short =
    let other : (x == 10) ≡ false = ground (arith, p.printable) in
    let one : ltb 1024 (suc (length seen)) ≡ false = ground arith in
    let again : read_line_from (x ∷ seen) (xs ++ (13 ∷ 10 ∷ rest))
        ≡ ok (from_utf8_lossy (reverse (x ∷ seen) ++ xs), rest) =
      read_line_from-plain (x ∷ seen) xs rest h (omega (arith, short)) in
    let moved : reverse (x ∷ seen) ++ xs ≡ reverse seen ++ (x ∷ xs) =
      ap (λ t. t ++ xs) (reverse-cons x seen) ∙ append_assoc (reverse seen) (x ∷ []) xs in
    rw (other, one) (again ∙ ap (λ t. ok (from_utf8_lossy t, rest)) moved)

pub read_line-plain :
    (line : Str) (rest : List ℕ)
    → All IsPlain line
    → length line ≤ 1000
    → read_line (line ++ (13 ∷ 10 ∷ rest)) ≡ ok (line, rest)
unfolding read_line
read_line-plain line rest h short =
    read_line_from-plain [] line rest h (omega (arith, short))
    ∙ ap (λ t. ok (t, rest)) (lossy-plain line h)
