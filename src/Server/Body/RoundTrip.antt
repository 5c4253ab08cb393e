-- ===== src/Server/Body/RoundTrip.antt =====
-- agent_server.rs: what the server writes in chunks, its reader of bodies reads back.
use michoi.Common.{
  ℕ, zero, suc, ◌+◌, ◌-◌, ◌*◌, ◌/◌, ◌%◌, ◌^◌, ◌≤◌, ◌<◌, Bool, true, false, Option, none, some, List,
  [], ◌∷◌, ◌++◌, ◌≡◌, refl, ap, sym, ◌∙◌, inl, inr, All, All-append, length, take, drop, ltb, leb,
  ◌==◌, if◌then◌else◌, Result, ok, err, Bool-cases, length-append, take-append, drop-append, arith,
  ◌>>=◌,
}
use mathlib.Core.List.{append_assoc, append-nil}
use michoi.Common.Bytes.{Str}
use michoi.Common.Text.{trim, split, from_str_radix, unsigned, digits_from, add_digit, digit_value}
use michoi.Server.Body.{
  read_line, read_exact, chunk_size, read_chunk_size, read_trailer, chunked_loop, read_chunked,
}
use michoi.Server.Body.Lines.{IsPlain, trim-plain, split-plain, read_line-plain}
use michoi.Server.Events.{hex_char, hex_from, hex, write_chunk, last_chunk}

hex_char-IsPlain : (d : ℕ) → d < 16 → IsPlain (hex_char d)
hex_char-IsPlain d h = record {
  printable = ground arith;
  ascii = ground arith;
  no_semicolon = λ e. ground arith;
}

hex_from-IsPlain : (fuel n : ℕ) → All IsPlain (hex_from fuel n)
unfolding hex_from
hex_from-IsPlain zero n = tt
hex_from-IsPlain (suc fuel) n = elim (Bool-cases (ltb n 16)) [
  | inl small ↦ let h : n < 16 = ground arith in rw small (hex_char-IsPlain n h, tt)
  | inr big ↦ rw big (
      All-append IsPlain (hex_from fuel (n / 16)) (hex_char (n % 16) ∷ [])
        (hex_from-IsPlain fuel (n / 16)) (hex_char-IsPlain (n % 16) (omega arith), tt))
]

length-hex_from : (fuel n : ℕ) → length (hex_from fuel n) ≤ fuel
unfolding hex_from
length-hex_from zero n = omega arith
length-hex_from (suc fuel) n = elim (Bool-cases (ltb n 16)) [
  | inl small ↦ rw small (omega arith)
  | inr big ↦ rw big (
      omega (
        arith,
        length-append (hex_from fuel (n / 16)) (hex_char (n % 16) ∷ []),
        length-hex_from fuel (n / 16),
      ))
]

hex-IsPlain : (n : ℕ) → All IsPlain (hex n)
unfolding hex
hex-IsPlain n = hex_from-IsPlain 16 n

hex-short : (n : ℕ) → length (hex n) ≤ 1000
unfolding hex
hex-short n = omega (arith, length-hex_from 16 n)

pub digits_from-append :
    (radix : ℕ) (xs ys : Str) (o : Option ℕ)
    → digits_from radix (xs ++ ys) o ≡ digits_from radix ys (digits_from radix xs o)
digits_from-append radix xs ys none = refl
digits_from-append radix [] ys (some n) = refl
digits_from-append radix (x ∷ xs) ys (some n) =
    digits_from-append radix xs ys (add_digit radix n (digit_value x))

-- The numbers of so many hexadecimal digits.
abbrev sixteens : ℕ → ℕ
sixteens zero = 1
sixteens (suc k) = 16 * sixteens k

digit_value-hex_char : (d : ℕ) → d < 16 → digit_value (hex_char d) ≡ some d
digit_value-hex_char d h = ground arith

one_digit :
    (n d : ℕ)
    → d < 16
    → n * 16 + d < 2 ^ 64
    → digits_from 16 (hex_char d ∷ []) (some n) ≡ some (n * 16 + d)
one_digit n d h b =
    let low : leb 16 d ≡ false = ground arith in
    let fits : ltb (n * 16 + d) (2 ^ 64) ≡ true = ground arith in
    ap (λ o. digits_from 16 [] (add_digit 16 n o)) (digit_value-hex_char d h) ∙ rw (low, fits) refl

digits-hex_from :
    (fuel n : ℕ)
    → n < sixteens fuel
    → n < 2 ^ 64
    → digits_from 16 (hex_from fuel n) (some 0) ≡ some n
unfolding hex_from
digits-hex_from zero n h b = ap some (omega arith)
digits-hex_from (suc fuel) n h b = elim (Bool-cases (ltb n 16)) [
  | inl small ↦ rw small (one_digit 0 n (ground arith) (omega (arith, b)) ∙ ap some (omega arith))
  | inr big ↦
      let high : digits_from 16 (hex_from fuel (n / 16)) (some 0) ≡ some (n / 16) =
        digits-hex_from fuel (n / 16) (omega arith) (omega arith) in
      let whole : n / 16 * 16 + n % 16 ≡ n = omega arith in
      rw big (
        digits_from-append 16 (hex_from fuel (n / 16)) (hex_char (n % 16) ∷ []) (some 0)
        ∙ ap (digits_from 16 (hex_char (n % 16) ∷ [])) high
        ∙ one_digit (n / 16) (n % 16) (omega arith) (omega arith)
        ∙ ap some whole)
]

abbrev or_zero : Option ℕ → ℕ
or_zero none = 0
or_zero (some n) = n

from_str_radix-plain :
    (s : Str) (n : ℕ)
    → All IsPlain s
    → digits_from 16 s (some 0) ≡ some n
    → 0 < n
    → from_str_radix 16 s ≡ some n
unfolding from_str_radix
from_str_radix-plain [] n h e pos = absurd (omega (arith, ap or_zero e, pos))
from_str_radix-plain (x ∷ xs) n (p, h) e pos =
    let other : (x == b'+') ≡ false = ground (arith, p.printable) in rw other e

-- A chunk's first line holds the number that was written.
chunk_size-hex : (n : ℕ) → 0 < n → n < 2 ^ 64 → chunk_size (hex n) ≡ some n
unfolding chunk_size hex
chunk_size-hex n pos b =
    let plain : All IsPlain (hex_from 16 n) = hex_from-IsPlain 16 n in
    rw (split-plain (hex_from 16 n) plain, trim-plain (hex_from 16 n) plain)
      (from_str_radix-plain (hex_from 16 n) n plain (digits-hex_from 16 n b b) pos)

read_chunk_size-hex :
    (n : ℕ) (rest : List ℕ)
    → 0 < n
    → n < 2 ^ 64
    → read_chunk_size (hex n ++ (13 ∷ 10 ∷ rest)) ≡ ok (n, rest)
unfolding read_chunk_size
read_chunk_size-hex n rest pos b =
    let line : read_line (hex n ++ (13 ∷ 10 ∷ rest)) ≡ ok (hex n, rest) =
      read_line-plain (hex n) rest (hex-IsPlain n) (hex-short n) in
    rw (line, chunk_size-hex n pos b) refl

-- The chunks of a body, one behind the other.
abbrev pub write_chunks : List (List ℕ) → List ℕ
write_chunks [] = last_chunk
write_chunks (chunk ∷ rest) = write_chunk chunk ++ write_chunks rest

abbrev pub joined : List (List ℕ) → List ℕ
joined [] = []
joined (chunk ∷ rest) = chunk ++ joined rest

read_exact-append :
    (chunk rest : List ℕ)
    → length chunk < 2 ^ 62
    → read_exact (length chunk) (chunk ++ rest) ≡ ok (chunk, rest)
unfolding read_exact
read_exact-append chunk rest h =
    let small : leb (2 ^ 63) (length chunk) ≡ false = ground arith in
    let enough : leb (length chunk) (length (chunk ++ rest)) ≡ true =
      ground (arith, length-append chunk rest) in
    rw
      (
        small,
        enough,
        take-append chunk rest (length chunk) refl,
        drop-append chunk rest (length chunk) refl,
      )
      refl

abbrev pub IsChunk : List ℕ → Type 0
IsChunk chunk = 0 < length chunk

chunk_shape :
    (line chunk later rest : List ℕ)
    → ((line ++ (13 ∷ 10 ∷ (chunk ++ (13 ∷ 10 ∷ [])))) ++ later) ++ rest
      ≡ line ++ (13 ∷ 10 ∷ (chunk ++ (13 ∷ 10 ∷ (later ++ rest))))
chunk_shape line chunk later rest =
    append_assoc (line ++ (13 ∷ 10 ∷ (chunk ++ (13 ∷ 10 ∷ [])))) later rest
    ∙ append_assoc line (13 ∷ 10 ∷ (chunk ++ (13 ∷ 10 ∷ []))) (later ++ rest)
    ∙ ap (λ t. line ++ (13 ∷ 10 ∷ t)) (append_assoc chunk (13 ∷ 10 ∷ []) (later ++ rest))

zero_size : chunk_size (48 ∷ []) ≡ some 0
unfolding chunk_size trim split michoi.Common.Text.units from_str_radix michoi.Common.Tests.str_eq
zero_size = refl

zero_line : (rest : List ℕ) → read_chunk_size (48 ∷ 13 ∷ 10 ∷ rest) ≡ ok (0, rest)
unfolding read_chunk_size
zero_line rest =
    let line : read_line (48 ∷ 13 ∷ 10 ∷ rest) ≡ ok (48 ∷ [], rest) =
      read_line-plain (48 ∷ []) rest
        (
          record { printable = omega arith; ascii = omega arith; no_semicolon = λ e. omega arith },
          tt,
        )
        (omega arith) in
    rw (line, zero_size) refl

no_trailer :
    (fuel : ℕ) (rest : List ℕ) → 0 < fuel → read_trailer fuel (13 ∷ 10 ∷ rest) ≡ ok (tt, rest)
unfolding read_trailer michoi.Common.Tests.str_eq
no_trailer zero rest h = absurd (omega (arith, h))
no_trailer (suc fuel) rest h =
    let line : read_line (13 ∷ 10 ∷ rest) ≡ ok ([], rest) =
      read_line-plain [] rest tt (omega arith) in
    rw line refl

last_turn :
    (fuel limit : ℕ) (body rest : List ℕ)
    → 0 < fuel
    → chunked_loop (suc fuel) limit body (last_chunk ++ rest) ≡ ok (body, rest)
unfolding chunked_loop
last_turn fuel limit body rest h = rw (zero_line (13 ∷ 10 ∷ rest), no_trailer fuel rest h) refl

loop-write_chunks :
    (fuel limit : ℕ) (body : List ℕ) (chunks : List (List ℕ)) (rest : List ℕ)
    → All IsChunk chunks
    → length chunks + 2 ≤ fuel
    → limit < 2 ^ 62
    → length body + length (joined chunks) ≤ limit
    → chunked_loop fuel limit body (write_chunks chunks ++ rest) ≡ ok (body ++ joined chunks, rest)
unfolding chunked_loop write_chunk
loop-write_chunks zero limit body chunks rest h enough room fits = absurd (omega (arith, enough))
loop-write_chunks (suc fuel) limit body [] rest h enough room fits =
    last_turn fuel limit body rest (omega (arith, enough))
    ∙ ap (λ b. ok (b, rest)) (sym (append-nil body))
loop-write_chunks (suc fuel) limit body (chunk ∷ chunks) rest (p, h) enough room fits =
    let tail : List ℕ = write_chunks chunks ++ rest in
    let shape : write_chunks (chunk ∷ chunks) ++ rest
        ≡ hex (length chunk) ++ (13 ∷ 10 ∷ (chunk ++ (13 ∷ 10 ∷ tail))) =
      chunk_shape (hex (length chunk)) chunk (write_chunks chunks) rest in
    let both : length (chunk ++ joined chunks) ≡ length chunk + length (joined chunks) =
      length-append chunk (joined chunks) in
    let size : read_chunk_size (hex (length chunk) ++ (13 ∷ 10 ∷ (chunk ++ (13 ∷ 10 ∷ tail))))
        ≡ ok (length chunk, chunk ++ (13 ∷ 10 ∷ tail)) =
      read_chunk_size-hex (length chunk) _ p (omega arith) in
    let some_bytes : (length chunk == 0) ≡ false = ground arith in
    let allowed : leb ((length body + length chunk) % 2 ^ 64) limit ≡ true = ground arith in
    let exact : read_exact (length chunk) (chunk ++ (13 ∷ 10 ∷ tail)) ≡ ok (chunk, 13 ∷ 10 ∷ tail) =
      read_exact-append chunk (13 ∷ 10 ∷ tail) (omega arith) in
    let line : read_line (13 ∷ 10 ∷ tail) ≡ ok ([], tail) =
      read_line-plain [] tail tt (omega arith) in
    let again : chunked_loop fuel limit (body ++ chunk) tail
        ≡ ok ((body ++ chunk) ++ joined chunks, rest) =
      loop-write_chunks fuel limit (body ++ chunk) chunks rest h (omega (arith, enough)) room
        (omega (arith, length-append body chunk)) in
    rw (shape, size, some_bytes, allowed, exact, line)
      (again ∙ ap (λ b. ok (b, rest)) (append_assoc body chunk (joined chunks)))

length-write_chunks : (chunks : List (List ℕ)) → length chunks + 2 ≤ length (write_chunks chunks)
unfolding write_chunk
length-write_chunks [] = omega arith
length-write_chunks (chunk ∷ chunks) = omega (
  arith,
  length-append (write_chunk chunk) (write_chunks chunks),
  length-append (hex (length chunk)) (13 ∷ 10 ∷ (chunk ++ (13 ∷ 10 ∷ []))),
  length-write_chunks chunks,
)

-- Chunks of one byte at least that together hold at most as many bytes as the reader allows, written
-- one behind the other with the closing chunk: the reader gives back the bytes of all chunks in their
-- order, and leaves what follows on the connection.
pub read-write_chunks :
    (limit : ℕ) (chunks : List (List ℕ)) (rest : List ℕ)
    → limit < 2 ^ 62
    → All IsChunk chunks
    → length (joined chunks) ≤ limit
    → read_chunked limit (write_chunks chunks ++ rest) ≡ ok (joined chunks, rest)
unfolding read_chunked
read-write_chunks limit chunks rest room h fits =
    loop-write_chunks (suc (length (write_chunks chunks ++ rest))) limit [] chunks rest h
      (omega (arith, length-append (write_chunks chunks) rest, length-write_chunks chunks)) room
      (omega (arith, fits))
