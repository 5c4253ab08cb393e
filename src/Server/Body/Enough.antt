-- ===== src/Server/Body/Enough.antt =====
-- agent_server.rs: the loops that read a body end before the fuel of the model does.
use michoi.Common.{
  ℕ, zero, suc, ◌+◌, ◌%◌, ◌^◌, ◌≤◌, ◌<◌, Bool, false, true, Option, none, some, List, [], ◌∷◌, ◌++◌,
  ◌≡◌, refl, ap, length, leb, ◌==◌, str_eq, if-cases, inl, inr, Result, ok, err, is_ok, ◌>>=◌,
  bind-ok, then_ok, ok-injective, if◌then◌else◌, arith,
}
use mathlib.Core.Bool.{false≢true}
use michoi.Common.Bytes.{Str}
use michoi.Server.Body.{
  ReadError, out_of_fuel, Input, read_exact, read_line_from, read_line, chunk_size, sized,
  read_chunk_size, read_trailer, chunked_loop, read_chunked,
}
use michoi.Server.Body.Bounds.{read_exact-ok, read_line-ok, read_chunk_size-ok}

-- An error of the code, not the model's own.
abbrev pub IsReal : ReadError → Type 0
IsReal out_of_fuel = ⊥
IsReal _ = Unit

unfoldable pub IsEnough : {A : Type 0} → Result ReadError A → Type 0
IsEnough (ok a) = Unit
IsEnough (err e) = IsReal e

pub ok-IsEnough : {A : Type 0} (a : A) → IsEnough {A = A} (ok a)
unfolding IsEnough
ok-IsEnough a = tt

pub err-IsEnough : (A : Type 0) (e : ReadError) → IsReal e → IsEnough {A = A} (err e)
unfolding IsEnough
err-IsEnough A e h = h

pub bind-IsEnough :
    {A B : Type 0} (m : Result ReadError A) (f : A → Result ReadError B)
    → IsEnough m
    → ((a : A) → m ≡ ok a → IsEnough (f a))
    → IsEnough (m >>= f)
unfolding IsEnough
bind-IsEnough (ok a) f h k = k a refl
bind-IsEnough (err e) f h k = h

pub either-IsEnough :
    {A : Type 0} (t : Bool) (x y : Result ReadError A)
    → IsEnough x
    → IsEnough y
    → IsEnough (if t then x else y)
either-IsEnough true x y h k = h
either-IsEnough false x y h k = k

pub read_exact-IsEnough : (n : ℕ) (input : Input) → IsEnough (read_exact n input)
unfolding read_exact
read_exact-IsEnough n input =
    either-IsEnough _ _ _ (err-IsEnough _ _ tt)
      (either-IsEnough _ _ _ (ok-IsEnough _) (err-IsEnough _ _ tt))

read_line_from-IsEnough : (seen : Str) (input : Input) → IsEnough (read_line_from seen input)
unfolding read_line_from
read_line_from-IsEnough seen [] = err-IsEnough _ _ tt
read_line_from-IsEnough seen (x ∷ xs) =
    either-IsEnough _ _ _ (ok-IsEnough _)
      (either-IsEnough _ _ _ (err-IsEnough _ _ tt) (read_line_from-IsEnough (x ∷ seen) xs))

pub read_line-IsEnough : (input : Input) → IsEnough (read_line input)
unfolding read_line
read_line-IsEnough input = read_line_from-IsEnough [] input

sized-IsEnough : (o : Option ℕ) (input : Input) → IsEnough (sized o input)
sized-IsEnough none input = err-IsEnough _ _ tt
sized-IsEnough (some n) input = ok-IsEnough _

pub read_chunk_size-IsEnough : (input : Input) → IsEnough (read_chunk_size input)
unfolding read_chunk_size
read_chunk_size-IsEnough input =
    bind-IsEnough (read_line input) _ (read_line-IsEnough input)
      (λ p h. sized-IsEnough (chunk_size p.0) p.1)

pub read_trailer-IsEnough :
    (fuel : ℕ) (input : Input) → length input < fuel → IsEnough (read_trailer fuel input)
unfolding read_trailer
read_trailer-IsEnough zero input room = absurd (omega (arith, room))
read_trailer-IsEnough (suc fuel) input room =
    bind-IsEnough (read_line input) _ (read_line-IsEnough input) (λ p h.
      either-IsEnough (str_eq p.0 []) _ _ (ok-IsEnough _)
        (read_trailer-IsEnough fuel p.1 (omega (arith, room, read_line-ok input p.0 p.1 h))))

chunked_loop-IsEnough :
    (fuel limit : ℕ) (body : List ℕ) (input : Input)
    → length input < fuel
    → IsEnough (chunked_loop fuel limit body input)
unfolding chunked_loop
chunked_loop-IsEnough zero limit body input room = absurd (omega (arith, room))
chunked_loop-IsEnough (suc fuel) limit body input room =
    bind-IsEnough (read_chunk_size input) _ (read_chunk_size-IsEnough input) (λ p h.
      let shorter : length p.1 < fuel = omega (arith, room, read_chunk_size-ok input p.0 p.1 h) in
      either-IsEnough (p.0 == 0) _ _
        (bind-IsEnough (read_trailer fuel p.1) _ (read_trailer-IsEnough fuel p.1 shorter)
          (λ q k. ok-IsEnough _))
        (either-IsEnough _ _ _
          (bind-IsEnough (read_exact p.0 p.1) _ (read_exact-IsEnough p.0 p.1) (λ q k.
            bind-IsEnough (read_line q.1) _ (read_line-IsEnough q.1) (λ r l.
              let (_, _, left) = read_exact-ok p.0 p.1 q.0 q.1 k in
              chunked_loop-IsEnough fuel limit (body ++ q.0) r.1
                (omega (arith, shorter, left, read_line-ok q.1 r.0 r.1 l)))))
          (err-IsEnough _ _ tt)))

-- Reading a body in chunks never runs out of the fuel that the input's length gives.
pub read_chunked-IsEnough : (limit : ℕ) (input : Input) → IsEnough (read_chunked limit input)
unfolding read_chunked
read_chunked-IsEnough limit input =
    chunked_loop-IsEnough (suc (length input)) limit [] input (omega arith)

-- What a read that succeeds leaves is no longer than its input.
read_trailer-ok :
    (fuel : ℕ) (input : Input) (a : Unit {0}) (rest : Input)
    → read_trailer fuel input ≡ ok (a, rest)
    → length rest ≤ length input
unfolding read_trailer
read_trailer-ok zero input a rest h = absurd (false≢true (ap is_ok h))
read_trailer-ok (suc fuel) input a rest h =
    let ((line, later), e, f) = bind-ok (read_line input) _ (a, rest) h in
    elim (if-cases (str_eq line []) _ _ _ f) [
      | inl (_, g) ↦
          let same : length later ≡ length rest = ap (λ p. length p.1) (ok-injective _ _ g) in
          omega (arith, same, read_line-ok input line later e)
      | inr (_, g) ↦
          omega (arith, read_trailer-ok fuel later a rest g, read_line-ok input line later e)
    ]

chunked_loop-ok :
    (fuel limit : ℕ) (body : List ℕ) (input : Input) (out rest : List ℕ)
    → chunked_loop fuel limit body input ≡ ok (out, rest)
    → length rest ≤ length input
unfolding chunked_loop
chunked_loop-ok zero limit body input out rest h = absurd (false≢true (ap is_ok h))
chunked_loop-ok (suc fuel) limit body input out rest h =
    let ((size, later), e, f) = bind-ok (read_chunk_size input) _ (out, rest) h in
    let first : length later < length input = read_chunk_size-ok input size later e in
    elim (if-cases (size == 0) _ _ _ f) [
      | inl (_, last) ↦
          let ((u, left), g, k) = bind-ok (read_trailer fuel later) _ (out, rest) last in
          let same : length left ≡ length rest = ap (λ p. length p.1) (ok-injective _ _ k) in
          omega (arith, first, same, read_trailer-ok fuel later u left g)
      | inr (_, next) ↦
          let (_, f1) = then_ok (leb ((length body + size) % 2 ^ 64) limit) _ _ _ next in
          let ((chunk, middle), g, f2) = bind-ok (read_exact size later) _ (out, rest) f1 in
          let ((line, left), k, f3) = bind-ok (read_line middle) _ (out, rest) f2 in
          let (_, _, sum) = read_exact-ok size later chunk middle g in
          omega (
            arith,
            first,
            sum,
            read_line-ok middle line left k,
            chunked_loop-ok fuel limit (body ++ chunk) left out rest f3,
          )
    ]

pub read_chunked-ok :
    (limit : ℕ) (input : Input) (out rest : List ℕ)
    → read_chunked limit input ≡ ok (out, rest)
    → length rest ≤ length input
unfolding read_chunked
read_chunked-ok limit input out rest h =
    chunked_loop-ok (suc (length input)) limit [] input out rest h
