-- ===== src/Server/Body/Bounds.antt =====
-- agent_server.rs: what reading from the connection takes, and how much it gives.
use michoi.Common.{
  ℕ, zero, suc, ◌+◌, ◌%◌, ◌^◌, ◌≤◌, ◌<◌, true, Option, none, some, List, [], ◌∷◌, ◌++◌, ◌≡◌, ap,
  inl, inr, length, take, drop, ltb, leb, ◌==◌, str_eq, Result, ok, is_ok, if-cases, bind-ok,
  else_ok, then_ok, ok-injective, length-take, length-drop, length-append, arith,
}
use mathlib.Core.Bool.{false≢true}
use mathlib.Core.Path.{subst}
use michoi.Common.Bytes.{Str}
use michoi.Server.Body.{
  ReadError, Input, Read, read_exact, read_line_from, read_line, chunk_size, sized, read_chunk_size,
  read_trailer, chunked_turn, chunked_loop, read_chunked,
}

pub read_exact-ok :
    (n : ℕ) (input : Input) (bytes rest : List ℕ)
    → read_exact n input ≡ ok (bytes, rest)
    → (n < 2 ^ 63) × (length bytes ≡ n) × (length rest + n ≡ length input)
unfolding read_exact
read_exact-ok n input bytes rest h =
    let (small, h2) = else_ok (leb (2 ^ 63) n) _ _ _ h in
    let (enough, h3) = then_ok (leb n (length input)) _ _ _ h2 in
    let e = ok-injective _ _ h3 in
    let taken : length (take n input) ≡ length bytes = ap (λ p. length p.0) e in
    let left : length (drop n input) ≡ length rest = ap (λ p. length p.1) e in
    (ground arith, ground (arith, length-take n input), ground (arith, length-drop n input))

read_line_from-ok :
    (seen : Str) (input : Input) (line rest : List ℕ)
    → read_line_from seen input ≡ ok (line, rest)
    → length rest < length input
unfolding read_line_from
read_line_from-ok seen [] line rest h = absurd (false≢true (ap is_ok h))
read_line_from-ok seen (x ∷ xs) line rest h =
    elim (if-cases (str_eq (take 2 (x ∷ seen)) (10 ∷ 13 ∷ [])) _ _ _ h) [
      | inl (_, e) ↦
          let same : length xs ≡ length rest = ap (λ p. length p.1) (ok-injective _ _ e) in
          omega (arith, same)
      | inr (_, e) ↦
          let (_, more) = else_ok (ltb 1024 (length (x ∷ seen))) _ _ _ e in
          omega (arith, read_line_from-ok (x ∷ seen) xs line rest more)
    ]

pub read_line-ok :
    (input : Input) (line rest : List ℕ)
    → read_line input ≡ ok (line, rest)
    → length rest < length input
unfolding read_line
read_line-ok input line rest h = read_line_from-ok [] input line rest h

sized-ok :
    (o : Option ℕ) (input : Input) (n : ℕ) (rest : List ℕ)
    → sized o input ≡ ok (n, rest)
    → input ≡ rest
sized-ok none input n rest h = absurd (false≢true (ap is_ok h))
sized-ok (some k) input n rest h = ap (λ p. p.1) (ok-injective _ _ h)

pub read_chunk_size-ok :
    (input : Input) (n : ℕ) (rest : List ℕ)
    → read_chunk_size input ≡ ok (n, rest)
    → length rest < length input
unfolding read_chunk_size
read_chunk_size-ok input n rest h =
    let ((line, later), e, f) = bind-ok (read_line input) _ (n, rest) h in
    let same : length later ≡ length rest = ap length (sized-ok (chunk_size line) later n rest f) in
    omega (arith, same, read_line-ok input line later e)

-- A chunk that was read fits what was allowed, since no vector is as long as a wrapped sum needs.
chunk_fits :
    (limit have size : ℕ)
    → limit < 2 ^ 62
    → have ≤ limit
    → size < 2 ^ 63
    → leb ((have + size) % 2 ^ 64) limit ≡ true
    → have + size ≤ limit
chunk_fits limit have size room small vector h = ground arith

IsBounded : ℕ → Result ReadError (List ℕ × Input) → Type 0
IsBounded limit r = (body rest : List ℕ) → r ≡ ok (body, rest) → length body ≤ limit

chunked_turn-IsBounded :
    (again : List ℕ → Input → Read (List ℕ)) (fuel limit : ℕ) (body : List ℕ) (size : ℕ)
    (input : Input)
    → limit < 2 ^ 62
    → length body ≤ limit
    → ((more : List ℕ) (later : Input) → length more ≤ limit → IsBounded limit (again more later))
    → IsBounded limit (chunked_turn again fuel limit body (size, input))
unfolding IsBounded
chunked_turn-IsBounded again fuel limit body size input room fits h out rest e =
    elim (if-cases (size == 0) _ _ _ e) [
      | inl (_, last) ↦
          let ((_, later), _, f) = bind-ok (read_trailer fuel input) _ (out, rest) last in
          let same : length body ≤ limit → length out ≤ limit =
            subst (λ b. length body ≤ limit → length b ≤ limit) (ap (λ p. p.0) (ok-injective _ _ f))
              (λ x. x) in
          same fits
      | inr (_, next) ↦
          let (allowed, f) = then_ok (leb ((length body + size) % 2 ^ 64) limit) _ _ _ next in
          let ((chunk, middle), g, f2) = bind-ok (read_exact size input) _ (out, rest) f in
          let ((_, later), _, f3) = bind-ok (read_line middle) _ (out, rest) f2 in
          let (vector, full, _) = read_exact-ok size input chunk middle g in
          let more : length (body ++ chunk) ≤ limit = omega (
            arith,
            length-append body chunk,
            full,
            chunk_fits limit (length body) size room fits vector allowed,
          ) in
          h (body ++ chunk) later more out rest f3
    ]

chunked_loop-IsBounded :
    (fuel limit : ℕ) (body : List ℕ) (input : Input)
    → limit < 2 ^ 62
    → length body ≤ limit
    → IsBounded limit (chunked_loop fuel limit body input)
unfolding chunked_loop IsBounded
chunked_loop-IsBounded zero limit body input room fits out rest e = absurd (false≢true (ap is_ok e))
chunked_loop-IsBounded (suc fuel) limit body input room fits out rest e =
    let ((size, later), _, f) = bind-ok (read_chunk_size input) _ (out, rest) e in
    chunked_turn-IsBounded (chunked_loop fuel limit) fuel limit body size later room fits
      (λ more next small. chunked_loop-IsBounded fuel limit more next room small) out rest f

pub read_chunked-IsBounded :
    (limit : ℕ) (input : Input) (body rest : List ℕ)
    → limit < 2 ^ 62
    → read_chunked limit input ≡ ok (body, rest)
    → length body ≤ limit
unfolding read_chunked IsBounded
read_chunked-IsBounded limit input body rest room e =
    chunked_loop-IsBounded (suc (length input)) limit [] input room (ground arith) body rest e
