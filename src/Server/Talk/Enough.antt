-- ===== src/Server/Talk/Enough.antt =====
-- agent_server.rs: the loop of a talk upload ends.
use michoi.Common.{
  inl, inr, zero, suc, ℕ, ◌≤◌, ◌<◌, Bool, true, false, not, ◌||◌, Option, none, some, List, [],
  ◌++◌, ◌≡◌, refl, ap, length, drop, ◌==◌, Result, ok, err, is_ok, if-cases, if-both, bind-ok,
  ok-injective, length-drop, arith,
}
use Prim.Native.Nat.{min}
use mathlib.Core.Bool.{false≢true}
use michoi.Common.Bytes.{Str, ascii}
use michoi.Common.Text.{from_str_radix}
use michoi.Api.Control.{AgentApi}
use michoi.Server.{Request, Response, header, media_type_l16}
use michoi.Server.Body.{Input, ReadError, read_exact, read_line, read_trailer, read_chunk_size}
use michoi.Server.Body.Bounds.{read_exact-ok, read_line-ok, read_chunk_size-ok}
use michoi.Server.Body.Enough.{
  IsEnough, ok-IsEnough, err-IsEnough, bind-IsEnough, either-IsEnough, read_exact-IsEnough,
  read_line-IsEnough, read_trailer-IsEnough, read_chunk_size-IsEnough,
}
use michoi.Server.Parse.{is_chunked}
use michoi.Server.Negotiate.{require_content_type}
use michoi.Server.Talk.{
  chunk_piece, plain_piece, piece, or_zero, after_forward, after_piece, forward_all, talk_loop,
  parsed_length, remaining_of, is_given, upload, upload_typed, talk_upload, TalkOutcome, Forwarded,
}

abbrev is_last : {A : Type 0} → Option A → Bool
is_last none = true
is_last (some _) = false

module _ {S : Type 0} (api : AgentApi S) (clock : ℕ → ℕ) where
  chunk_piece-IsEnough :
      (fuel : ℕ) (remaining : Option ℕ) (size : ℕ) (input : Input)
      → length input < fuel
      → IsEnough (chunk_piece api clock fuel remaining (size, input))
  chunk_piece-IsEnough fuel remaining size input room =
      either-IsEnough (size == 0) _ _
        (bind-IsEnough (read_trailer fuel input) _ (read_trailer-IsEnough fuel input room)
          (λ q _. ok-IsEnough _))
        (bind-IsEnough (read_exact (min size 65536) input) _
          (read_exact-IsEnough (min size 65536) input)
          (λ q _. bind-IsEnough (read_line q.1) _ (read_line-IsEnough q.1) (λ r _. ok-IsEnough _)))

  plain_piece-IsEnough :
      (arrived left : ℕ) (input : Input) → IsEnough (plain_piece api clock arrived left input)
  plain_piece-IsEnough arrived left input =
      either-IsEnough _ _ _ (ok-IsEnough _)
        (either-IsEnough _ _ _ (err-IsEnough _ _ tt) (ok-IsEnough _))

  piece-IsEnough :
      (fuel arrived : ℕ) (chunked : Bool) (remaining : Option ℕ) (input : Input)
      → length input ≤ fuel
      → IsEnough (piece api clock fuel arrived chunked remaining input)
  piece-IsEnough fuel arrived chunked remaining input room =
      either-IsEnough chunked _ _
        (bind-IsEnough (read_chunk_size input) _ (read_chunk_size-IsEnough input) (λ p h.
          chunk_piece-IsEnough fuel remaining p.0 p.1
            (omega (arith, room, read_chunk_size-ok input p.0 p.1 h))))
        (plain_piece-IsEnough arrived (or_zero api clock remaining) input)

  -- A piece that is not the end of the body takes a byte at least.
  chunk_piece-ok :
      (fuel : ℕ) (remaining : Option ℕ) (size : ℕ) (input : Input) (p : List ℕ × Option ℕ)
      (rest : Input)
      → chunk_piece api clock fuel remaining (size, input) ≡ ok (some p, rest)
      → length rest ≤ length input
  chunk_piece-ok fuel remaining size input p rest h = elim (if-cases (size == 0) _ _ _ h) [
    | inl (_, last) ↦
        let ((u, left), _, k) = bind-ok (read_trailer fuel input) _ (some p, rest) last in
        absurd (false≢true (ap (λ q. not (is_last q.0)) (ok-injective _ _ k)))
    | inr (_, next) ↦
        let ((chunk, middle), g, f2) =
          bind-ok (read_exact (min size 65536) input) _ (some p, rest) next in
        let ((line, left), k, f3) = bind-ok (read_line middle) _ (some p, rest) f2 in
        let (_, _, sum) = read_exact-ok (min size 65536) input chunk middle g in
        let same : length left ≡ length rest = ap (λ q. length q.1) (ok-injective _ _ f3) in
        omega (arith, sum, same, read_line-ok middle line left k)
  ]

  plain_piece-ok :
      (arrived left : ℕ) (input : Input) (p : List ℕ × Option ℕ) (rest : Input)
      → plain_piece api clock arrived left input ≡ ok (some p, rest)
      → length rest < length input
  plain_piece-ok arrived left input p rest h =
      let n : ℕ = min (min left 4096) (min (suc arrived) (length input)) in
      elim (if-cases (left == 0) _ _ _ h) [
        | inl (_, e) ↦ absurd (false≢true (ap (λ q. not (is_last q.0)) (ok-injective _ _ e)))
        | inr (_, e) ↦ elim (if-cases (n == 0) _ _ _ e) [
          | inl (_, f) ↦ absurd (false≢true (ap is_ok f))
          | inr (some_read, f) ↦
              let same : length (drop n input) ≡ length rest =
                ap (λ q. length q.1) (ok-injective _ _ f) in
              ground (arith, same, some_read, length-drop n input)
        ]
      ]

  piece-ok :
      (fuel arrived : ℕ) (chunked : Bool) (remaining : Option ℕ) (input : Input)
      (p : List ℕ × Option ℕ) (rest : Input)
      → piece api clock fuel arrived chunked remaining input ≡ ok (some p, rest)
      → length rest < length input
  piece-ok fuel arrived chunked remaining input p rest h = elim (if-cases chunked _ _ _ h) [
    | inl (_, e) ↦
        let ((size, later), g, f) = bind-ok (read_chunk_size input) _ (some p, rest) e in
        omega (
          arith,
          read_chunk_size-ok input size later g,
          chunk_piece-ok fuel remaining size later p rest f,
        )
    | inr (_, e) ↦ plain_piece-ok arrived (or_zero api clock remaining) input p rest e
  ]

  after_forward-IsEnough :
      (again : List ℕ → S → TalkOutcome api clock) (o : Forwarded api clock)
      → ((pending : List ℕ) (s : S) → IsEnough (again pending s).1)
      → IsEnough (after_forward api clock again o).1
  after_forward-IsEnough again (s, ok pending) h = h pending s
  after_forward-IsEnough again (s, err e) h = ok-IsEnough _

  after_piece-IsEnough :
      (again : Option ℕ → List ℕ → Input → S → TalkOutcome api clock) (pending : List ℕ) (s : S)
      (r : Result ReadError (Option (List ℕ × Option ℕ) × Input))
      → IsEnough r
      → ((p : List ℕ × Option ℕ) (rest : Input)
          → r ≡ ok (some p, rest)
          → (left : List ℕ) (t : S) → IsEnough (again p.1 left rest t).1)
      → IsEnough (after_piece api clock again pending s r).1
  unfolding IsEnough
  after_piece-IsEnough again pending s (err e) h k = h
  after_piece-IsEnough again pending s (ok (none, rest)) h k = tt
  after_piece-IsEnough again pending s (ok (some (bytes, remaining), rest)) h k =
      after_forward-IsEnough (λ left later. again remaining left rest later)
        (forward_all api clock (pending ++ bytes) s) (k (bytes, remaining) rest refl)

  talk_loop-IsEnough :
      (fuel : ℕ) (arrivals : ℕ → ℕ) (chunked : Bool) (remaining : Option ℕ) (pending : List ℕ)
      (input : Input) (s : S)
      → length input < fuel
      → IsEnough (talk_loop api clock fuel arrivals chunked remaining pending input s).1
  unfolding talk_loop
  talk_loop-IsEnough zero arrivals chunked remaining pending input s room =
      absurd (omega (arith, room))
  talk_loop-IsEnough (suc fuel) arrivals chunked remaining pending input s room =
      after_piece-IsEnough (talk_loop api clock fuel arrivals chunked) pending s
        (piece api clock fuel (arrivals fuel) chunked remaining input)
        (piece-IsEnough fuel (arrivals fuel) chunked remaining input (omega (arith, room)))
        (λ p rest e left t.
          talk_loop-IsEnough fuel arrivals chunked p.1 left rest t
            (omega (arith, room, piece-ok fuel (arrivals fuel) chunked remaining input p rest e)))

  upload-IsEnough :
      (arrivals : ℕ → ℕ) (request : Request) (input : Input) (busy : Bool) (s : S)
      (r : Result ReadError (Option ℕ))
      → IsEnough r
      → IsEnough (upload api clock arrivals request input busy s r).1
  unfolding IsEnough
  upload-IsEnough arrivals request input busy s (err e) h = h
  upload-IsEnough arrivals request input busy s (ok remaining) h =
      if-both {A = TalkOutcome api clock} (λ o. IsEnough o.1)
        (not (is_chunked request || is_given api clock remaining)) _ _ (λ _. tt)
        (λ _.
          if-both {A = TalkOutcome api clock} (λ o. IsEnough o.1) busy _ _ (λ _. tt)
            (λ _.
              talk_loop-IsEnough (suc (length input)) arrivals (is_chunked request) remaining []
                input s (omega arith)))

  parsed_length-IsEnough : (o : Option ℕ) → IsEnough (parsed_length api clock o)
  parsed_length-IsEnough none = err-IsEnough _ _ tt
  parsed_length-IsEnough (some n) = ok-IsEnough _

  remaining_of-IsEnough : (o : Option Str) → IsEnough (remaining_of api clock o)
  remaining_of-IsEnough none = ok-IsEnough _
  remaining_of-IsEnough (some text) = parsed_length-IsEnough (from_str_radix 10 text)

  upload_typed-IsEnough :
      (arrivals : ℕ → ℕ) (request : Request) (input : Input) (busy : Bool) (s : S)
      (r : Result Response (Unit {0}))
      → IsEnough (upload_typed api clock arrivals request input busy s r).1
  upload_typed-IsEnough arrivals request input busy s (err response) = ok-IsEnough _
  upload_typed-IsEnough arrivals request input busy s (ok _) =
      upload-IsEnough arrivals request input busy s _
        (remaining_of-IsEnough (header (ascii "content-length") request))

  -- A talk upload never runs out of the fuel that the input's length gives.
  pub talk_upload-IsEnough :
      (arrivals : ℕ → ℕ) (request : Request) (input : Input) (busy : Bool) (s : S)
      → IsEnough (talk_upload api clock arrivals request input busy s).1
  unfolding talk_upload
  talk_upload-IsEnough arrivals request input busy s =
      upload_typed-IsEnough arrivals request input busy s
        (require_content_type request media_type_l16)
