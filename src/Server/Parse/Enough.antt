-- ===== src/Server/Parse/Enough.antt =====
-- agent_server.rs: reading a request takes bytes and ends.
use michoi.Common.{
  inl, inr, ℕ, ◌≤◌, ◌<◌, Option, none, some, List, [], ◌∷◌, ◌≡◌, ap, length, take, leb, str_eq,
  Result, ok, err, is_ok, if-cases, bind-ok, then_ok, ok-injective, arith,
}
use mathlib.Core.Bool.{false≢true}
use michoi.Common.Bytes.{Str, ascii}
use michoi.Common.Text.{from_str_radix, split_whitespace}
use michoi.Net.{from_utf8_lossy}
use michoi.Server.{Request, header}
use michoi.Server.Body.{Input}
use michoi.Server.Body.Bounds.{read_exact-ok}
use michoi.Server.Body.Enough.{
  IsEnough, ok-IsEnough, err-IsEnough, bind-IsEnough, either-IsEnough, read_exact-IsEnough,
  read_chunked-IsEnough, read_chunked-ok,
}
use michoi.Server.Parse.{
  read_head, split_lines, from_words, from_lines, parse_head, read_body, read_body_of, sized_body,
  finish, read_request, max_body, max_head, is_chunked,
}

read_head-IsEnough : (seen : Str) (input : Input) → IsEnough (read_head seen input)
unfolding read_head
read_head-IsEnough seen [] = ok-IsEnough _
read_head-IsEnough seen (x ∷ rest) =
    either-IsEnough _ _ _ (ok-IsEnough _)
      (either-IsEnough _ _ _ (read_head-IsEnough (x ∷ seen) rest) (err-IsEnough _ _ tt))

from_words-IsEnough : (words lines : List Str) → IsEnough (from_words words lines)
from_words-IsEnough [] lines = err-IsEnough _ _ tt
from_words-IsEnough (method ∷ []) lines = err-IsEnough _ _ tt
from_words-IsEnough (method ∷ (target ∷ [])) lines = ok-IsEnough _
from_words-IsEnough (method ∷ (target ∷ (version ∷ _))) lines = ok-IsEnough _

from_lines-IsEnough : (lines : List Str) → IsEnough (from_lines lines)
from_lines-IsEnough [] = from_words-IsEnough [] []
from_lines-IsEnough (first ∷ lines) = from_words-IsEnough (split_whitespace first) lines

sized_body-IsEnough : (o : Option ℕ) (input : Input) → IsEnough (sized_body o input)
sized_body-IsEnough none input = err-IsEnough _ _ tt
sized_body-IsEnough (some n) input =
    either-IsEnough (leb n max_body) _ _ (read_exact-IsEnough n input) (err-IsEnough _ _ tt)

read_body_of-IsEnough :
    (request : Request) (input : Input) (o : Option Str) → IsEnough (read_body_of request input o)
read_body_of-IsEnough request input (some text) = sized_body-IsEnough (from_str_radix 10 text) input
read_body_of-IsEnough request input none =
    either-IsEnough (is_chunked request) _ _ (read_chunked-IsEnough max_body input) (ok-IsEnough _)

read_body-IsEnough : (request : Request) (input : Input) → IsEnough (read_body request input)
unfolding read_body
read_body-IsEnough request input =
    either-IsEnough (str_eq request.path (ascii "/v1/talk")) _ _ (ok-IsEnough _)
      (read_body_of-IsEnough request input (header (ascii "content-length") request))

finish-IsEnough : (o : Option Str) (input : Input) → IsEnough (finish o input)
unfolding parse_head
finish-IsEnough none input = ok-IsEnough _
finish-IsEnough (some head) input =
    bind-IsEnough (parse_head head) _ (from_lines-IsEnough (split_lines (from_utf8_lossy head)))
      (λ request _.
        bind-IsEnough (read_body request input) _ (read_body-IsEnough request input)
          (λ p _. ok-IsEnough _))

pub read_request-IsEnough : (input : Input) → IsEnough (read_request input)
unfolding read_request
read_request-IsEnough input =
    bind-IsEnough (read_head [] input) _ (read_head-IsEnough [] input)
      (λ p _. finish-IsEnough p.0 p.1)

-- What is left behind a head that was read.
read_head-ok :
    (seen : Str) (input : Input) (head : Str) (rest : Input)
    → read_head seen input ≡ ok (some head, rest)
    → length rest < length input
unfolding read_head
read_head-ok seen [] head rest h = absurd (false≢true (ap (λ p. is_given p.0) (ok-injective _ _ h)))
  where
    is_given : Option Str → michoi.Common.Bool
    is_given none = michoi.Common.false
    is_given (some _) = michoi.Common.true
read_head-ok seen (x ∷ xs) head rest h =
    elim (if-cases (str_eq (take 4 (x ∷ seen)) (10 ∷ 13 ∷ 10 ∷ 13 ∷ [])) _ _ _ h) [
      | inl (_, e) ↦
          let same : length xs ≡ length rest = ap (λ p. length p.1) (ok-injective _ _ e) in
          omega (arith, same)
      | inr (_, e) ↦
          let (_, more) = then_ok (leb (length (x ∷ seen)) max_head) _ _ _ e in
          omega (arith, read_head-ok (x ∷ seen) xs head rest more)
    ]

sized_body-ok :
    (o : Option ℕ) (input body rest : List ℕ)
    → sized_body o input ≡ ok (body, rest)
    → length rest ≤ length input
sized_body-ok none input body rest h = absurd (false≢true (ap is_ok h))
sized_body-ok (some n) input body rest h =
    let (_, e) = then_ok (leb n max_body) _ _ _ h in
    let (_, _, sum) = read_exact-ok n input body rest e in omega (arith, sum)

read_body_of-ok :
    (request : Request) (input : Input) (o : Option Str) (body rest : List ℕ)
    → read_body_of request input o ≡ ok (body, rest)
    → length rest ≤ length input
read_body_of-ok request input (some text) body rest h =
    sized_body-ok (from_str_radix 10 text) input body rest h
read_body_of-ok request input none body rest h = elim (if-cases (is_chunked request) _ _ _ h) [
  | inl (_, e) ↦ read_chunked-ok max_body input body rest e
  | inr (_, e) ↦
      let same : length input ≡ length rest = ap (λ p. length p.1) (ok-injective _ _ e) in
      omega (arith, same)
]

read_body-ok :
    (request : Request) (input body rest : List ℕ)
    → read_body request input ≡ ok (body, rest)
    → length rest ≤ length input
unfolding read_body
read_body-ok request input body rest h =
    elim (if-cases (str_eq request.path (ascii "/v1/talk")) _ _ _ h) [
      | inl (_, e) ↦
          let same : length input ≡ length rest = ap (λ p. length p.1) (ok-injective _ _ e) in
          omega (arith, same)
      | inr (_, e) ↦
          read_body_of-ok request input (header (ascii "content-length") request) body rest e
    ]

finish-ok :
    (head : Str) (input : Input) (r : Option Request) (rest : Input)
    → finish (some head) input ≡ ok (r, rest)
    → length rest ≤ length input
finish-ok head input r rest h =
    let (request, _, f) = bind-ok (parse_head head) _ (r, rest) h in
    let ((body, later), e, g) = bind-ok (read_body request input) _ (r, rest) f in
    let same : length later ≡ length rest = ap (λ p. length p.1) (ok-injective _ _ g) in
    omega (arith, same, read_body-ok request input body later e)

-- A request that is read takes a byte at least.
pub read_request-ok :
    (input : Input) (request : Request) (rest : Input)
    → read_request input ≡ ok (some request, rest)
    → length rest < length input
unfolding read_request
read_request-ok input request rest h =
    let ((head, later), e, f) = bind-ok (read_head [] input) _ (some request, rest) h in
    after head later e f
  where
    after :
        (head : Option Str) (later : Input)
        → read_head [] input ≡ ok (head, later)
        → finish head later ≡ ok (some request, rest)
        → length rest < length input
    after none later e f = absurd (false≢true (ap (λ p. given p.0) (ok-injective _ _ f)))
      where
        given : Option Request → michoi.Common.Bool
        given none = michoi.Common.false
        given (some _) = michoi.Common.true
    after (some head) later e f =
        omega
          (arith, read_head-ok [] input head later e, finish-ok head later (some request) rest f)
