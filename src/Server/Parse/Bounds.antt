-- ===== src/Server/Parse/Bounds.antt =====
-- agent_server.rs: the size of a request that was read.
use michoi.Common.{inr}
use michoi.Common.{inl}
use michoi.Common.{
  ℕ, ◌≤◌, Option, none, some, List, [], ◌≡◌, ap, length, leb, str_eq, ok, is_ok, if-cases, bind-ok,
  then_ok, ok-injective, arith,
}
use mathlib.Core.Bool.{false≢true}
use michoi.Common.Bytes.{Str, ascii}
use michoi.Common.Text.{from_str_radix}
use michoi.Server.{Request, header}
use michoi.Server.Body.{Input}
use michoi.Server.Body.Bounds.{read_exact-ok, read_chunked-IsBounded}
use michoi.Server.Parse.{
  read_head, parse_head, read_body, read_body_of, sized_body, finish, read_request, max_body,
  is_chunked,
}

sized_body-le :
    (o : Option ℕ) (input body rest : List ℕ)
    → sized_body o input ≡ ok (body, rest)
    → length body ≤ max_body
sized_body-le none input body rest h = absurd (false≢true (ap is_ok h))
sized_body-le (some n) input body rest h =
    let (small, e) = then_ok (leb n max_body) _ _ _ h in
    let (_, full, _) = read_exact-ok n input body rest e in ground arith

read_body_of-le :
    (request : Request) (input : Input) (o : Option Str) (body rest : List ℕ)
    → read_body_of request input o ≡ ok (body, rest)
    → length body ≤ max_body
read_body_of-le request input (some text) body rest h =
    sized_body-le (from_str_radix 10 text) input body rest h
read_body_of-le request input none body rest h = elim (if-cases (is_chunked request) _ _ _ h) [
  | inl (_, e) ↦ read_chunked-IsBounded max_body input body rest (omega arith) e
  | inr (_, e) ↦
      let empty : 0 ≡ length body = ap (λ p. length p.0) (ok-injective _ _ e) in
      omega (arith, empty)
]

read_body-le :
    (request : Request) (input body rest : List ℕ)
    → read_body request input ≡ ok (body, rest)
    → length body ≤ max_body
unfolding read_body
read_body-le request input body rest h =
    elim (if-cases (str_eq request.path (ascii "/v1/talk")) _ _ _ h) [
      | inl (_, e) ↦
          let empty : 0 ≡ length body = ap (λ p. length p.0) (ok-injective _ _ e) in
          omega (arith, empty)
      | inr (_, e) ↦
          read_body_of-le request input (header (ascii "content-length") request) body rest e
    ]

abbrev body_of : Option Request → List ℕ
body_of none = []
body_of (some request) = request.body

finish-le :
    (o : Option Str) (input : Input) (r : Option Request) (rest : List ℕ)
    → finish o input ≡ ok (r, rest)
    → length (body_of r) ≤ max_body
finish-le none input r rest h =
    let empty : 0 ≡ length (body_of r) = ap (λ p. length (body_of p.0)) (ok-injective _ _ h) in
    omega (arith, empty)
finish-le (some head) input r rest h =
    let (request, _, f) = bind-ok (parse_head head) _ (r, rest) h in
    let ((body, later), e, g) = bind-ok (read_body request input) _ (r, rest) f in
    let same : length body ≡ length (body_of r) =
      ap (λ p. length (body_of p.0)) (ok-injective _ _ g) in
    omega (arith, same, read_body-le request input body later e)

-- Whatever a client sends, with a declared length or in chunks, and whatever sizes it claims: a
-- request that is read has a body of at most 1 MiB.
pub read_request-body_le :
    (input : Input) (request : Request) (rest : List ℕ)
    → read_request input ≡ ok (some request, rest)
    → length request.body ≤ max_body
unfolding read_request
read_request-body_le input request rest h =
    let ((head, later), _, f) = bind-ok (read_head [] input) _ (some request, rest) h in
    finish-le head later (some request) rest f
