-- ===== src/Server/Negotiate.antt =====
-- agent_server.rs: content negotiation and authentication. The quality values are 32-bit floats:
-- their type and what the source does with them are a parameter.
pub mod Best
pub mod Match
use michoi.Common.{◌-◌}
use michoi.Common.{
  ℕ, zero, suc, Bool, true, false, not, ◌&&◌, ◌||◌, Option, none, some, List, [], ◌∷◌, ◌++◌, length,
  take, drop, str_eq, if◌then◌else◌, Result, ok, err,
}
use michoi.Common.Bytes.{Str, ascii}
use michoi.Common.Text.{trim, split, split_once, to_lower, same_word, starts_with, ends_with}
use michoi.Server.{Request, Response, header, query_param, negotiation}
use michoi.Server.Body.{first_part}

-- `f32`: `parse` is `from_str`, `is_positive` is `> 0.0`, and `is_above` is `>` of two numbers that
-- are positive.
pub record Quality : Type 1 where
  pub Q : Type 0
  pub one : Q
  pub zero_q : Q
  pub parse : Str → Option Q
  pub is_positive : Q → Bool
  pub is_above : Q → Q → Bool

unfoldable pub media_base : Str → Str
media_base value = to_lower (trim (first_part (split b';' value)))

module _ (quality : Quality) where
  abbrev pub or_zero : Option quality.Q → quality.Q
  or_zero none = quality.zero_q
  or_zero (some q) = q

  abbrev pub param_q : quality.Q → Option (Str × Str) → quality.Q
  param_q q none = q
  param_q q (some (k, v)) =
      if same_word (trim k) (ascii "q") then or_zero (quality.parse (trim v)) else q

  -- The loop over the parameters: the last quality counts.
  unfoldable pub quality_of : quality.Q → List Str → quality.Q
  quality_of q [] = q
  quality_of q (param ∷ rest) = quality_of (param_q q (split_once b'=' param)) rest

  -- One item of the header, with its quality.
  abbrev pub candidate : List Str → List (quality.Q × Str)
  candidate [] = []
  candidate (base ∷ params) =
      let q = quality_of quality.one params in
      let wanted = to_lower (trim base) in
      if not (str_eq wanted []) && quality.is_positive q then (q, wanted) ∷ [] else []

  unfoldable pub candidates : List Str → List (quality.Q × Str)
  candidates [] = []
  candidates (item ∷ items) = candidate (split b';' item) ++ candidates items

  -- `sort_by`, the highest quality first. The sort keeps equals in their order, which is that of
  -- their indices.
  unfoldable pub insert_by_quality :
      quality.Q × Str → List (quality.Q × Str) → List (quality.Q × Str)
  insert_by_quality c [] = c ∷ []
  insert_by_quality (q, wanted) ((r, other) ∷ rest) =
      let later = insert_by_quality (q, wanted) rest in
      if quality.is_above r q then (r, other) ∷ later else (q, wanted) ∷ (r, other) ∷ rest

  unfoldable pub sort_by_quality : List (quality.Q × Str) → List (quality.Q × Str)
  sort_by_quality [] = []
  sort_by_quality (c ∷ cs) = insert_by_quality c (sort_by_quality cs)

-- `wanted.strip_suffix("/*")` and the test of the prefix.
abbrev pub in_family : Str → Str → Bool
in_family wanted base =
    ends_with (ascii "/*") wanted && starts_with (take (length wanted - 1) wanted) base

unfoldable pub accepts : Str → Str → Bool
accepts wanted offer =
    str_eq wanted (media_base offer)
    || (str_eq wanted (ascii "*/*") || in_family wanted (media_base offer))

abbrev pub first_match : Str → List Str → Option Str
first_match wanted [] = none
first_match wanted (offer ∷ rest) =
    if accepts wanted offer then some offer else first_match wanted rest

abbrev pub or_else {ℓ} : {A : Type ℓ} → Option A → Option A → Option A
or_else none later = later
or_else (some a) later = some a

module _ (quality : Quality) where
  unfoldable pub pick : List (quality.Q × Str) → List Str → Option Str
  pick [] offered = none
  pick ((q, wanted) ∷ rest) offered = or_else (first_match wanted offered) (pick rest offered)

  abbrev negotiate_with : Option Str → List Str → Option Str
  negotiate_with none offered = none
  negotiate_with (some accept) offered =
      pick (sort_by_quality quality (candidates quality (split b',' accept))) offered

  unfoldable pub negotiate : Option Str → List Str → Option Str
  negotiate accept offered = negotiate_with accept offered

  abbrev or_refuse : List Str → Option Str → Result Response Str
  or_refuse offered none = err (negotiation 406 (ascii "not_acceptable") offered)
  or_refuse offered (some offer) = ok offer

  unfoldable pub require_accept : Request → List Str → Result Response Str
  require_accept request offered =
      or_refuse offered (negotiate (header (ascii "accept") request) offered)

abbrev same_base : Str → Option Str → Bool
same_base expected none = false
same_base expected (some value) = str_eq (media_base value) (media_base expected)

unfoldable pub require_content_type : Request → Str → Result Response (Unit {0})
require_content_type request expected =
    if same_base expected (header (ascii "content-type") request)
    then ok tt
    else err (negotiation 415 (ascii "unsupported_media_type") (expected ∷ []))

-- `strip_prefix("Bearer ")`, or in small letters, and the comparison.
abbrev pub presents : Str → Option Str → Bool
presents token none = false
presents token (some v) =
    (starts_with (ascii "Bearer ") v || starts_with (ascii "bearer ") v)
    && str_eq (trim (drop 7 v)) token

abbrev pub is_token : Str → Option Str → Bool
is_token token none = false
is_token token (some t) = str_eq t token

abbrev authorized_with : Request → Option Str → Bool
authorized_with request none = true
authorized_with request (some token) =
    presents token (header (ascii "authorization") request)
    || is_token token (query_param (ascii "token") request)

unfoldable pub authorized : Request → Option Str → Bool
authorized request token = authorized_with request token
