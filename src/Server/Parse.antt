-- ===== src/Server/Parse.antt =====
-- agent_server.rs: reading a request from the connection.
pub mod Bounds
pub mod Enough
use michoi.Common.{
  ℕ, zero, suc, ◌+◌, ◌*◌, Bool, true, false, not, Option, none, some, List, [], ◌∷◌, ◌++◌, length,
  take, drop, ltb, leb, ◌==◌, str_eq, if◌then◌else◌, Result, ok, err, ensure, ◌>>=◌, ◌>>◌,
}
use mathlib.Core.List.{reverse}
use michoi.Common.Bytes.{Str, ascii}
use michoi.Common.Text.{
  trim, split_once, split_whitespace, to_lower, same_word, contains, from_str_radix,
}
use michoi.Net.{from_utf8_lossy}
use michoi.Server.{Request, find_header, header}
use michoi.Server.Body.{
  ReadError, head_too_large, no_method, no_target, bad_length, body_too_large, Input, Read,
  read_exact, read_chunked,
}

abbrev pub max_head : ℕ
max_head = 16384

abbrev pub max_body : ℕ
max_body = 1048576

-- The loop over the bytes of the head, kept backwards. `none` is a client that closed.
unfoldable pub read_head : Str → Input → Read (Option Str)
read_head seen [] = ok (none, [])
read_head seen (x ∷ rest) =
    let next = read_head (x ∷ seen) rest in
    if str_eq (take 4 (x ∷ seen)) (10 ∷ 13 ∷ 10 ∷ 13 ∷ [])
    then ok (some (reverse (x ∷ seen)), rest)
    else if leb (length (x ∷ seen)) max_head
    then next
    else err head_too_large

abbrev onto_first : ℕ → List Str → List Str
onto_first x [] = (x ∷ []) ∷ []
onto_first x (p ∷ ps) = (x ∷ p) ∷ ps

-- `text.split("\r\n")`
unfoldable pub split_lines : Str → List Str
split_lines [] = [] ∷ []
split_lines (x ∷ []) = (x ∷ []) ∷ []
split_lines (x ∷ (y ∷ rest)) =
    let later = split_lines rest in
    let next = split_lines (y ∷ rest) in
    if str_eq (x ∷ y ∷ []) (13 ∷ 10 ∷ []) then [] ∷ later else onto_first x next

abbrev with_header_line : Option (Str × Str) → List (Str × Str) → List (Str × Str)
with_header_line none headers = headers
with_header_line (some (name, value)) headers = (to_lower (trim name), trim value) ∷ headers

-- The loop over the lines behind the first. An empty one has no colon.
unfoldable pub parse_headers : List Str → List (Str × Str)
parse_headers [] = []
parse_headers (line ∷ lines) = with_header_line (split_once b':' line) (parse_headers lines)

abbrev keeps_alive : Str → Option Str → Bool
keeps_alive version none = str_eq version (ascii "HTTP/1.1")
keeps_alive version (some v) =
    if str_eq (to_lower v) (ascii "close")
    then false
    else if str_eq (to_lower v) (ascii "keep-alive")
    then true
    else str_eq version (ascii "HTTP/1.1")

abbrev pub target_parts : Str → Option (Str × Str) → Str × Str
target_parts target none = (target, [])
target_parts target (some parts) = parts

abbrev request_of : Str → Str → Str → List (Str × Str) → Request
request_of method target version headers =
    let (path, query) = target_parts target (split_once b'?' target) in
    record {
      method = method;
      path = path;
      query = query;
      headers = headers;
      body = [];
      keep_alive = keeps_alive version (find_header (ascii "connection") headers);
    }

abbrev from_words : List Str → List Str → Result ReadError Request
from_words [] lines = err no_method
from_words (method ∷ []) lines = err no_target
from_words (method ∷ (target ∷ [])) lines =
    ok (request_of method target (ascii "HTTP/1.1") (parse_headers lines))
from_words (method ∷ (target ∷ (version ∷ _))) lines =
    ok (request_of method target version (parse_headers lines))

abbrev from_lines : List Str → Result ReadError Request
from_lines [] = from_words [] []
from_lines (first ∷ lines) = from_words (split_whitespace first) lines

-- The head as a request without its body.
unfoldable pub parse_head : Str → Result ReadError Request
parse_head head = from_lines (split_lines (from_utf8_lossy head))

abbrev pub holds {ℓ} : {A : Type ℓ} → (A → Bool) → Option A → Bool
holds test none = false
holds test (some v) = test v

-- Whether the head asks for the interim response before the body.
unfoldable pub expects_continue : Request → Bool
expects_continue request =
    holds (λ v. same_word v (ascii "100-continue")) (header (ascii "expect") request)

unfoldable pub is_chunked : Request → Bool
is_chunked request =
    holds (λ v. contains (ascii "chunked") (to_lower v))
      (header (ascii "transfer-encoding") request)

abbrev pub sized_body : Option ℕ → Input → Read (List ℕ)
sized_body none input = err bad_length
sized_body (some n) input = if leb n max_body then read_exact n input else err body_too_large

abbrev pub read_body_of : Request → Input → Option Str → Read (List ℕ)
read_body_of request input (some text) = sized_body (from_str_radix 10 text) input
read_body_of request input none =
    if is_chunked request then read_chunked max_body input else ok ([], input)

-- The body, where it is read before the request is handled.
unfoldable pub read_body : Request → Input → Read (List ℕ)
read_body request input =
    if str_eq request.path (ascii "/v1/talk")
    then ok ([], input)
    else read_body_of request input (header (ascii "content-length") request)

abbrev finish : Option Str → Input → Read (Option Request)
finish none input = ok (none, input)
finish (some head) input = do
  request ← parse_head head
  (body, rest) ← read_body request input
  ok (some (record request { body = body }), rest)

unfoldable pub read_request : Input → Read (Option Request)
read_request input = do (head, rest) ← read_head [] input; finish head rest
