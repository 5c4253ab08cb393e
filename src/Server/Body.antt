-- ===== src/Server/Body.antt =====
-- agent_server.rs: reading a body from the connection. The input is the list of the bytes that still
-- arrive before the client closes.
pub mod Bounds
pub mod Enough
pub mod Lines
pub mod RoundTrip
use michoi.Common.{
  ℕ, zero, suc, ◌+◌, ◌-◌, ◌%◌, ◌^◌, Bool, true, false, Option, none, some, List, [], ◌∷◌, ◌++◌,
  length, take, drop, ltb, leb, ◌==◌, str_eq, if◌then◌else◌, Result, ok, err, ensure, ◌>>=◌, ◌>>◌,
  head?,
}
use mathlib.Core.List.{reverse}
use michoi.Common.Bytes.{Str, ascii}
use michoi.Common.Text.{trim, split, from_str_radix}
use michoi.Net.{from_utf8_lossy}

-- The errors that end a connection. The last one is a panic of the task: a vector of more than
-- `isize::MAX` bytes.
pub data ReadError : Type 0 where
  head_too_large no_method no_target bad_length body_too_large early_end closed_in_chunk
        line_too_long bad_chunk_size no_talk_length closed_in_talk out_of_fuel :
      ReadError
  capacity_overflow : ReadError

abbrev pub Input : Type 0
Input = List ℕ

abbrev pub Read : Type 0 → Type 0
Read A = Result ReadError (A × Input)

-- `vec![0; length]` and `read_exact`.
unfoldable pub read_exact : ℕ → Input → Read (List ℕ)
read_exact n input =
    if leb (2 ^ 63) n
    then err capacity_overflow
    else if leb n (length input)
    then ok (take n input, drop n input)
    else err early_end

-- The line so far is kept backwards.
unfoldable pub read_line_from : Str → Input → Read Str
read_line_from seen [] = err closed_in_chunk
read_line_from seen (x ∷ rest) =
    let next = read_line_from (x ∷ seen) rest in
    if str_eq (take 2 (x ∷ seen)) (10 ∷ 13 ∷ [])
    then ok (from_utf8_lossy (reverse (drop 2 (x ∷ seen))), rest)
    else if ltb 1024 (length (x ∷ seen))
    then err line_too_long
    else next

unfoldable pub read_line : Input → Read Str
read_line input = read_line_from [] input

abbrev pub first_part : List Str → Str
first_part [] = []
first_part (p ∷ ps) = p

abbrev sized : Option ℕ → Input → Read ℕ
sized none input = err bad_chunk_size
sized (some n) input = ok (n, input)

-- The number in a chunk's first line.
unfoldable pub chunk_size : Str → Option ℕ
chunk_size line = from_str_radix 16 (trim (first_part (split b';' line)))

unfoldable pub read_chunk_size : Input → Read ℕ
read_chunk_size input = do (line, rest) ← read_line input; sized (chunk_size line) rest

-- The loop over the trailer, up to an empty line, on fuel.
unfoldable pub read_trailer : ℕ → Input → Read (Unit {0})
read_trailer zero input = err out_of_fuel
read_trailer (suc fuel) input = do
  (line, rest) ← read_line input
  let more = read_trailer fuel rest in if str_eq line [] then ok (tt, rest) else more

-- One turn of the loop of `read_chunked`, with what the later turns do. The sum of the lengths is a
-- 64-bit word.
abbrev pub chunked_turn :
    (List ℕ → Input → Read (List ℕ)) → ℕ → ℕ → List ℕ → ℕ × Input → Read (List ℕ)
chunked_turn again fuel limit body (size, input) =
    let last = read_trailer fuel input >>= λ (_, rest). ok (body, rest) in
    let next = read_exact size input >>= λ (chunk, rest).
    read_line rest >>= λ (_, later). again (body ++ chunk) later in
    if size == 0
    then last
    else if leb ((length body + size) % 2 ^ 64) limit
    then next
    else err body_too_large

unfoldable pub chunked_loop : ℕ → ℕ → List ℕ → Input → Read (List ℕ)
chunked_loop zero limit body input = err out_of_fuel
chunked_loop (suc fuel) limit body input =
    read_chunk_size input >>= chunked_turn (chunked_loop fuel limit) fuel limit body

-- Each turn takes two bytes at least, so that the input's length is enough fuel.
unfoldable pub read_chunked : ℕ → Input → Read (List ℕ)
read_chunked limit input = chunked_loop (suc (length input)) limit [] input
