-- ===== src/Protocol/Split.antt =====
-- protocol.rs: cutting a coalesced datagram into its messages.
pub mod Total
pub mod Recover
use michoi.Common.{
  ℕ, zero, suc, ◌+◌, ◌-◌, Bool, true, false, ◌&&◌, ◌||◌, Option, none, some, List, [], ◌∷◌, ◌++◌,
}
use michoi.Common.{length, take, drop, ltb, leb, ◌==◌, if◌then◌else◌, str_eq, Result, ok, err}
use michoi.Protocol.{Message, ProtocolError, magic, media_jpeg, media_audio, parse_message, le16_at}
use michoi.Protocol.Family
use michoi.Protocol.Op

abbrev session_or_monitor : Message → Bool
session_or_monitor m = m.family == Family.session || m.family == Family.monitor

abbrev media_size : ℕ → Option ℕ
media_size kind =
    if kind == media_jpeg then some 1290 else if kind == media_audio then some 602 else none

-- The size that a message's own header tells.
abbrev told_size : List ℕ → Message → Option ℕ
told_size raw m =
    if session_or_monitor m && (m.opcode == Op.media && leb 90 (length raw))
    then media_size (le16_at raw 80)
    else if leb 32 m.declared
    then some m.declared
    else if m.family == Family.session && m.opcode == Op.keepalive
    then some 80
    else none

abbrev size_of : List ℕ → Result ProtocolError Message → Option ℕ
size_of raw (ok m) = told_size raw m
size_of raw (err _) = none

unfoldable pub logical_size : List ℕ → Option ℕ
logical_size raw = size_of raw (parse_message raw)

abbrev one_further : Option ℕ → Option ℕ
one_further none = none
one_further (some p) = some (suc p)

-- `raw.windows(8).position(|w| w == MAGIC)`
unfoldable pub find_magic : List ℕ → Option ℕ
find_magic [] = none
find_magic (x ∷ xs) =
    let further = one_further (find_magic xs) in
    if str_eq (take 8 (x ∷ xs)) magic then some 0 else further

-- Behind the magic at the front: up to the next one, or all that is left.
abbrev until_next : List ℕ → Option ℕ → ℕ
until_next payload none = length payload
until_next payload (some p) = p + 8

abbrev fitting : List ℕ → Option ℕ → ℕ
fitting payload none = until_next payload (find_magic (drop 8 payload))
fitting payload (some n) =
    if leb n (length payload) then n else until_next payload (find_magic (drop 8 payload))

unfoldable pub segment_size : List ℕ → ℕ
segment_size payload = fitting payload (logical_size payload)

abbrev drop_to : List ℕ → Option ℕ → Option (List ℕ)
drop_to payload none = none
drop_to payload (some pos) = some (drop pos payload)

-- The start of the next message, if there is one.
unfoldable pub skip_to_magic : List ℕ → Option (List ℕ)
skip_to_magic payload =
    if str_eq (take 8 payload) magic then some payload else drop_to payload (find_magic payload)

abbrev cons_to : List ℕ → Option (List (List ℕ)) → Option (List (List ℕ))
cons_to x none = none
cons_to x (some xs) = some (x ∷ xs)

-- One round behind the skip: `break` where no magic is left or the size is zero.
abbrev split_round : (List ℕ → Option (List (List ℕ))) → Option (List ℕ) → Option (List (List ℕ))
split_round again none = some []
split_round again (some payload) =
    let size = segment_size payload in
    let rest = cons_to (take size payload) (again (drop size payload)) in
    if size == 0 then some [] else rest

-- The loop, on fuel: `none` if the fuel runs out.
unfoldable pub split_loop : ℕ → List ℕ → Option (List (List ℕ))
split_loop fuel [] = some []
split_loop zero (x ∷ xs) = none
split_loop (suc fuel) (x ∷ xs) = split_round (split_loop fuel) (skip_to_magic (x ∷ xs))

-- Every round takes a byte at least, so as many rounds as there are bytes are enough.
unfoldable pub split_coalesced : List ℕ → Option (List (List ℕ))
split_coalesced payload = split_loop (length payload) payload
