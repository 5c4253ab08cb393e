-- ===== src/Protocol/Discovery.antt =====
-- protocol.rs: the UDP 10008 discovery messages.
use michoi.Common.{
  ℕ, ◌-◌, Option, none, some, List, [], ◌∷◌, ◌++◌, length, replicate, ltb, ◌==◌, if◌then◌else◌,
  Result, ok, err,
}
use michoi.Common.Bytes.{Str}
use michoi.Net.{from_utf8_lossy}
use michoi.Protocol.{ProtocolError, station_too_long, until_nul}

-- The name behind a leading byte `tag`.
abbrev pub named : ℕ → List ℕ → Option Str
named tag [] = none
named tag (x ∷ rest) = if x == tag then some (from_utf8_lossy (until_nul rest)) else none

unfoldable pub discovery_request_room : List ℕ → Option Str
discovery_request_room payload = named 1 payload

unfoldable pub discovery_reply_room : List ℕ → Option Str
discovery_reply_room payload = named 2 payload

-- A buffer of `size` zeros with the tag and the name copied to its front.
abbrev pub tagged : ℕ → ℕ → Str → List ℕ
tagged tag size room_id = tag ∷ (room_id ++ replicate (size - 1 - length room_id) 0)

unfoldable pub discovery_request : Str → Result ProtocolError (List ℕ)
discovery_request room_id =
    if ltb 34 (length room_id) then err station_too_long else ok (tagged 1 100 room_id)

unfoldable pub discovery_reply : Str → Result ProtocolError (List ℕ)
discovery_reply room_id =
    if ltb 34 (length room_id) then err station_too_long else ok (tagged 2 35 room_id)
