-- ===== src/Protocol.antt =====
-- protocol.rs: the PENGUIN0 wire format. Stations, endpoint blocks, messages and media fragments,
-- with their encoders and parsers. A byte slice is a list of numbers.
pub mod Family
pub mod Op
pub mod Builders
pub mod RoundTrip
pub mod Discovery
pub mod Split
pub mod Jpeg
use michoi.Common.{
  ℕ, zero, suc, ◌+◌, ◌-◌, ◌%◌, Bool, true, false, not, ◌&&◌, ◌||◌, Option, none, some, List, [],
  ◌∷◌, ◌++◌,
}
use michoi.Common.{
  length, take, drop, replicate, get_or, ltb, leb, ◌==◌, if◌then◌else◌, str_eq, Result, ok, err,
  ◌>>=◌, to_option,
}
use michoi.Common.Bytes.{Str, ascii, u16_le, u32_le, of_le16, of_le32}
use michoi.Net.{Ipv4Addr, octets, from_utf8_lossy}

abbrev pub magic : List ℕ
magic = ascii "PENGUIN0"

abbrev pub control_port : ℕ
control_port = 10000

abbrev pub discovery_port : ℕ
discovery_port = 10008

abbrev pub media_jpeg : ℕ
media_jpeg = 1

abbrev pub media_audio : ℕ
media_audio = 3

pub data ProtocolError : Type 0 where
  short bad_magic station_too_long bad_station bad_audio_length : ProtocolError

pub record Station : Type 0 where
  pub id : Str
  pub ip : Ipv4Addr

-- `raw[..end]`, where `end` is the position of the first zero byte, or the end.
abbrev pub until_nul : List ℕ → List ℕ
until_nul [] = []
until_nul (x ∷ xs) = let rest = until_nul xs in if x == 0 then [] else x ∷ rest

unfoldable pub pack_station : Station → Result ProtocolError (List ℕ)
pack_station s =
    if ltb 20 (length s.id)
    then err station_too_long
    else ok (s.id ++ (replicate (20 - length s.id) 0 ++ octets s.ip))

unfoldable pub parse_station : List ℕ → Result ProtocolError Station
parse_station raw =
    if ltb (length raw) 24
    then err bad_station
    else ok (record {
      id = from_utf8_lossy (until_nul (take 20 raw));
      ip = record {
        a = get_or raw 20 0;
        b = get_or raw 21 0;
        c = get_or raw 22 0;
        d = get_or raw 23 0;
      };
    })

pub record Endpoints : Type 0 where
  pub door : Station
  pub room : Station

unfoldable pub pack_endpoints : Endpoints → Result ProtocolError (List ℕ)
pack_endpoints e = do door ← pack_station e.door; room ← pack_station e.room; ok (door ++ room)

unfoldable pub parse_endpoints : List ℕ → Result ProtocolError Endpoints
parse_endpoints raw = if ltb (length raw) 48 then err short else do
  door ← parse_station (take 24 raw)
  room ← parse_station (take 24 (drop 24 raw))
  ok (record { door = door; room = room })

pub record Message : Type 0 where
  pub family : ℕ
  pub opcode : ℕ
  pub declared : ℕ
  pub reserved : List ℕ
  pub body : List ℕ
  pub raw : List ℕ

pub record MediaFragment : Type 0 where
  pub media_type : ℕ
  pub sequence : ℕ
  pub fragment_count : ℕ
  pub fragment_index : ℕ
  pub valid_length : ℕ
  pub payload : List ℕ

-- Little-endian words at an offset.
abbrev pub le16_at : List ℕ → ℕ → ℕ
le16_at raw i = of_le16 (get_or raw i 0) (get_or raw (i + 1) 0)

abbrev pub le32_at : List ℕ → ℕ → ℕ
le32_at raw i =
    of_le32 (get_or raw i 0) (get_or raw (i + 1) 0) (get_or raw (i + 2) 0) (get_or raw (i + 3) 0)

unfoldable pub parse_message : List ℕ → Result ProtocolError Message
parse_message raw =
    if ltb (length raw) 32
    then err short
    else if not (str_eq (take 8 raw) magic)
    then err bad_magic
    else ok (record {
      family = le16_at raw 8;
      opcode = le32_at raw 10;
      declared = le32_at raw 14;
      reserved = take 14 (drop 18 raw);
      body = drop 32 raw;
      raw = raw;
    })

unfoldable pub is_session_like : Message → Bool
is_session_like m = m.family == Family.session || m.family == Family.monitor

unfoldable pub message_endpoints : Message → Option Endpoints
message_endpoints m =
    if is_session_like m && leb 48 (length m.body)
    then to_option (parse_endpoints (take 48 m.body))
    else none

unfoldable pub message_media : Message → Option MediaFragment
message_media m =
    let h = take 10 (drop 48 m.body) in
    let payload = drop 58 m.body in
    let valid_length = le16_at h 8 in
    if not (is_session_like m) || not (m.opcode == Op.media) || ltb (length m.body) 58
    then none
    else if ltb (length payload) valid_length
    then none
    else some (record {
      media_type = le16_at h 0;
      sequence = le16_at h 2;
      fragment_count = le16_at h 4;
      fragment_index = le16_at h 6;
      valid_length = valid_length;
      payload = take valid_length payload;
    })

unfoldable pub packet : ℕ → ℕ → ℕ → List ℕ → List ℕ
packet family opcode declared body =
    magic ++ (u16_le family ++ (u32_le opcode ++ (u32_le declared ++ (replicate 14 0 ++ body))))
