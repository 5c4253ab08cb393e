-- ===== src/Protocol/RoundTrip.antt =====
-- protocol.rs: what the parsers make of the encoders' bytes.
use michoi.Common.{ℕ, zero, suc, ◌-◌, ◌%◌, ◌^◌, ◌≤◌, ◌<◌, true, false, List, [], ◌∷◌, ◌++◌}
use michoi.Common.{length, take, replicate, ltb, ok, err, ◌>>=◌}
use michoi.Common.{
  ◌≡◌, refl, sym, ap, ◌∙◌, ◌≢◌, arith, length-append, take-append, drop-append, get_or-append,
  take_all, All,
}
use michoi.Common.Bytes.{Str}
use michoi.Net.{octets, from_utf8_lossy, IsUtf8}
use michoi.Protocol.{
  Station, Endpoints, station_too_long, Message, until_nul, pack_station, parse_station,
  pack_endpoints, parse_endpoints, parse_message, packet, magic,
}
use mathlib.Core.List.{append_assoc}
use michoi.Common.{str_eq, str_eq_refl, ◌/◌}
use michoi.Common.Bytes.{length-zeros, of_le16, of_le32}

-- A station's name, as the wire can carry it: a `String` of at most 20 bytes with no zero byte.
pub record IsWireId (id : Str) : Type 0 where
  pub fits : length id ≤ 20
  pub no_nul : All (λ x. x ≢ 0) id
  pub text : IsUtf8 id

until_nul-replicate : (k : ℕ) → until_nul (replicate k 0) ≡ []
until_nul-replicate zero = refl
until_nul-replicate (suc k) = refl

pub until_nul-append :
    (id : Str) (k : ℕ) → All (λ x. x ≢ 0) id → until_nul (id ++ replicate k 0) ≡ id
until_nul-append [] k h = until_nul-replicate k
until_nul-append (x ∷ id) k h = ground (arith, h.0, until_nul-append id k h.1)

-- The 24 bytes of a station that fits.
pub station_block : Station → List ℕ
station_block s = s.id ++ (replicate (20 - length s.id) 0 ++ octets s.ip)

pub length-station_block : (s : Station) → length s.id ≤ 20 → length (station_block s) ≡ 24
unfolding station_block
length-station_block s h = omega (
  arith,
  length-append s.id (replicate (20 - length s.id) 0 ++ octets s.ip),
  length-append (replicate (20 - length s.id) 0) (octets s.ip),
  length-zeros (20 - length s.id),
)

pub pack_station_fits : (s : Station) → length s.id ≤ 20 → pack_station s ≡ ok (station_block s)
unfolding pack_station station_block
pack_station_fits s h = ground arith

-- A station is refused exactly if its name is longer than 20 bytes, and then with that error.
pub pack_station_long : (s : Station) → 20 < length s.id → pack_station s ≡ err station_too_long
unfolding pack_station
pack_station_long s h = ground arith

padded_id : Station → List ℕ
padded_id s = s.id ++ replicate (20 - length s.id) 0

length-padded_id : (s : Station) → length s.id ≤ 20 → length (padded_id s) ≡ 20
unfolding padded_id
length-padded_id s h =
    omega
      (arith, length-append s.id (replicate (20 - length s.id) 0), length-zeros (20 - length s.id))

station_block-padded : (s : Station) → station_block s ≡ padded_id s ++ octets s.ip
unfolding station_block padded_id
station_block-padded s = sym (append_assoc s.id (replicate (20 - length s.id) 0) (octets s.ip))

until_nul-padded : (s : Station) → All (λ x. x ≢ 0) s.id → until_nul (padded_id s) ≡ s.id
unfolding padded_id
until_nul-padded s h = until_nul-append s.id (20 - length s.id) h

parse-station_block : (s : Station) → IsWireId s.id → parse_station (station_block s) ≡ ok s
unfolding parse_station
parse-station_block s w =
    let pre : List ℕ = padded_id s in
    let n : length pre ≡ 20 = length-padded_id s w.fits in
    let long : ltb (length (station_block s)) 24 ≡ false =
      ground (arith, length-station_block s w.fits) in
    let name : from_utf8_lossy (until_nul (take 20 (pre ++ octets s.ip))) ≡ s.id =
      ap (λ t. from_utf8_lossy (until_nul t)) (take-append pre (octets s.ip) 20 n)
      ∙ ap from_utf8_lossy (until_nul-padded s w.no_nul)
      ∙ w.text in
    rw (
      long,
      station_block-padded s,
      name,
      get_or-append pre (octets s.ip) 20 0 0 n,
      get_or-append pre (octets s.ip) 20 1 0 n,
      get_or-append pre (octets s.ip) 20 2 0 n,
      get_or-append pre (octets s.ip) 20 3 0 n,
    )

-- A packed station parses back to itself, if its name is one that the wire can carry.
pub parse-pack_station : (s : Station) → IsWireId s.id → (pack_station s >>= parse_station) ≡ ok s
parse-pack_station s w = rw (pack_station_fits s w.fits) (parse-station_block s w)

pub endpoints_block : Endpoints → List ℕ
endpoints_block e = station_block e.door ++ station_block e.room

unfoldable pub FitWire : Endpoints → Type 0
FitWire e = (length e.door.id ≤ 20) × (length e.room.id ≤ 20)

pub length-endpoints_block : (e : Endpoints) → FitWire e → length (endpoints_block e) ≡ 48
unfolding endpoints_block FitWire
length-endpoints_block e h = omega (
  arith,
  length-append (station_block e.door) (station_block e.room),
  length-station_block e.door h.0,
  length-station_block e.room h.1,
)

pub pack_endpoints_fits : (e : Endpoints) → FitWire e → pack_endpoints e ≡ ok (endpoints_block e)
unfolding pack_endpoints endpoints_block FitWire
pack_endpoints_fits e h = rw (pack_station_fits e.door h.0, pack_station_fits e.room h.1)

both_fit : (e : Endpoints) → IsWireId e.door.id → IsWireId e.room.id → FitWire e
unfolding FitWire
both_fit e d r = (d.fits, r.fits)

pub parse-endpoints_block :
    (e : Endpoints)
    → IsWireId e.door.id
    → IsWireId e.room.id
    → parse_endpoints (endpoints_block e) ≡ ok e
unfolding parse_endpoints endpoints_block
parse-endpoints_block e d r =
    let door : List ℕ = station_block e.door in
    let room : List ℕ = station_block e.room in
    let n : length door ≡ 24 = length-station_block e.door d.fits in
    let k : length room ≡ 24 = length-station_block e.room r.fits in
    let long : ltb (length (door ++ room)) 48 ≡ false = ground (arith, length-append door room) in
    rw (
      long,
      take-append door room 24 n,
      drop-append door room 24 n,
      take_all room 24 (omega arith),
      parse-station_block e.door d,
      parse-station_block e.room r,
    )

-- An endpoint block packs to 48 bytes that parse back to it, if both names are ones that the wire
-- can carry.
pub parse-pack_endpoints :
    (e : Endpoints)
    → IsWireId e.door.id
    → IsWireId e.room.id
    → (pack_endpoints e >>= parse_endpoints ≡ ok e)
      × ((b : List ℕ) × (pack_endpoints e ≡ ok b) × (length b ≡ 48))
parse-pack_endpoints e d r =
    let packed : pack_endpoints e ≡ ok (endpoints_block e) =
      pack_endpoints_fits e (both_fit e d r) in
    (
      rw packed (parse-endpoints_block e d r),
      (endpoints_block e, packed, length-endpoints_block e (both_fit e d r)),
    )

-- The message that a packet parses to.
abbrev pub message_of : ℕ → ℕ → ℕ → List ℕ → Message
message_of family opcode declared body = record {
  family = family;
  opcode = opcode;
  declared = declared;
  reserved = replicate 14 0;
  body = body;
  raw = packet family opcode declared body;
}

-- Parsing a packet gives back its header and its body, if the header's numbers fit their fields.
pub parse-packet :
    (family opcode declared : ℕ) (body : List ℕ)
    → family < 2 ^ 16
    → opcode < 2 ^ 32
    → declared < 2 ^ 32
    → parse_message (packet family opcode declared body)
      ≡ ok (message_of family opcode declared body)
unfolding parse_message packet
parse-packet family opcode declared body f o d =
    let le16 : of_le16 (family % 256) (family / 256 % 256) ≡ family = omega arith in
    let le32 : (v : ℕ)
        → v < 2 ^ 32
        → of_le32 (v % 256) (v / 256 % 256) (v / 65536 % 256) (v / 16777216 % 256) ≡ v =
      λ v h. omega arith in
    let long : ltb (length (packet family opcode declared body)) 32 ≡ false = ground arith in
    let magical : str_eq magic magic ≡ true = str_eq_refl magic in
    rw (long, magical, le16, le32 opcode o, le32 declared d)
