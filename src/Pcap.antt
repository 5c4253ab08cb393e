-- ===== src/Pcap.antt =====
-- pcap.rs: the reader of classic captures. The file is the list of its bytes, so that the only I/O
-- error is its end.
pub mod Agreement
pub mod Capture
use michoi.Common.{
  ℕ, ◌+◌, ◌-◌, ◌*◌, ◌/◌, ◌%◌, ◌^◌, zero, suc, Bool, true, false, not, ◌||◌, Option, none, some,
  List, [], ◌∷◌,
}
use michoi.Common.{length, take, drop, get_or, ltb, ◌==◌, if◌then◌else◌, str_eq, Result, ok, err}
use michoi.Common.Bytes.{of_le32}
use michoi.Net.{Ipv4Addr}
use michoi.Ethernet.{be16_at, ip_at, skip_tags, header_length}
use Prim.Native.Nat.{min}

pub data PcapError : Type 0 where
  format : PcapError

pub record UdpRecord : Type 0 where
  pub frame : ℕ
  pub timestamp_micros : ℕ
  pub source_ip : Ipv4Addr
  pub destination_ip : Ipv4Addr
  pub source_port : ℕ
  pub destination_port : ℕ
  pub payload : List ℕ

-- What is read of the IPv4 packet.
unfoldable pub decode_ip : ℕ → List ℕ → Option UdpRecord
decode_ip frame ip =
    let ihl = header_length ip in
    let udp = drop ihl ip in
    let udp_len = be16_at udp 4 in
    if ltb ihl 20 || ltb (length ip) (ihl + 8) || not (get_or ip 9 0 == 17)
    then none
    else if ltb udp_len 8
    then none
    else some (record {
      frame = frame;
      timestamp_micros = 0;
      source_ip = ip_at ip 12;
      destination_ip = ip_at ip 16;
      source_port = be16_at udp 0;
      destination_port = be16_at udp 2;
      payload = take (min (length udp) udp_len - 8) (drop 8 udp);
    })

abbrev pub decode_tagged : ℕ → Option (ℕ × List ℕ) → Option UdpRecord
decode_tagged frame none = none
decode_tagged frame (some (ether_type, ip)) =
    if not (ether_type == 0x0800) || ltb (length ip) 20 then none else decode_ip frame ip

unfoldable pub decode_udp : ℕ → List ℕ → Option UdpRecord
decode_udp frame raw =
    if ltb (length raw) 14
    then none
    else decode_tagged frame (skip_tags (be16_at raw 12) (drop 14 raw))

-- The byte order and the fractions of a second that the magic tells.
unfoldable pub format_of : List ℕ → Option (Bool × ℕ)
format_of global =
    if str_eq (take 4 global) (0xd4 ∷ 0xc3 ∷ 0xb2 ∷ 0xa1 ∷ [])
    then some (true, 1000000)
    else if str_eq (take 4 global) (0xa1 ∷ 0xb2 ∷ 0xc3 ∷ 0xd4 ∷ [])
    then some (false, 1000000)
    else if str_eq (take 4 global) (0x4d ∷ 0x3c ∷ 0xb2 ∷ 0xa1 ∷ [])
    then some (true, 1000000000)
    else if str_eq (take 4 global) (0xa1 ∷ 0xb2 ∷ 0x3c ∷ 0x4d ∷ [])
    then some (false, 1000000000)
    else none

abbrev pub u32_at : Bool → List ℕ → ℕ → ℕ
u32_at true raw i =
    of_le32 (get_or raw i 0) (get_or raw (i + 1) 0) (get_or raw (i + 2) 0) (get_or raw (i + 3) 0)
u32_at false raw i =
    of_le32 (get_or raw (i + 3) 0) (get_or raw (i + 2) 0) (get_or raw (i + 1) 0) (get_or raw i 0)

abbrev pub base_of : Option ℕ → ℕ → ℕ
base_of none nanos = nanos
base_of (some base) nanos = base

-- `nanos - base` wraps in a release build.
abbrev pub stamped : ℕ → ℕ → UdpRecord → UdpRecord
stamped nanos base r = record r { timestamp_micros = (nanos + 2 ^ 64 - base) % 2 ^ 64 / 1000 }

abbrev pub with_record : ℕ → ℕ → Option UdpRecord → List UdpRecord → List UdpRecord
with_record nanos base none rest = rest
with_record nanos base (some r) rest = stamped nanos base r ∷ rest

abbrev pub prepend :
    ℕ → ℕ → Option UdpRecord → Result PcapError (List UdpRecord) → Result PcapError (List UdpRecord)
prepend nanos base r (err e) = err e
prepend nanos base r (ok rest) = ok (with_record nanos base r rest)

-- The loop over the records, on fuel: the length of what is left is enough, a record takes sixteen
-- bytes at least.
unfoldable pub read_records :
    ℕ → Bool → ℕ → Option ℕ → ℕ → List ℕ → Result PcapError (List UdpRecord)
read_records zero little scale first_ns frame rest = ok []
read_records (suc fuel) little scale first_ns frame rest =
    let captured = u32_at little rest 8 in
    let nanos = u32_at little rest 0 * 1000000000 + u32_at little rest 4 * (1000000000 / scale) in
    let base = base_of first_ns nanos in
    let number = (frame + 1) % 2 ^ 32 in
    let body = drop 16 rest in
    let later = read_records fuel little scale (some base) number (drop captured body) in
    if ltb (length rest) 16
    then ok []
    else if ltb (length body) captured
    then err format
    else prepend nanos base (decode_udp number (take captured body)) later

abbrev read_format : Option (Bool × ℕ) → List ℕ → Result PcapError (List UdpRecord)
read_format none rest = err format
read_format (some (little, scale)) rest = read_records (length rest) little scale none 0 rest

unfoldable pub read_udp : List ℕ → Result PcapError (List UdpRecord)
read_udp file =
    if ltb (length file) 24
    then err format
    else read_format (format_of (take 24 file)) (drop 24 file)
