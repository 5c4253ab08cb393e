-- ===== src/Pcap/Agreement.antt =====
-- pcap.rs and ethernet.rs: the two readers of frames agree.
use michoi.Common.{
  ℕ, ◌+◌, false, not, ◌||◌, Option, none, some, List, ◌≡◌, refl, arith, inl, inr, ◌/◌,
}
use michoi.Common.{length, drop, get_or, ltb, ◌==◌, Result, ok, err, Bool-cases}
use michoi.Common.{or_left, or_right}
use michoi.Ethernet.{
  EthernetUdp, EthernetError, be16_at, header_length, skip_tags, parse_ip, parse_tagged,
  parse_frame,
}
use michoi.Pcap.{UdpRecord, decode_ip, decode_tagged, decode_udp}
use Prim.Native.Nat.{min}

-- The record of a capture that has the fields of a parsed datagram.
abbrev pub record_of : ℕ → EthernetUdp → UdpRecord
record_of frame u = record {
  frame = frame;
  timestamp_micros = 0;
  source_ip = u.source_ip;
  destination_ip = u.destination_ip;
  source_port = u.source_port;
  destination_port = u.destination_port;
  payload = u.payload;
}

-- What the reader of captures makes of a result of the parser.
abbrev pub Agrees : ℕ → Option UdpRecord → Result EthernetError EthernetUdp → Type 0
Agrees frame o (err _) = Unit {0}
Agrees frame o (ok u) = o ≡ some (record_of frame u)

min_of : (a b : ℕ) → ltb a b ≡ false → min a b ≡ b
min_of a b h = ground arith

decode_ip-Agrees :
    (frame : ℕ) (raw ip : List ℕ) → Agrees frame (decode_ip frame ip) (parse_ip raw ip)
unfolding decode_ip parse_ip
decode_ip-Agrees frame raw ip =
    let ihl : ℕ = header_length ip in
    let udp : List ℕ = drop ihl ip in
    let udp_len : ℕ = be16_at udp 4 in
    elim (Bool-cases (not (get_or ip 0 0 / 16 == 4) || not (get_or ip 9 0 == 17))) [
      | inl a ↦ rw a tt
      | inr a ↦ elim (Bool-cases (ltb ihl 20 || ltb (length ip) (ihl + 8))) [
        | inl b ↦ rw (a, b) tt
        | inr b ↦ elim (Bool-cases (ltb udp_len 8 || ltb (length udp) udp_len)) [
          | inl c ↦ rw (a, b, c) tt
          | inr c ↦
              let kind : not (get_or ip 9 0 == 17) ≡ false = or_right _ _ a in
              let told : ltb udp_len 8 ≡ false = or_left _ _ c in
              let whole : ltb (length udp) udp_len ≡ false = or_right _ _ c in
              let all : min (length udp) udp_len ≡ udp_len = min_of (length udp) udp_len whole in
              rw (a, b, c, kind, told, all) refl
        ]
      ]
    ]

decode_tagged-Agrees :
    (frame : ℕ) (raw : List ℕ) (o : Option (ℕ × List ℕ))
    → Agrees frame (decode_tagged frame o) (parse_tagged raw o)
decode_tagged-Agrees frame raw none = tt
decode_tagged-Agrees frame raw (some (ether_type, ip)) =
    elim (Bool-cases (not (ether_type == 0x0800) || ltb (length ip) 28)) [
      | inl a ↦ rw a tt
      | inr a ↦
          let kind : not (ether_type == 0x0800) ≡ false = or_left _ _ a in
          let room : ltb (length ip) 28 ≡ false = or_right _ _ a in
          let enough : ltb (length ip) 20 ≡ false = ground arith in
          rw (a, kind, enough) (decode_ip-Agrees frame raw ip)
    ]

-- Every frame that `EthernetUdp::parse` accepts is read from a capture as a record with the same
-- addresses, ports and payload, whatever its VLAN tags and IPv4 options; the number is the
-- record's own.
pub decode_udp-Agrees :
    (frame : ℕ) (raw : List ℕ) → Agrees frame (decode_udp frame raw) (parse_frame raw)
unfolding decode_udp parse_frame
decode_udp-Agrees frame raw = elim (Bool-cases (ltb (length raw) 14)) [
  | inl cut ↦ rw cut tt
  | inr whole ↦ rw whole (decode_tagged-Agrees frame raw (skip_tags (be16_at raw 12) (drop 14 raw)))
]
