-- ===== src/Ethernet.antt =====
-- ethernet.rs: MAC addresses, and UDP datagrams in IPv4 in Ethernet, parsed and built. A frame is a
-- list of bytes; `>> 4` and `& 0x0f` of a byte are `/ 16` and `% 16`.
pub mod Checksum
pub mod RoundTrip
use michoi.Common.{
  ℕ, zero, suc, ◌+◌, ◌-◌, ◌*◌, ◌/◌, ◌%◌, Bool, true, false, not, ◌&&◌, ◌||◌, Option, none, some,
  List, [], ◌∷◌, ◌++◌,
}
use michoi.Common.{
  length, take, drop, get_or, ltb, leb, ◌==◌, if◌then◌else◌, str_eq, Result, ok, err, ◌>>=◌,
}
use michoi.Common.Bytes.{Str, u16_be, of_be16}
use michoi.Net.{Ipv4Addr, octets}

-- `MacAddress(pub [u8; 6])`
pub record MacAddress : Type 0 where
  pub bytes : List ℕ

abbrev pub mac_eq : MacAddress → MacAddress → Bool
mac_eq p q = str_eq p.bytes q.bytes

pub data EthernetError : Type 0 where
  bad_mac bad_frame too_large : EthernetError

-- The value of a hexadecimal digit.
abbrev hex_digit : ℕ → Option ℕ
hex_digit x =
    if leb b'0' x && leb x b'9'
    then some (x - 48)
    else if leb b'a' x && leb x b'f'
    then some (x - 87)
    else if leb b'A' x && leb x b'F'
    then some (x - 55)
    else none

abbrev two_digits : Option ℕ → Option ℕ → Option ℕ
two_digits (some h) (some l) = some (16 * h + l)
two_digits _ _ = none

-- `u8::from_str_radix(value, 16)` on two bytes: it takes a plus sign before a digit.
abbrev hex_octet : List ℕ → Option ℕ
hex_octet (x ∷ (y ∷ [])) = if x == b'+' then hex_digit y else two_digits (hex_digit x) (hex_digit y)
hex_octet _ = none

-- `text.split(':')`
abbrev to_first : ℕ → List (List ℕ) → List (List ℕ)
to_first x [] = (x ∷ []) ∷ []
to_first x (p ∷ ps) = (x ∷ p) ∷ ps

unfoldable pub split_colon : Str → List (List ℕ)
split_colon [] = [] ∷ []
split_colon (x ∷ xs) = let rest = split_colon xs in if x == b':' then [] ∷ rest else to_first x rest

abbrev cons_octet : Option ℕ → Result EthernetError (List ℕ) → Result EthernetError (List ℕ)
cons_octet none rest = err bad_mac
cons_octet (some v) (ok vs) = ok (v ∷ vs)
cons_octet (some v) (err e) = err e

-- The loop over the six octets; nothing may follow the last one.
unfoldable pub parse_octets : ℕ → List (List ℕ) → Result EthernetError (List ℕ)
parse_octets zero [] = ok []
parse_octets zero (p ∷ ps) = err bad_mac
parse_octets (suc n) [] = err bad_mac
parse_octets (suc n) (p ∷ ps) = cons_octet (hex_octet p) (parse_octets n ps)

unfoldable pub parse_mac : Str → Result EthernetError MacAddress
parse_mac text = do bytes ← parse_octets 6 (split_colon text); ok (record { bytes = bytes })

pub record EthernetUdp : Type 0 where
  pub source_mac : MacAddress
  pub destination_mac : MacAddress
  pub source_ip : Ipv4Addr
  pub destination_ip : Ipv4Addr
  pub source_port : ℕ
  pub destination_port : ℕ
  pub payload : List ℕ

abbrev pub be16_at : List ℕ → ℕ → ℕ
be16_at raw i = of_be16 (get_or raw i 0) (get_or raw (i + 1) 0)

abbrev pub ip_at : List ℕ → ℕ → Ipv4Addr
ip_at raw i = record {
  a = get_or raw i 0;
  b = get_or raw (i + 1) 0;
  c = get_or raw (i + 2) 0;
  d = get_or raw (i + 3) 0;
}

-- `matches!(ether_type, 0x8100 | 0x88a8)`
abbrev pub is_tag : ℕ → Bool
is_tag ether_type = ether_type == 0x8100 || ether_type == 0x88a8

-- The loop over the VLAN tags, on what follows the offset: the type behind them and the rest.
unfoldable pub skip_tags : ℕ → List ℕ → Option (ℕ × List ℕ)
skip_tags ether_type (a ∷ (b ∷ (c ∷ (d ∷ rest)))) =
    let deeper = skip_tags (of_be16 c d) rest in
    if is_tag ether_type then deeper else some (ether_type, a ∷ (b ∷ (c ∷ (d ∷ rest))))
skip_tags ether_type rest = if is_tag ether_type then none else some (ether_type, rest)

abbrev pub header_length : List ℕ → ℕ
header_length ip = get_or ip 0 0 % 16 * 4

-- What is read of the IPv4 packet behind the Ethernet header.
unfoldable pub parse_ip : List ℕ → List ℕ → Result EthernetError EthernetUdp
parse_ip frame ip =
    let ihl = header_length ip in
    let udp = drop ihl ip in
    let udp_length = be16_at udp 4 in
    if not (get_or ip 0 0 / 16 == 4) || not (get_or ip 9 0 == 17)
    then err bad_frame
    else if ltb ihl 20 || ltb (length ip) (ihl + 8)
    then err bad_frame
    else if ltb udp_length 8 || ltb (length udp) udp_length
    then err bad_frame
    else ok (record {
      source_mac = record { bytes = take 6 (drop 6 frame) };
      destination_mac = record { bytes = take 6 frame };
      source_ip = ip_at ip 12;
      destination_ip = ip_at ip 16;
      source_port = be16_at udp 0;
      destination_port = be16_at udp 2;
      payload = take (udp_length - 8) (drop 8 udp);
    })

abbrev pub parse_tagged : List ℕ → Option (ℕ × List ℕ) → Result EthernetError EthernetUdp
parse_tagged frame none = err bad_frame
parse_tagged frame (some (ether_type, ip)) =
    if not (ether_type == 0x0800) || ltb (length ip) 28 then err bad_frame else parse_ip frame ip

unfoldable pub parse_frame : List ℕ → Result EthernetError EthernetUdp
parse_frame frame =
    if ltb (length frame) 14
    then err bad_frame
    else parse_tagged frame (skip_tags (be16_at frame 12) (drop 14 frame))

-- The loop of `internet_checksum`: words added with the carry folded back.
unfoldable pub checksum_loop : ℕ → List ℕ → ℕ
checksum_loop sum [] = sum
checksum_loop sum (h ∷ []) = let s = sum + h * 256 in s % 65536 + s / 65536
checksum_loop sum (h ∷ (l ∷ rest)) =
    let s = sum + of_be16 h l in checksum_loop (s % 65536 + s / 65536) rest

-- `!(sum as u16)`
unfoldable pub internet_checksum : List ℕ → ℕ
internet_checksum data_bytes = 65535 - checksum_loop 0 data_bytes % 65536

-- The IPv4 header with a given checksum field.
unfoldable pub ip_header : ℕ → ℕ → ℕ → Ipv4Addr → Ipv4Addr → List ℕ
ip_header ip_length identification checksum source_ip destination_ip =
    0x45
    ∷ 0
    ∷ (u16_be ip_length
        ++ (u16_be identification
            ++ (u16_be 0x4000
                ++ (64 ∷ 17 ∷ (u16_be checksum ++ (octets source_ip ++ octets destination_ip))))))

unfoldable pub udp_header : ℕ → ℕ → ℕ → List ℕ
udp_header source_port destination_port udp_length =
    u16_be source_port ++ (u16_be destination_port ++ (u16_be udp_length ++ u16_be 0))

unfoldable pub build_udp_ipv4 :
    MacAddress
    → MacAddress
    → Ipv4Addr
    → Ipv4Addr
    → ℕ
    → ℕ
    → List ℕ
    → ℕ
    → Result EthernetError (List ℕ)
build_udp_ipv4 source_mac destination_mac source_ip destination_ip source_port destination_port
      payload identification =
    let udp_length = 8 + length payload in
    let ip_length = 20 + udp_length in
    let checksum =
      internet_checksum (ip_header ip_length identification 0 source_ip destination_ip) in
    if ltb 65535 ip_length
    then err too_large
    else ok (
        destination_mac.bytes
        ++ (source_mac.bytes
            ++ (u16_be 0x0800
                ++ (ip_header ip_length identification checksum source_ip destination_ip
                    ++ (udp_header source_port destination_port udp_length ++ payload)))))
