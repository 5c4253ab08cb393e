-- ===== src/Ethernet/RoundTrip.antt =====
-- ethernet.rs: a frame that the program builds is read back.
use michoi.Common.{some}
use michoi.Ethernet.{parse_tagged}
use michoi.Common.{
  ℕ, ◌+◌, ◌-◌, ◌/◌, ◌%◌, ◌≤◌, ◌<◌, Bool, false, List, [], ◌∷◌, ◌++◌, ◌≡◌, refl, ap, ◌∙◌, arith,
}
use michoi.Common.{length, take, drop, get_or, ltb, if◌then◌else◌, Result, ok, err, take_all}
use michoi.Common.Bytes.{u16_be, of_be16}
use michoi.Net.{Ipv4Addr}
use michoi.Ethernet.{
  bad_frame, MacAddress, EthernetError, EthernetUdp, parse_frame, parse_ip, skip_tags,
  build_udp_ipv4, ip_header, udp_header, internet_checksum,
}
use michoi.Common.{◌||◌, ◌>>=◌}

abbrev mac_of : ℕ → ℕ → ℕ → ℕ → ℕ → ℕ → MacAddress
mac_of a b c d e f = record { bytes = a ∷ b ∷ c ∷ d ∷ e ∷ f ∷ [] }

be16_of : (v : ℕ) → v < 65536 → of_be16 (v / 256 % 256) (v % 256) ≡ v
be16_of v h = omega arith

guards {ℓ} :
    {A : Type ℓ} (p q r : Bool) (bad good : A)
    → p ≡ false
    → q ≡ false
    → r ≡ false
    → (if p then bad else if q || r then bad else good) ≡ good
guards p q r bad good h k l = rw (h, k, l) refl

abbrev read_of : List ℕ → Ipv4Addr → Ipv4Addr → ℕ → ℕ → List ℕ → Result EthernetError EthernetUdp
read_of frame src dst sport dport payload = ok (record {
  source_mac = record { bytes = take 6 (drop 6 frame) };
  destination_mac = record { bytes = take 6 frame };
  source_ip = src;
  destination_ip = dst;
  source_port = sport;
  destination_port = dport;
  payload = payload;
})

-- What is read of the IPv4 packet that the program writes, behind any twelve bytes of addresses.
parse_ip-ip_header :
    (frame : List ℕ) (ip_length id checksum : ℕ) (src dst : Ipv4Addr) (sport dport : ℕ)
    (payload : List ℕ)
    → sport < 65536
    → dport < 65536
    → length payload ≤ 65507
    → parse_ip frame (
        ip_header ip_length id checksum src dst
        ++ (udp_header sport dport (8 + length payload) ++ payload))
      ≡ read_of frame src dst sport dport payload
unfolding parse_ip ip_header udp_header
parse_ip-ip_header frame ip_length id checksum src dst sport dport payload hs hd hp =
    let total : ℕ = 8 + length payload in
    let udp : List ℕ = udp_header sport dport total ++ payload in
    let ip : List ℕ = ip_header ip_length id checksum src dst ++ udp in
    let told : of_be16 (total / 256 % 256) (total % 256) ≡ total = be16_of total (omega arith) in
    let small : ltb total 8 ≡ false = ground arith in
    let long : ltb (length ip) 28 ≡ false = ground arith in
    let cut : ltb (length udp) total ≡ false = ground arith in
    let rest : take (total - 8) payload ≡ payload = take_all payload (total - 8) (omega arith) in
    let from : ℕ = of_be16 (sport / 256 % 256) (sport % 256) in
    let to : ℕ = of_be16 (dport / 256 % 256) (dport % 256) in
    rw told (
      guards (ltb (length ip) 28) (ltb total 8) (ltb (length udp) total) (err bad_frame)
        (read_of frame src dst from to (take (total - 8) payload)) long small cut
      ∙ ap (λ v. read_of frame src dst v to (take (total - 8) payload)) (be16_of sport hs)
      ∙ ap (λ v. read_of frame src dst sport v (take (total - 8) payload)) (be16_of dport hd)
      ∙ ap (λ v. read_of frame src dst sport dport v) rest)

six :
    (xs : List ℕ)
    → length xs ≡ 6
    → xs
      ≡ get_or xs 0 0
        ∷ get_or xs 1 0
        ∷ get_or xs 2 0
        ∷ get_or xs 3 0
        ∷ get_or xs 4 0
        ∷ get_or xs 5 0
        ∷ []
six [] h = absurd (omega (arith, h))
six (a ∷ []) h = absurd (omega (arith, h))
six (a ∷ (b ∷ [])) h = absurd (omega (arith, h))
six (a ∷ (b ∷ (c ∷ []))) h = absurd (omega (arith, h))
six (a ∷ (b ∷ (c ∷ (d ∷ [])))) h = absurd (omega (arith, h))
six (a ∷ (b ∷ (c ∷ (d ∷ (e ∷ []))))) h = absurd (omega (arith, h))
six (a ∷ (b ∷ (c ∷ (d ∷ (e ∷ (f ∷ [])))))) h = refl
six (a ∷ (b ∷ (c ∷ (d ∷ (e ∷ (f ∷ (g ∷ rest))))))) h = absurd (omega (arith, h))

-- The frame that `build_udp_ipv4` makes.
abbrev frame_of : List ℕ → List ℕ → Ipv4Addr → Ipv4Addr → ℕ → ℕ → List ℕ → ℕ → List ℕ
frame_of src_mac dst_mac src dst sport dport payload id =
    dst_mac
    ++ (src_mac
        ++ (u16_be 0x0800
            ++ (ip_header (20 + (8 + length payload)) id
                  (internet_checksum (ip_header (20 + (8 + length payload)) id 0 src dst)) src dst
                ++ (udp_header sport dport (8 + length payload) ++ payload))))

skip_plain : (ip : List ℕ) → skip_tags 2048 ip ≡ some (2048, ip)
unfolding skip_tags
skip_plain [] = refl
skip_plain (a ∷ []) = refl
skip_plain (a ∷ (b ∷ [])) = refl
skip_plain (a ∷ (b ∷ (c ∷ []))) = refl
skip_plain (a ∷ (b ∷ (c ∷ (d ∷ rest)))) = refl

ip_long :
    (ip_length id checksum : ℕ) (src dst : Ipv4Addr) (sport dport total : ℕ) (payload : List ℕ)
    → 28
      ≤ length
          (ip_header ip_length id checksum src dst ++ (udp_header sport dport total ++ payload))
unfolding ip_header udp_header
ip_long ip_length id checksum src dst sport dport total payload = omega arith

-- Without a tag, twelve bytes of addresses and the type of IPv4 stand before the packet.
parse_frame_plain :
    (a b c d e f g h i j k l : ℕ) (ip : List ℕ)
    → 28 ≤ length ip
    → (let frame : List ℕ = a ∷ b ∷ c ∷ d ∷ e ∷ f ∷ g ∷ h ∷ i ∷ j ∷ k ∷ l ∷ 8 ∷ 0 ∷ ip in
        parse_frame frame ≡ parse_ip frame ip)
unfolding parse_frame
parse_frame_plain a b c d e f g h i j k l ip room =
    let frame : List ℕ = a ∷ b ∷ c ∷ d ∷ e ∷ f ∷ g ∷ h ∷ i ∷ j ∷ k ∷ l ∷ 8 ∷ 0 ∷ ip in
    let long : ltb (length frame) 14 ≡ false = ground arith in
    let full : ltb (length ip) 28 ≡ false = ground arith in
    guards (ltb (length frame) 14) false false (err bad_frame)
      (parse_tagged frame (skip_tags 2048 ip)) long refl refl
    ∙ ap (parse_tagged frame) (skip_plain ip)
    ∙ guards (ltb (length ip) 28) false false (err bad_frame) (parse_ip frame ip) full refl refl

parse_frame-frame_of :
    (src_mac dst_mac : List ℕ) (src dst : Ipv4Addr) (sport dport : ℕ) (payload : List ℕ) (id : ℕ)
    → length src_mac ≡ 6
    → length dst_mac ≡ 6
    → sport < 65536
    → dport < 65536
    → length payload ≤ 65507
    → parse_frame (frame_of src_mac dst_mac src dst sport dport payload id)
      ≡ ok (record {
        source_mac = record { bytes = src_mac };
        destination_mac = record { bytes = dst_mac };
        source_ip = src;
        destination_ip = dst;
        source_port = sport;
        destination_port = dport;
        payload = payload;
      })
parse_frame-frame_of src_mac dst_mac src dst sport dport payload id hm hn hs hd hp =
    let ip_length : ℕ = 20 + (8 + length payload) in
    let checksum : ℕ = internet_checksum (ip_header ip_length id 0 src dst) in
    let ip : List ℕ =
      ip_header ip_length id checksum src dst
      ++ (udp_header sport dport (8 + length payload) ++ payload) in
    rw (six src_mac hm, six dst_mac hn)
      (parse_frame_plain _ _ _ _ _ _ _ _ _ _ _ _ ip
          (ip_long ip_length id checksum src dst sport dport (8 + length payload) payload)
        ∙ parse_ip-ip_header _ ip_length id checksum src dst sport dport payload hs hd hp)

-- A frame that is built from two MAC addresses of six octets, two ports below 2^16 and a payload of
-- at most 65507 bytes is built without an error, and reading it gives exactly these fields; any
-- addresses, identification and checksum.
pub parse-build_udp_ipv4 :
    (source_mac destination_mac : MacAddress) (source_ip destination_ip : Ipv4Addr)
    (source_port destination_port : ℕ) (payload : List ℕ) (identification : ℕ)
    → length source_mac.bytes ≡ 6
    → length destination_mac.bytes ≡ 6
    → source_port < 65536
    → destination_port < 65536
    → length payload ≤ 65507
    → (build_udp_ipv4 source_mac destination_mac source_ip destination_ip source_port
          destination_port payload identification
        >>= parse_frame)
      ≡ ok (record {
        source_mac = source_mac;
        destination_mac = destination_mac;
        source_ip = source_ip;
        destination_ip = destination_ip;
        source_port = source_port;
        destination_port = destination_port;
        payload = payload;
      })
unfolding build_udp_ipv4
parse-build_udp_ipv4 source_mac destination_mac source_ip destination_ip source_port
      destination_port payload identification hm hn hs hd hp =
    let fits : ltb 65535 (20 + (8 + length payload)) ≡ false = ground arith in
    rw fits (
      parse_frame-frame_of source_mac.bytes destination_mac.bytes source_ip destination_ip
        source_port destination_port payload identification hm hn hs hd hp)
