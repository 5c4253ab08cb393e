-- ===== src/Examples/Wire.antt =====
-- protocol.rs, ethernet.rs and discovery.rs: the theorems at concrete messages.
use michoi.Common.{
  ℕ, ◌≡◌, refl, none, some, List, [], ◌∷◌, ◌++◌, arith, str_eq, ◌>>=◌, ok, All, lookup, str_key,
}
use michoi.Common.Tests.{str_eq}
use michoi.Common.Bytes.{ascii}
use michoi.Net.{Ipv4Addr, from_utf8_lossy, lead, continue_with, decode_byte, decode}
use michoi.Protocol.{Station, Endpoints}
use michoi.Protocol.RoundTrip.{IsWireId, FitWire}
use michoi.Protocol.Split.{split_coalesced}
use michoi.Protocol.Split.Total.{WellCut, Inside, split_coalesced_total}
use michoi.Protocol.Split.Recover.{Sent, IsWhole, bytes_of, back_to_back, split-back_to_back}
use michoi.Protocol.Builders.{jpeg_packets, chunks, slot}
use michoi.Protocol.Jpeg.{JpegReassembler, empty, checked_frame, ends_jpeg}
use michoi.Protocol.Jpeg.Tidy.{empty-IsTidy}
use michoi.Protocol.Jpeg.Reassembly.{answers, push_all}
use michoi.Protocol.Jpeg.Wire.{media_all, jpeg_round_trip}
use michoi.Ethernet.{MacAddress, parse_frame, build_udp_ipv4, ip_header, internet_checksum}
use michoi.Ethernet.Checksum.{header-checksum}
use michoi.Ethernet.RoundTrip.{parse-build_udp_ipv4}
use michoi.Protocol.Discovery.{tagged}
use michoi.Discovery.{DiscoveryService, answer, ask, found, closed, on_datagram, resolve, timed_out}
use michoi.Discovery.Exchange.{IsName, discovery_exchange, timeout_drops_others}

abbrev here : Ipv4Addr
here = record { a = 10; b = 0; c = 0; d = 2 }

abbrev there : Ipv4Addr
there = record { a = 10; b = 0; c = 0; d = 3 }

abbrev door : Station
door = record { id = ascii "D1"; ip = here }

abbrev flat : Station
flat = record { id = ascii "S1"; ip = there }

abbrev both : Endpoints
both = record { door = door; room = flat }

door-IsWireId : IsWireId (ascii "D1")
unfolding from_utf8_lossy lead continue_with decode_byte decode
door-IsWireId = record {
  fits = omega arith;
  no_nul = (omega arith, (omega arith, tt));
  text = refl;
}

flat-IsWireId : IsWireId (ascii "S1")
unfolding from_utf8_lossy lead continue_with decode_byte decode
flat-IsWireId = record {
  fits = omega arith;
  no_nul = (omega arith, (omega arith, tt));
  text = refl;
}

abbrev keepalive : Sent
keepalive = record { family = 0x00b7; opcode = 0x0c; declared = 34; body = 1 ∷ 2 ∷ [] }

abbrev goodbye : Sent
goodbye = record { family = 0x00b7; opcode = 0x1e; declared = 33; body = 7 ∷ [] }

keepalive-IsWhole : IsWhole keepalive
keepalive-IsWhole = record {
  family_fits = omega arith;
  opcode_fits = omega arith;
  declared_fits = omega arith;
  told = refl;
  no_media = omega arith;
}

goodbye-IsWhole : IsWhole goodbye
goodbye-IsWhole = record {
  family_fits = omega arith;
  opcode_fits = omega arith;
  declared_fits = omega arith;
  told = refl;
  no_media = omega arith;
}

split-back_to_back_example :
    split_coalesced (back_to_back (keepalive ∷ goodbye ∷ []))
    ≡ some (bytes_of keepalive ∷ bytes_of goodbye ∷ [])
split-back_to_back_example =
    split-back_to_back (keepalive ∷ goodbye ∷ []) (keepalive-IsWhole, (goodbye-IsWhole, tt))

split_coalesced_total_example :
    (parts : List (List ℕ)) × (split_coalesced (9 ∷ bytes_of keepalive) ≡ some parts)
    × All WellCut parts
    × Inside parts (9 ∷ bytes_of keepalive)
split_coalesced_total_example = split_coalesced_total (9 ∷ bytes_of keepalive)

-- A picture of four bytes, in two parts.
abbrev soi : List ℕ
soi = 0xff ∷ 0xd8 ∷ []

abbrev eoi : List ℕ
eoi = 0xff ∷ 0xd9 ∷ []

jpeg_round_trip_example :
    (packets : List (List ℕ)) × (jpeg_packets 7 (soi ++ eoi) both ≡ ok packets)
    × (r' : JpegReassembler) × (push_all empty (media_all packets)
        ≡ some (r', answers (chunks slot (soi ++ eoi)) (some (soi ++ eoi))))
unfolding empty checked_frame FitWire ends_jpeg str_eq
jpeg_round_trip_example =
    jpeg_round_trip empty 7 (soi ++ eoi) both empty-IsTidy refl (omega arith) (omega arith) refl
      (omega arith, omega arith)

abbrev own_mac : MacAddress
own_mac = record { bytes = 2 ∷ 0 ∷ 0 ∷ 0 ∷ 0 ∷ 1 ∷ [] }

abbrev door_mac : MacAddress
door_mac = record { bytes = 2 ∷ 0 ∷ 0 ∷ 0 ∷ 0 ∷ 2 ∷ [] }

parse-build_udp_ipv4_example :
    (build_udp_ipv4 own_mac door_mac here there 10000 10000 (1 ∷ 2 ∷ []) 77 >>= parse_frame)
    ≡ ok (record {
      source_mac = own_mac;
      destination_mac = door_mac;
      source_ip = here;
      destination_ip = there;
      source_port = 10000;
      destination_port = 10000;
      payload = 1 ∷ 2 ∷ [];
    })
parse-build_udp_ipv4_example =
    parse-build_udp_ipv4 own_mac door_mac here there 10000 10000 (1 ∷ 2 ∷ []) 77 refl refl
      (omega arith) (omega arith) (omega arith)

header-checksum_example :
    internet_checksum
      (ip_header 30 77 (internet_checksum (ip_header 30 77 0 here there)) here there)
    ≡ 0
header-checksum_example =
    header-checksum 30 77 here there (omega arith, (omega arith, (omega arith, (omega arith, tt))))
      (omega arith, (omega arith, (omega arith, (omega arith, tt))))

flat-IsName : IsName (ascii "S1")
unfolding from_utf8_lossy lead continue_with decode_byte decode
flat-IsName = record { fits = omega arith; no_nul = (omega arith, (omega arith, tt)); utf8 = refl }

abbrev asker : DiscoveryService
asker = record { device_id = none; pending = [] }

abbrev flat_service : DiscoveryService
flat_service = record { device_id = some (ascii "S1"); pending = [] }

discovery_exchange_example :
    ((resolve (ascii "S1") 4 asker).1 ≡ ask (tagged 1 100 (ascii "S1")) ∷ [])
    × ((on_datagram here (tagged 1 100 (ascii "S1")) flat_service
          ≡ (flat_service, answer (tagged 2 35 (ascii "S1")) ∷ []))
        × (((on_datagram there (tagged 2 35 (ascii "S1")) (resolve (ascii "S1") 4 asker).0).1
              ≡ found 4 there ∷ [])
            × (lookup
                  (ascii "S1")
                  (on_datagram there
                    (tagged 2 35 (ascii "S1"))
                    (resolve (ascii "S1") 4 asker).0).0.pending
                ≡ none)))
discovery_exchange_example =
    discovery_exchange (ascii "S1") 4 asker flat_service here there flat-IsName refl tt

abbrev waiting : DiscoveryService
waiting = record { device_id = none; pending = (ascii "S1", 4 ∷ []) ∷ [] }

timeout_drops_others_example :
    ((timed_out (ascii "S1") (resolve (ascii "S1") 5 waiting).0).1 ≡ closed 4 ∷ closed 5 ∷ [])
    × (lookup (ascii "S1") (timed_out (ascii "S1") (resolve (ascii "S1") 5 waiting).0).0.pending
        ≡ some [])
unfolding str_eq
timeout_drops_others_example = timeout_drops_others (ascii "S1") 4 5 waiting refl
