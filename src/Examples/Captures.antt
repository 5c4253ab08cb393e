-- ===== src/Examples/Captures.antt =====
-- pcap.rs: the theorems at a concrete frame and capture.
use michoi.Common.{ℕ, ◌≡◌, true, none, List, [], ◌∷◌, ok, arith}
use michoi.Ethernet.{parse_frame}
use michoi.Pcap.{decode_udp, read_records}
use michoi.Pcap.Agreement.{Agrees, decode_udp-Agrees}
use michoi.Pcap.Capture.{Recorded, capture, records_of, read_records-capture}

-- One byte from port 10000 to port 10000.
abbrev datagram : List ℕ
datagram =
    2 ∷ 0 ∷ 0 ∷ 0 ∷ 0 ∷ 2 ∷ 2 ∷ 0 ∷ 0 ∷ 0 ∷ 0 ∷ 1 ∷ 8 ∷ 0 ∷ 0x45 ∷ 0 ∷ 0 ∷ 29 ∷ 0 ∷ 1 ∷ 0x40 ∷ 0
    ∷ 64 ∷ 17 ∷ 0 ∷ 0 ∷ 10 ∷ 0 ∷ 0 ∷ 2 ∷ 10 ∷ 0 ∷ 0 ∷ 3 ∷ 39 ∷ 16 ∷ 39 ∷ 16 ∷ 0 ∷ 9 ∷ 0 ∷ 0 ∷ 7 ∷ []

decode_udp-Agrees_example : Agrees 1 (decode_udp 1 datagram) (parse_frame datagram)
decode_udp-Agrees_example = decode_udp-Agrees 1 datagram

abbrev two_records : List Recorded
two_records =
    record { seconds = 5; fraction = 100; original = 43; raw = datagram }
    ∷ record { seconds = 6; fraction = 200; original = 2; raw = 1 ∷ 2 ∷ [] }
    ∷ []

read_records-capture_example :
    read_records 100 true 1000000 none 0 (capture two_records)
    ≡ ok (records_of 1000000 none 0 two_records)
read_records-capture_example = read_records-capture 100 1000000 none 0 two_records (omega arith) (
  record { seconds_fit = omega arith; fraction_fits = omega arith; length_fits = omega arith },
  (
    record { seconds_fit = omega arith; fraction_fits = omega arith; length_fits = omega arith },
    tt,
  ),
)
