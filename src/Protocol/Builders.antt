-- ===== src/Protocol/Builders.antt =====
-- protocol.rs: the messages that the program builds, one function for each, with the constant
-- capability descriptors that they carry.
use michoi.Common.{
  ℕ, zero, suc, ◌+◌, ◌-◌, ◌/◌, ◌%◌, not, List, [], ◌∷◌, ◌++◌, length, take, drop, replicate, ◌==◌,
  if◌then◌else◌, Result, ok, err, ◌>>=◌,
}
use michoi.Common.Bytes.{Str, ascii, u16_le}
use michoi.Net.{unspecified}
use michoi.Protocol.{
  Station, Endpoints, ProtocolError, bad_audio_length, media_jpeg, media_audio, pack_station,
  pack_endpoints, packet,
}
use michoi.Protocol.Family
use michoi.Protocol.Op
use Prim.Native.Nat.{max}

abbrev pub session_request_capability : List ℕ
session_request_capability =
    (0x56 ∷ 0x49 ∷ 0x44 ∷ 0x45 ∷ 0x4f ∷ 0x41 ∷ 0x06 ∷ 0x00 ∷ 0x32 ∷ 0x00 ∷ 0x33 ∷ 0x00 ∷ 0x34 ∷ 0x00
      ∷ 0x64 ∷ 0x00 ∷ 0x6e ∷ 0x00 ∷ 0x78 ∷ [])
    ++ (replicate 29 0
        ++ ((0x0a ∷ 0x00 ∷ 0x0a ∷ 0x00 ∷ 0x14 ∷ 0x00 ∷ 0x1e ∷ 0x00 ∷ 0x28 ∷ 0x00 ∷ 0x32 ∷ 0x00
              ∷ 0x33 ∷ 0x00 ∷ 0x34 ∷ 0x00 ∷ 0x64 ∷ 0x00 ∷ 0x6e ∷ 0x00 ∷ 0x78 ∷ [])
            ++ (replicate 21 0
                ++ ((0x02 ∷ 0x00 ∷ 0x09 ∷ 0x00 ∷ 0x0a ∷ [])
                    ++ (replicate 37 0
                        ++ ((0x02 ∷ 0x00 ∷ 0x09 ∷ 0x00 ∷ 0x0a ∷ []) ++ (replicate 37 0)))))))

abbrev pub monitor_request_capability : List ℕ
monitor_request_capability =
    (0x56 ∷ 0x49 ∷ 0x44 ∷ 0x45 ∷ 0x4f ∷ 0x41 ∷ 0x01 ∷ 0x00 ∷ 0x32 ∷ [])
    ++ (replicate 39 0 ++ ((0x01 ∷ 0x00 ∷ 0x09 ∷ []) ++ (replicate 39 0 ++ ((0xff ∷ 0x00 ∷ [])))))

abbrev pub call_request_capability : List ℕ
call_request_capability =
    (0x56 ∷ 0x49 ∷ 0x44 ∷ 0x45 ∷ 0x4f ∷ 0x41 ∷ 0x01 ∷ [])
    ++ (replicate 41 0
        ++ ((0x01 ∷ 0x00 ∷ 0x32 ∷ [])
            ++ (replicate 39 0
                ++ ((0x01 ∷ 0x00 ∷ 0x09 ∷ [])
                    ++ (replicate 39 0 ++ ((0x01 ∷ 0x00 ∷ 0x09 ∷ []) ++ (replicate 41 0)))))))

-- The words of a slice, each in little-endian order.
abbrev pub words_le : List ℕ → List ℕ
words_le [] = []
words_le (w ∷ ws) = u16_le w ++ words_le ws

unfoldable pub session_request : Endpoints → Result ProtocolError (List ℕ)
session_request endpoints = do
  block ← pack_endpoints endpoints
  ok (packet Family.session Op.request 254 (block ++ session_request_capability))

abbrev pub slot : ℕ
slot = 1200

-- `slice.chunks(n)`, on fuel: the length of the slice is enough, a chunk takes a byte at least.
unfoldable pub chunks_from : ℕ → ℕ → List ℕ → List (List ℕ)
chunks_from zero n xs = []
chunks_from (suc fuel) n [] = []
chunks_from (suc fuel) n (x ∷ xs) =
    let rest = chunks_from fuel n (drop n (x ∷ xs)) in take n (x ∷ xs) ∷ rest

unfoldable pub chunks : ℕ → List ℕ → List (List ℕ)
chunks n xs = chunks_from (length xs) n xs

-- `jpeg.len().div_ceil(SLOT).max(1) as u16`
abbrev pub frag_count : List ℕ → ℕ
frag_count jpeg = max ((length jpeg + (slot - 1)) / slot) 1 % 65536

-- The body of one media packet: the slot is padded with zeros to its fixed size.
unfoldable pub jpeg_body : List ℕ → ℕ → ℕ → ℕ → List ℕ → List ℕ
jpeg_body block sequence count index chunk =
    block
    ++ (words_le
          (media_jpeg ∷ sequence ∷ count ∷ (index % 65536 + 1) % 65536 ∷ length chunk % 65536 ∷ [])
        ++ (chunk ++ replicate (slot - length chunk) 0))

-- The loop over the enumerated chunks.
unfoldable pub jpeg_packets_from : List ℕ → ℕ → ℕ → ℕ → List (List ℕ) → List (List ℕ)
jpeg_packets_from block sequence count index [] = []
jpeg_packets_from block sequence count index (chunk ∷ rest) =
    packet Family.session Op.media 1290 (jpeg_body block sequence count index chunk)
    ∷ jpeg_packets_from block sequence count (index + 1) rest

unfoldable pub jpeg_packets : ℕ → List ℕ → Endpoints → Result ProtocolError (List (List ℕ))
jpeg_packets sequence jpeg endpoints = do
  block ← pack_endpoints endpoints
  ok (jpeg_packets_from block sequence (frag_count jpeg) 0 (chunks slot jpeg))

unfoldable pub session_control : ℕ → Endpoints → Result ProtocolError (List ℕ)
session_control opcode endpoints = do
  block ← pack_endpoints endpoints
  ok (packet Family.session opcode 80 block)

unfoldable pub session_reply : Endpoints → Result ProtocolError (List ℕ)
session_reply endpoints = do
  block ← pack_endpoints endpoints
  ok (
      packet Family.session Op.reply 96
        (block ++ ((ascii "VIDEOA" ++ (0 ∷ 0 ∷ [])) ++ words_le (50 ∷ 9 ∷ 9 ∷ 255 ∷ []))))

unfoldable pub monitor_request : Station → Station → Result ProtocolError (List ℕ)
monitor_request us target = do
  first ← pack_station us
  second ← pack_station target
  ok (packet Family.monitor Op.request 172 (first ++ (second ++ monitor_request_capability)))

-- `body.resize(42, 0)` grows the 24 packed bytes.
unfoldable pub elevator_request : Str → Result ProtocolError (List ℕ)
elevator_request room_id = do
  room ← pack_station (record { id = room_id; ip = unspecified })
  ok (packet Family.elevator Op.request 32 (take 42 (room ++ replicate (42 - length room) 0)))

unfoldable pub call_request : Station → Station → Result ProtocolError (List ℕ)
call_request caller callee = do
  first ← pack_station caller
  second ← pack_station callee
  ok (packet Family.session Op.request 256 (first ++ (second ++ call_request_capability)))

unfoldable pub call_setup : Station → Station → Result ProtocolError (List ℕ)
call_setup caller callee = do
  first ← pack_station caller
  second ← pack_station callee
  ok (packet Family.session Op.call_setup 82 (first ++ (second ++ (1 ∷ 0 ∷ []))))

unfoldable pub bootstrap_reply : Station → Result ProtocolError (List ℕ)
bootstrap_reply room = do
  station ← pack_station room
  ok (packet Family.bootstrap 2 898 ((1 ∷ 0 ∷ []) ++ (station ++ replicate 840 0)))

unfoldable pub page_request : List ℕ
page_request = packet Family.page Op.request 36 (0x00 ∷ 0x1e ∷ 0x00 ∷ 0x00 ∷ [])

unfoldable pub bootstrap_request : List ℕ
bootstrap_request = packet Family.bootstrap Op.request 20 []

unfoldable pub audio_packet : ℕ → List ℕ → Endpoints → Result ProtocolError (List ℕ)
audio_packet sequence pcm endpoints = if not (length pcm == 512) then err bad_audio_length else do
  block ← pack_endpoints endpoints
  ok (
      packet Family.session Op.media 602
        (block ++ (words_le (media_audio ∷ sequence ∷ 1 ∷ 1 ∷ 512 ∷ []) ++ pcm)))
