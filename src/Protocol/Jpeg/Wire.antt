-- ===== src/Protocol/Jpeg/Wire.antt =====
-- protocol.rs: a JPEG frame over the wire. `jpeg_packets` cuts it up, the parser reads the packets,
-- and the reassembler puts it together again.
use michoi.Common.{
  ℕ, zero, suc, ◌+◌, ◌-◌, ◌*◌, ◌/◌, ◌%◌, ◌≤◌, ◌<◌, true, false, Option, none, some, List, [], ◌∷◌,
  ◌++◌, ◌≡◌, refl, sym, ap, ◌∙◌, arith,
}
use michoi.Common.{
  length, drop, take, replicate, ltb, ◌==◌, lookup, nat_key, length-append, length-take,
  length-drop, take-append-drop, take-append, drop-append, drop-drop, All, Result, ok, err,
}
use michoi.Protocol.{
  ProtocolError, Endpoints, Message, MediaFragment, media_jpeg, packet, parse_message,
  message_media, is_session_like,
}
use michoi.Protocol.Builders.{
  words_le, slot, chunks_from, chunks, frag_count, jpeg_body, jpeg_packets_from, jpeg_packets,
}
use michoi.Protocol.RoundTrip.{
  FitWire, endpoints_block, length-endpoints_block, pack_endpoints_fits, message_of, parse-packet,
}
use michoi.Protocol.Jpeg.{JpegReassembler, checked_frame}
use michoi.Protocol.Jpeg.Tidy.{IsTidy}
use michoi.Protocol.Jpeg.Parts.{fragment, fragments, concat}
use michoi.Protocol.Jpeg.Reassembly.{answers, push_all}
use michoi.Protocol.Jpeg.Delivery.{push_all_in_order}
use michoi.Protocol.{le16_at}
use michoi.Protocol.Jpeg.{ends_jpeg}
use michoi.Protocol.Family
use michoi.Protocol.Op

-- The media fragments of the datagrams that carry one.
abbrev media_of : Result ProtocolError Message → Option MediaFragment
media_of (ok m) = message_media m
media_of (err _) = none

abbrev add_media : Option MediaFragment → List MediaFragment → List MediaFragment
add_media none fs = fs
add_media (some f) fs = f ∷ fs

abbrev pub media_all : List (List ℕ) → List MediaFragment
media_all [] = []
media_all (raw ∷ rest) = add_media (media_of (parse_message raw)) (media_all rest)

-- The words of a media header, read back.
word : (v : ℕ) → v < 65536 → v % 256 + 256 * (v / 256 % 256) ≡ v
word v h = omega arith

-- What `media` reads, given the header and the data of the body.
pub message_media_lem :
    (m : Message) (h payload : List ℕ)
    → is_session_like m ≡ true
    → m.opcode ≡ Op.media
    → 58 ≤ length m.body
    → take 10 (drop 48 m.body) ≡ h
    → drop 58 m.body ≡ payload
    → le16_at h 8 ≤ length payload
    → message_media m
      ≡ some (record {
        media_type = le16_at h 0;
        sequence = le16_at h 2;
        fragment_count = le16_at h 4;
        fragment_index = le16_at h 6;
        valid_length = le16_at h 8;
        payload = take (le16_at h 8) payload;
      })
unfolding message_media
message_media_lem m h payload s o l head tail fits =
    let media : (m.opcode == Op.media) ≡ true = ground arith in
    let long : ltb (length m.body) 58 ≡ false = ground arith in
    let whole : ltb (length payload) (le16_at h 8) ≡ false = ground arith in
    rw (s, media, long, head, tail, whole)

media_words : ℕ → ℕ → ℕ → ℕ → List ℕ
media_words sequence count index size =
    words_le (media_jpeg ∷ sequence ∷ count ∷ (index % 65536 + 1) % 65536 ∷ size % 65536 ∷ [])

-- Each packet of a frame carries its chunk.
media-jpeg_body :
    (block : List ℕ) (sequence count index : ℕ) (chunk : List ℕ)
    → length block ≡ 48
    → sequence < 65536
    → count < 65536
    → index + 1 < 65536
    → length chunk ≤ 1200
    → message_media
        (message_of Family.session Op.media 1290 (jpeg_body block sequence count index chunk))
      ≡ some (fragment sequence count (index + 1) chunk)
unfolding jpeg_body media_words
media-jpeg_body block sequence count index chunk sized s n i small =
    let rest : List ℕ = chunk ++ replicate (slot - length chunk) 0 in
    let words : List ℕ = media_words sequence count index (length chunk) in
    let behind : drop 48 (block ++ (words ++ rest)) ≡ words ++ rest =
      drop-append block (words ++ rest) 48 sized in
    let tail_is : drop 58 (block ++ (words ++ rest)) ≡ rest =
      sym (drop-drop 10 48 (block ++ (words ++ rest))) ∙ ap (drop 10) behind in
    let size : length chunk % 65536 % 256 + 256 * (length chunk % 65536 / 256 % 256)
        ≡ length chunk =
      omega arith in
    let place : (index % 65536 + 1) % 65536 % 256 + 256 * ((index % 65536 + 1) % 65536 / 256 % 256)
        ≡ index + 1 =
      omega arith in
    let read =
      message_media_lem (message_of Family.session Op.media 1290 (block ++ (words ++ rest))) words
        rest (unfold is_session_like in refl) refl
        (omega (arith, length-append block (words ++ rest))) (ap (take 10) behind) tail_is
        (omega (arith, size, length-append chunk (replicate (slot - length chunk) 0))) in
    read
    ∙ rw (
      word sequence s,
      word count n,
      place,
      size,
      take-append chunk (replicate (slot - length chunk) 0) (length chunk) refl,
    )

media_all-packets :
    (block : List ℕ) (sequence count index : ℕ) (cs : List (List ℕ))
    → length block ≡ 48
    → sequence < 65536
    → count < 65536
    → index + length cs < 65536
    → All (λ c. length c ≤ 1200) cs
    → media_all (jpeg_packets_from block sequence count index cs)
      ≡ fragments sequence count (index + 1) cs
unfolding jpeg_packets_from
media_all-packets block sequence count index [] b s n i small = refl
media_all-packets block sequence count index (c ∷ cs) b s n i small =
    let body : List ℕ = jpeg_body block sequence count index c in
    let rest = media_all-packets block sequence count (index + 1) cs b s n (omega arith) small.1 in
    let first : media_of (parse_message (packet Family.session Op.media 1290 body))
        ≡ some (fragment sequence count (index + 1) c) =
      ap media_of
        (parse-packet Family.session Op.media 1290 body (omega arith) (omega arith) (omega arith))
      ∙ media-jpeg_body block sequence count index c b s n (omega arith) small.0 in
    ap (λ o. add_media o (media_all (jpeg_packets_from block sequence count (index + 1) cs))) first
    ∙ ap (λ fs. fragment sequence count (index + 1) c ∷ fs) rest

-- Chunks of a slice: they make it up, and each is at most a slot long.
concat-chunks : (fuel : ℕ) (xs : List ℕ) → length xs ≤ fuel → concat (chunks_from fuel 1200 xs) ≡ xs
unfolding chunks_from
concat-chunks zero [] h = refl
concat-chunks zero (x ∷ xs) h = absurd (omega arith)
concat-chunks (suc fuel) [] h = refl
concat-chunks (suc fuel) (x ∷ xs) h =
    ap (λ t. take 1200 (x ∷ xs) ++ t)
      (concat-chunks fuel (drop 1200 (x ∷ xs)) (omega (arith, length-drop 1200 (x ∷ xs))))
    ∙ take-append-drop 1200 (x ∷ xs)

chunks-small : (fuel : ℕ) (xs : List ℕ) → All (λ c. length c ≤ 1200) (chunks_from fuel 1200 xs)
unfolding chunks_from
chunks-small zero xs = tt
chunks-small (suc fuel) [] = tt
chunks-small (suc fuel) (x ∷ xs) =
    (omega (arith, length-take 1200 (x ∷ xs)), chunks-small fuel (drop 1200 (x ∷ xs)))

length-chunks :
    (fuel : ℕ) (xs : List ℕ)
    → length xs ≤ fuel
    → length (chunks_from fuel 1200 xs) ≡ (length xs + 1199) / 1200
unfolding chunks_from
length-chunks zero [] h = refl
length-chunks zero (x ∷ xs) h = absurd (omega arith)
length-chunks (suc fuel) [] h = refl
length-chunks (suc fuel) (x ∷ xs) h = omega (
  arith,
  length-drop 1200 (x ∷ xs),
  length-chunks fuel (drop 1200 (x ∷ xs)) (omega (arith, length-drop 1200 (x ∷ xs))),
)

-- The list is a first chunk and the rest: `push_all_in_order` on the chunks of a frame.
pushed :
    (r : JpegReassembler) (sequence : ℕ) (cs : List (List ℕ))
    → IsTidy r
    → lookup sequence r.frames ≡ none
    → 0 < length cs
    → (r' : JpegReassembler) × (push_all r (fragments sequence (length cs) 1 cs)
        ≡ some (r', answers cs (checked_frame (concat cs))))
pushed r sequence [] tidy new h = absurd (omega arith)
pushed r sequence (c ∷ cs) tidy new h = push_all_in_order r sequence c cs tidy new

jpeg_nonempty : (jpeg : List ℕ) → checked_frame jpeg ≡ some jpeg → 0 < length jpeg
unfolding checked_frame ends_jpeg
jpeg_nonempty [] h = ground arith
jpeg_nonempty (x ∷ xs) h = omega arith

-- A JPEG frame survives the wire: cut up by `jpeg_packets`, read by the parser and collected by any
-- tidy reassembler that does not hold its sequence number, it comes out whole with the last packet,
-- and nothing comes out before. The frame begins and ends as a JPEG does, it has at most 65535
-- slots, and the station names fit.
pub jpeg_round_trip :
    (r : JpegReassembler) (sequence : ℕ) (jpeg : List ℕ) (endpoints : Endpoints)
    → IsTidy r
    → lookup sequence r.frames ≡ none
    → sequence < 65536
    → length jpeg ≤ 65535 * 1200
    → checked_frame jpeg ≡ some jpeg
    → FitWire endpoints
    → (packets : List (List ℕ)) × (jpeg_packets sequence jpeg endpoints ≡ ok packets)
      × (r' : JpegReassembler) × (push_all r (media_all packets)
          ≡ some (r', answers (chunks slot jpeg) (some jpeg)))
unfolding jpeg_packets chunks
jpeg_round_trip r sequence jpeg endpoints tidy new s size valid fits =
    let block : List ℕ = endpoints_block endpoints in
    let cs : List (List ℕ) = chunks_from (length jpeg) 1200 jpeg in
    let some_bytes : 0 < length jpeg = jpeg_nonempty jpeg valid in
    let number : length cs ≡ (length jpeg + 1199) / 1200 =
      length-chunks (length jpeg) jpeg (omega arith) in
    let count : frag_count jpeg ≡ length cs = omega arith in
    let (r', out) = pushed r sequence cs tidy new (omega arith) in
    (
      jpeg_packets_from block sequence (frag_count jpeg) 0 cs,
      rw (pack_endpoints_fits endpoints fits),
      r',
      ap (push_all r) (
            media_all-packets block sequence (frag_count jpeg) 0 cs
              (length-endpoints_block endpoints fits) s (omega arith) (omega arith)
              (chunks-small (length jpeg) jpeg)
            ∙ ap (λ n. fragments sequence n 1 cs) count)
          ∙ out
          ∙ ap (λ t. some (r', answers cs t))
              (ap checked_frame (concat-chunks (length jpeg) jpeg (omega arith)) ∙ valid),
    )
