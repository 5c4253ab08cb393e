-- ===== src/Protocol/Split/Recover.antt =====
-- protocol.rs: whole messages sent back to back are recovered by splitting.
use michoi.Common.{
  ℕ, zero, suc, ◌+◌, ◌≤◌, ◌<◌, ◌^◌, true, some, List, [], ◌∷◌, ◌++◌, ◌≡◌, refl, ap, ◌∙◌, arith, ◌≢◌,
}
use michoi.Common.{
  length, drop, take, leb, length-append, take-append, drop-append, All, str_eq, str_eq_refl,
}
use michoi.Protocol.{magic, packet}
use michoi.Protocol.RoundTrip.{parse-packet}
use michoi.Protocol.Split.{
  logical_size, segment_size, skip_to_magic, cons_to, split_loop, split_coalesced,
}
use michoi.Protocol.Split.Total.{HasMagic, split_round-some}
use michoi.Protocol.Op

-- A message to send.
pub record Sent : Type 0 where
  pub family : ℕ
  pub opcode : ℕ
  pub declared : ℕ
  pub body : List ℕ

-- The header's numbers fit their fields, and it tells the message's length. It is no media packet,
-- whose size goes by its kind instead.
pub record IsWhole (s : Sent) : Type 0 where
  pub family_fits : s.family < 2 ^ 16
  pub opcode_fits : s.opcode < 2 ^ 32
  pub declared_fits : s.declared < 2 ^ 32
  pub told : s.declared ≡ 32 + length s.body
  pub no_media : s.opcode ≢ Op.media

abbrev pub bytes_of : Sent → List ℕ
bytes_of s = packet s.family s.opcode s.declared s.body

abbrev pub back_to_back : List Sent → List ℕ
back_to_back [] = []
back_to_back (s ∷ ss) = bytes_of s ++ back_to_back ss

packet-append :
    (family opcode declared : ℕ) (body rest : List ℕ)
    → packet family opcode declared body ++ rest ≡ packet family opcode declared (body ++ rest)
unfolding packet
packet-append family opcode declared body rest = refl

length-packet :
    (family opcode declared : ℕ) (body : List ℕ)
    → length (packet family opcode declared body) ≡ 32 + length body
unfolding packet
length-packet family opcode declared body = omega arith

abbrev pub messages : List Sent → List (List ℕ)
messages [] = []
messages (s ∷ ss) = bytes_of s ∷ messages ss

-- The header tells the size of the message, whatever follows it.
logical_size-sent :
    (s : Sent) (rest : List ℕ) → IsWhole s → logical_size (bytes_of s ++ rest) ≡ some s.declared
unfolding logical_size
logical_size-sent s rest w =
    rw
      (
        packet-append s.family s.opcode s.declared s.body rest,
        parse-packet s.family s.opcode s.declared (s.body ++ rest) w.family_fits w.opcode_fits
            w.declared_fits,
      )
      (ground (arith, w.told, w.no_media))

segment_size-sent :
    (s : Sent) (rest : List ℕ) → IsWhole s → segment_size (bytes_of s ++ rest) ≡ length (bytes_of s)
unfolding segment_size
segment_size-sent s rest w =
    let size = length-packet s.family s.opcode s.declared s.body in
    let fits : leb s.declared (length (bytes_of s ++ rest)) ≡ true =
      ground (arith, w.told, size, length-append (bytes_of s) rest) in
    rw (logical_size-sent s rest w, fits) (omega (arith, w.told, size))

magic-sent : (s : Sent) (rest : List ℕ) → HasMagic (bytes_of s ++ rest)
unfolding packet
magic-sent s rest = refl

skip_magic : (q : List ℕ) → HasMagic q → skip_to_magic q ≡ some q
unfolding skip_to_magic
skip_magic q h =
    let here : str_eq (take 8 q) magic ≡ true = ap (λ t. str_eq t magic) h ∙ str_eq_refl magic in
    rw here

split_loop_magic :
    (fuel : ℕ) (q : List ℕ)
    → HasMagic q
    → split_loop (suc fuel) q
      ≡ cons_to (take (segment_size q) q) (split_loop fuel (drop (segment_size q) q))
unfolding split_loop
split_loop_magic fuel [] h = absurd (omega (arith, ap length h))
split_loop_magic fuel (x ∷ xs) h =
    rw (skip_magic (x ∷ xs) h) (split_round-some (split_loop fuel) (x ∷ xs) h)

-- One round takes exactly the first message.
split_loop-sent :
    (fuel : ℕ) (s : Sent) (rest : List ℕ)
    → IsWhole s
    → split_loop (suc fuel) (bytes_of s ++ rest) ≡ cons_to (bytes_of s) (split_loop fuel rest)
split_loop-sent fuel s rest w =
    split_loop_magic fuel (bytes_of s ++ rest) (magic-sent s rest)
    ∙ rw (
      segment_size-sent s rest w,
      take-append (bytes_of s) rest (length (bytes_of s)) refl,
      drop-append (bytes_of s) rest (length (bytes_of s)) refl,
    )

split_loop-back_to_back :
    (fuel : ℕ) (ss : List Sent)
    → All IsWhole ss
    → length (back_to_back ss) ≤ fuel
    → split_loop fuel (back_to_back ss) ≡ some (messages ss)
split_loop-back_to_back zero [] w h = unfold split_loop in refl
split_loop-back_to_back (suc fuel) [] w h = unfold split_loop in refl
split_loop-back_to_back zero (s ∷ ss) w h = absurd (
    omega (
      arith,
      length-append (bytes_of s) (back_to_back ss),
      length-packet s.family s.opcode s.declared s.body,
    ))
split_loop-back_to_back (suc fuel) (s ∷ ss) w h =
    let shorter : length (back_to_back ss) ≤ fuel = omega (
      arith,
      length-append (bytes_of s) (back_to_back ss),
      length-packet s.family s.opcode s.declared s.body,
    ) in
    split_loop-sent fuel s (back_to_back ss) w.0
    ∙ ap (cons_to (bytes_of s)) (split_loop-back_to_back fuel ss w.1 shorter)

-- Splitting recovers the messages of a coalesced datagram: whole messages sent back to back come out
-- one by one, byte for byte. Their headers tell their lengths, and none is a media packet.
pub split-back_to_back :
    (ss : List Sent) → All IsWhole ss → split_coalesced (back_to_back ss) ≡ some (messages ss)
unfolding split_coalesced
split-back_to_back ss w = split_loop-back_to_back (length (back_to_back ss)) ss w (omega arith)
