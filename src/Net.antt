-- ===== src/Net.antt =====
-- The standard library's parts that the program leans on: IPv4 addresses and the lossy reading of
-- UTF-8. A `String` holds valid UTF-8, which is what the lossy reading leaves as it is.
pub mod Address
use michoi.Common.{
  ℕ, zero, suc, Bool, ◌&&◌, List, [], ◌∷◌, ◌++◌, ltb, leb, ◌==◌, if◌then◌else◌, ◌≡◌,
}
use michoi.Common.Bytes.{Str}

pub record Ipv4Addr : Type 0 where
  pub a : ℕ
  pub b : ℕ
  pub c : ℕ
  pub d : ℕ

abbrev pub octets : Ipv4Addr → List ℕ
octets ip = ip.a ∷ ip.b ∷ ip.c ∷ ip.d ∷ []

abbrev pub unspecified : Ipv4Addr
unspecified = record { a = 0; b = 0; c = 0; d = 0 }

abbrev pub ip_eq : Ipv4Addr → Ipv4Addr → Bool
ip_eq p q = p.a == q.a && (p.b == q.b && (p.c == q.c && p.d == q.d))

abbrev pub is_unspecified : Ipv4Addr → Bool
is_unspecified ip = ip_eq ip unspecified

-- U+FFFD
abbrev replacement : List ℕ
replacement = 0xef ∷ 0xbf ∷ 0xbd ∷ []

-- What the decoder waits for: `pending lo hi more seen` wants a byte from `lo` to `hi` and `more`
-- continuation bytes behind it, after the bytes `seen`.
pub data Decoder : Type 0 where
  ground_state : Decoder
  pending : ℕ → ℕ → ℕ → List ℕ → Decoder

-- A byte at the start of a character: what it puts out at once, and the state behind it.
unfoldable pub lead : ℕ → List ℕ × Decoder
lead x =
    if ltb x 0x80
    then (x ∷ [], ground_state)
    else if leb 0xc2 x && leb x 0xdf
    then ([], pending 0x80 0xbf 0 (x ∷ []))
    else if x == 0xe0
    then ([], pending 0xa0 0xbf 1 (x ∷ []))
    else if x == 0xed
    then ([], pending 0x80 0x9f 1 (x ∷ []))
    else if leb 0xe1 x && leb x 0xef
    then ([], pending 0x80 0xbf 1 (x ∷ []))
    else if x == 0xf0
    then ([], pending 0x90 0xbf 2 (x ∷ []))
    else if leb 0xf1 x && leb x 0xf3
    then ([], pending 0x80 0xbf 2 (x ∷ []))
    else if x == 0xf4
    then ([], pending 0x80 0x8f 2 (x ∷ []))
    else (replacement, ground_state)

unfoldable pub continue_with : ℕ → List ℕ → List ℕ × Decoder
continue_with zero seen = (seen, ground_state)
continue_with (suc m) seen = ([], pending 0x80 0xbf m seen)

unfoldable pub decode_byte : Decoder → ℕ → List ℕ × Decoder
unfolding lead continue_with
decode_byte ground_state x = lead x
decode_byte (pending lo hi more seen) x =
    if leb lo x && leb x hi
    then continue_with more (seen ++ (x ∷ []))
    else (replacement ++ (lead x).0, (lead x).1)

unfoldable pub decode : Decoder → List ℕ → List ℕ
unfolding decode_byte
decode ground_state [] = []
decode (pending _ _ _ _) [] = replacement
decode s (x ∷ xs) = let (out, s') = decode_byte s x in out ++ decode s' xs

-- `String::from_utf8_lossy`: each maximal part of an invalid sequence becomes one U+FFFD.
unfoldable pub from_utf8_lossy : List ℕ → Str
unfolding decode
from_utf8_lossy = decode ground_state

-- The bytes are those of a Rust `String`.
abbrev pub IsUtf8 : Str → Type 0
IsUtf8 s = from_utf8_lossy s ≡ s
