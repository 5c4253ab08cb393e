-- ===== src/Server/Media/Base64.antt =====
-- agent_server.rs: the encoding of the WebSocket handshake against a decoder of RFC 4648.
use michoi.Common.{length}
use michoi.Common.{ltb}
use michoi.Common.{none}
use michoi.Common.{some}
use michoi.Common.{true}
use michoi.Common.{Option}
use michoi.Common.{Bool}
use michoi.Common.{
  ℕ, ◌+◌, ◌-◌, ◌*◌, ◌/◌, ◌%◌, ◌<◌, false, ◌&&◌, List, [], ◌∷◌, ◌++◌, ◌≡◌, refl, ap, All, leb, ◌==◌,
  if◌then◌else◌, arith,
}
use michoi.Common.Bytes.{Str, IsByte}
use michoi.Server.Media.{base64_char, digit, base64_encode}

-- The value of a digit of RFC 4648. What is not one of the 64 digits has the value 64.
abbrev pub base64_value : ℕ → ℕ
base64_value c =
    if leb b'A' c && leb c b'Z'
    then c - 65
    else if leb b'a' c && leb c b'z'
    then c - 71
    else if leb b'0' c && leb c b'9'
    then c + 4
    else if c == b'+'
    then 62
    else if c == b'/'
    then 63
    else 64

abbrev pub is_digit : ℕ → Bool
is_digit c = ltb (base64_value c) 64

abbrev three_bytes : ℕ → List ℕ
three_bytes n = n / 65536 ∷ n / 256 % 256 ∷ n % 256 ∷ []

abbrev four_digits : ℕ → ℕ → ℕ → ℕ → ℕ
four_digits p q r s =
    ((base64_value p * 64 + base64_value q) * 64 + base64_value r) * 64 + base64_value s

-- `bytes`, if the test holds.
abbrev when : Bool → List ℕ → Option (List ℕ)
when test bytes = if test then some bytes else none

abbrev behind : List ℕ → Option (List ℕ) → Option (List ℕ)
behind bytes none = none
behind bytes (some more) = some (bytes ++ more)

-- The reference decoder: groups of four digits are three bytes; in the last group one or two signs of
-- padding take bytes off. Any other character, padding elsewhere, and a length that is not a
-- multiple of four are refused.
abbrev pub base64_decode : Str → Option (List ℕ)
base64_decode [] = some []
base64_decode (p ∷ (q ∷ (r ∷ (s ∷ rest)))) =
    let more = base64_decode rest in
    let start = is_digit p && is_digit q in
    let one =
      when (start && (s == b'=' && length rest == 0))
        ((base64_value p * 64 + base64_value q) / 16 ∷ []) in
    let two = when (start && (is_digit r && length rest == 0)) (
      ((base64_value p * 64 + base64_value q) * 64 + base64_value r) / 1024
      ∷ ((base64_value p * 64 + base64_value q) * 64 + base64_value r) / 4 % 256
      ∷ []) in
    let three = behind (three_bytes (four_digits p q r s)) more in
    if r == b'='
    then one
    else if s == b'='
    then two
    else if start && (is_digit r && is_digit s)
    then three
    else none
base64_decode _ = none

value-char : (n : ℕ) → n < 64 → base64_value (base64_char n) ≡ n
unfolding base64_char
value-char n h = ground arith

char-pad : (n : ℕ) → n < 64 → (base64_char n == b'=') ≡ false
unfolding base64_char
char-pad n h = ground arith

value-digit : (n weight : ℕ) → base64_value (digit n weight) ≡ n / weight % 64
value-digit n weight = value-char (n / weight % 64) (omega arith)

digit-pad : (n weight : ℕ) → (digit n weight == b'=') ≡ false
digit-pad n weight = char-pad (n / weight % 64) (omega arith)

digit-is_digit : (n weight : ℕ) → is_digit (digit n weight) ≡ true
digit-is_digit n weight =
    let v : base64_value (digit n weight) ≡ n / weight % 64 = value-digit n weight in
    ground (arith, v)

group_sum :
    (n : ℕ)
    → n < 16777216
    → ((n / 262144 % 64 * 64 + n / 4096 % 64) * 64 + n / 64 % 64) * 64 + n / 1 % 64 ≡ n
group_sum n h = omega arith

-- Any bytes, encoded, are in the alphabet of RFC 4648 with its padding, and a decoder that refuses
-- everything else gives them back: any number of them, and so with no padding, one or two signs.
pub decode-base64_encode :
    (xs : List ℕ) → All IsByte xs → base64_decode (base64_encode xs) ≡ some xs
unfolding base64_encode
decode-base64_encode [] h = refl
decode-base64_encode (a ∷ []) (ha, _) =
    let n : ℕ = a * 65536 in
    let first : (n / 262144 % 64 * 64 + n / 4096 % 64) / 16 ≡ a = omega arith in
    rw (digit-is_digit n 262144, digit-is_digit n 4096, value-digit n 262144, value-digit n 4096)
      (ap (λ x. some (x ∷ [])) first)
decode-base64_encode (a ∷ (b ∷ [])) (ha, (hb, _)) =
    let n : ℕ = a * 65536 + b * 256 in
    let first : ((n / 262144 % 64 * 64 + n / 4096 % 64) * 64 + n / 64 % 64) / 1024 ≡ a =
      omega arith in
    let second : ((n / 262144 % 64 * 64 + n / 4096 % 64) * 64 + n / 64 % 64) / 4 % 256 ≡ b =
      omega arith in
    rw
      (
        digit-pad n 64,
        digit-is_digit n 262144,
        digit-is_digit n 4096,
        digit-is_digit n 64,
        value-digit n 262144,
        value-digit n 4096,
        value-digit n 64,
        first,
        second,
      )
      refl
decode-base64_encode (a ∷ (b ∷ (c ∷ rest))) (ha, (hb, (hc, hs))) =
    let n : ℕ = a * 65536 + b * 256 + c in
    let first : n / 65536 ≡ a = omega arith in
    let second : n / 256 % 256 ≡ b = omega arith in
    let third : n % 256 ≡ c = omega arith in
    rw
      (
        digit-pad n 64,
        digit-pad n 1,
        digit-is_digit n 262144,
        digit-is_digit n 4096,
        digit-is_digit n 64,
        digit-is_digit n 1,
        value-digit n 262144,
        value-digit n 4096,
        value-digit n 64,
        value-digit n 1,
        group_sum n (omega arith),
        first,
        second,
        third,
        decode-base64_encode rest hs,
      )
      refl
