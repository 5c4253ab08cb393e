-- ===== src/Ethernet/Checksum.antt =====
-- ethernet.rs: the header checksum is the one that IPv4 receivers verify.
use michoi.Common.{
  ℕ, ◌+◌, ◌-◌, ◌*◌, ◌/◌, ◌%◌, ◌≤◌, List, [], ◌∷◌, ◌≡◌, sym, ap, ◌∙◌, arith, if◌then◌else◌, ◌==◌,
}
use michoi.Common.Bytes.{of_be16, IsByte}
use michoi.Net.{Ipv4Addr, octets}
use michoi.Ethernet.{checksum_loop, internet_checksum, ip_header}

-- The sum of the 16-bit words of an even number of bytes.
abbrev word_sum : List ℕ → ℕ
word_sum [] = 0
word_sum (h ∷ []) = h * 256
word_sum (h ∷ (l ∷ rest)) = of_be16 h l + word_sum rest

-- The ones' complement representative of a sum: 1 to 65535, or 0 for 0.
abbrev folded : ℕ → ℕ
folded n = if n == 0 then 0 else (n - 1) % 65535 + 1

abbrev pub AllBytes : List ℕ → Type 0
AllBytes [] = Unit {0}
AllBytes (x ∷ xs) = IsByte x × AllBytes xs

fold_step :
    (sum word : ℕ)
    → sum ≤ 65535
    → word ≤ 65535
    → (sum + word) % 65536 + (sum + word) / 65536 ≡ folded (sum + word)
fold_step sum word h k = ground arith

fold_shift : (n q : ℕ) → q ≤ 1 → q ≤ n → folded (n + 65535 * q) ≡ folded n
fold_shift n q h k = ground arith

fold_carry : (s m : ℕ) → s ≤ 131070 → folded (s % 65536 + s / 65536 + m) ≡ folded (s + m)
fold_carry s m h =
    let q : ℕ = s / 65536 in
    let n : ℕ = s % 65536 + q + m in
    let same : n + 65535 * q ≡ s + m = omega arith in
    let small : q ≤ 1 = omega arith in
    let below : q ≤ n = omega arith in sym (fold_shift n q small below) ∙ ap folded same

checksum_loop_lem :
    (data_bytes : List ℕ) (sum : ℕ)
    → AllBytes data_bytes
    → sum ≤ 65535
    → checksum_loop sum data_bytes ≡ folded (sum + word_sum data_bytes)
unfolding checksum_loop
checksum_loop_lem [] sum b h = ground arith
checksum_loop_lem (x ∷ []) sum b h = fold_step sum (x * 256) h (omega arith)
checksum_loop_lem (x ∷ (y ∷ rest)) sum b h =
    let s : ℕ = sum + of_be16 x y in
    let small : s % 65536 + s / 65536 ≤ 65535 = omega arith in
    checksum_loop_lem rest (s % 65536 + s / 65536) b.1.1 small
    ∙ fold_carry s (word_sum rest) (omega arith)
    ∙ ap folded (omega arith)

folded_small : (n : ℕ) → folded n ≤ 65535
folded_small n = ground arith

folded_complement : (n : ℕ) → 1 ≤ n → folded (n + (65535 - folded n)) ≡ 65535
folded_complement n h = ground arith

header-AllBytes :
    (ip_length identification checksum : ℕ) (source_ip destination_ip : Ipv4Addr)
    → AllBytes (octets source_ip)
    → AllBytes (octets destination_ip)
    → AllBytes (ip_header ip_length identification checksum source_ip destination_ip)
unfolding ip_header
header-AllBytes ip_length identification checksum source_ip destination_ip s d = (
  omega arith,
  (
    omega arith,
    (
      omega arith,
      (
        omega arith,
        (
          omega arith,
          (
            omega arith,
            (
              omega arith,
              (
                omega arith,
                (
                  omega arith,
                  (
                    omega arith,
                    (omega arith, (omega arith, (s.0, (s.1.0, (s.1.1.0, (s.1.1.1.0, d)))))),
                  ),
                ),
              ),
            ),
          ),
        ),
      ),
    ),
  ),
)

header-word_sum :
    (ip_length identification checksum : ℕ) (source_ip destination_ip : Ipv4Addr)
    → checksum ≤ 65535
    → word_sum (ip_header ip_length identification checksum source_ip destination_ip)
      ≡ word_sum (ip_header ip_length identification 0 source_ip destination_ip) + checksum
unfolding ip_header
header-word_sum ip_length identification checksum source_ip destination_ip h = omega arith

header-positive :
    (ip_length identification : ℕ) (source_ip destination_ip : Ipv4Addr)
    → 1 ≤ word_sum (ip_header ip_length identification 0 source_ip destination_ip)
unfolding ip_header
header-positive ip_length identification source_ip destination_ip = omega arith

checksum_lem :
    (data_bytes : List ℕ)
    → AllBytes data_bytes
    → internet_checksum data_bytes ≡ 65535 - folded (word_sum data_bytes)
unfolding internet_checksum
checksum_lem data_bytes b =
    let loop : checksum_loop 0 data_bytes ≡ folded (word_sum data_bytes) =
      checksum_loop_lem data_bytes 0 b (omega arith) ∙ ap folded (omega arith) in
    let small = folded_small (word_sum data_bytes) in omega arith

-- The IPv4 header that the program writes, with the checksum that it computes over the header with
-- a zero field, has the checksum 0: this is what a receiver verifies. The addresses are made of
-- bytes; any length and identification.
pub header-checksum :
    (ip_length identification : ℕ) (source_ip destination_ip : Ipv4Addr)
    → AllBytes (octets source_ip)
    → AllBytes (octets destination_ip)
    → internet_checksum (
        ip_header ip_length identification
          (internet_checksum (ip_header ip_length identification 0 source_ip destination_ip))
          source_ip
          destination_ip)
      ≡ 0
header-checksum ip_length identification source_ip destination_ip s d =
    let header : ℕ → List ℕ = λ c. ip_header ip_length identification c source_ip destination_ip in
    let c : ℕ = internet_checksum (header 0) in
    let first : c ≡ 65535 - folded (word_sum (header 0)) =
      checksum_lem (header 0)
        (header-AllBytes ip_length identification 0 source_ip destination_ip s d) in
    let total : word_sum (header c) ≡ word_sum (header 0) + (65535 - folded (word_sum (header 0))) =
      header-word_sum ip_length identification c source_ip destination_ip (omega arith)
      ∙ ap (λ v. word_sum (header 0) + v) first in
    let positive = header-positive ip_length identification source_ip destination_ip in
    let whole : folded (word_sum (header c)) ≡ 65535 =
      ap folded total ∙ folded_complement (word_sum (header 0)) positive in
    checksum_lem (header c)
      (header-AllBytes ip_length identification c source_ip destination_ip s d)
    ∙ ap (λ v. 65535 - v) whole
