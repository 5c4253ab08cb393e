-- ===== src/Net/Address.antt =====
-- The standard library's socket addresses, and the texts of IPv4 addresses: how one is printed, and
-- which text is read as one.
use michoi.Common.{
  ℕ, ◌+◌, ◌*◌, ◌/◌, ◌%◌, Option, none, some, List, [], ◌∷◌, ◌++◌, length, ltb, leb, ◌==◌,
  if◌then◌else◌,
}
use michoi.Common.Options.{◌>>=◌}
use michoi.Common.Bytes.{Str}
use michoi.Common.Text.{decimal, split, unsigned}
use michoi.Net.{Ipv4Addr}

-- An IPv6 address is its sixteen octets.
pub data SocketAddr : Type 0 where
  v4 : Ipv4Addr → ℕ → SocketAddr
  v6 : List ℕ → ℕ → SocketAddr

abbrev pub ip_text : Ipv4Addr → Str
ip_text ip =
    decimal ip.a ++ (b'.' ∷ (decimal ip.b ++ (b'.' ∷ (decimal ip.c ++ (b'.' ∷ decimal ip.d)))))

-- One octet: one to three digits without a leading zero, at most 255.
abbrev small_octet : Option ℕ → Option ℕ
small_octet none = none
small_octet (some n) = if ltb n 256 then some n else none

abbrev octet : Str → Option ℕ
octet (x ∷ (y ∷ rest)) =
    if x == b'0'
    then none
    else if leb (length rest) 1
    then small_octet (unsigned 10 (x ∷ (y ∷ rest)))
    else none
octet s = unsigned 10 s

abbrev four : List Str → Option Ipv4Addr
four (p ∷ (q ∷ (r ∷ (s ∷ [])))) = do
  a ← octet p
  b ← octet q
  c ← octet r
  d ← octet s
  some (record { a = a; b = b; c = c; d = d })
four _ = none

unfoldable pub parse_ip_text : Str → Option Ipv4Addr
parse_ip_text s = four (split b'.' s)

-- `u32::from` and `Ipv4Addr::from`.
abbrev pub ip_number : Ipv4Addr → ℕ
ip_number ip = ((ip.a * 256 + ip.b) * 256 + ip.c) * 256 + ip.d

abbrev pub number_ip : ℕ → Ipv4Addr
number_ip n = record { a = n / 16777216 % 256; b = n / 65536 % 256; c = n / 256 % 256; d = n % 256 }
