-- ===== src/Common/Bytes.antt =====
-- Words as bytes in both orders, and the strings of the program: UTF-8 byte lists.
use Prim.Native.Nat.{ℕ, ◌+◌, ◌*◌, ◌/◌, ◌%◌, ◌<◌}
use Prim.Native.Char.{code}
use Prim.Native.String.{String}
use michoi.Common.Lists.{length, replicate, length-replicate}
use mathlib.Core.Path.{◌≡◌}
use mathlib.Core.List.{List, [], ◌∷◌}

-- A `String` is the list of its UTF-8 bytes.
abbrev pub Str : Type 0
Str = List ℕ

-- The bytes of an ASCII literal.
abbrev pub ascii : String → Str
ascii String.[] = []
ascii (String.◌∷◌ c s) = code c ∷ ascii s

abbrev pub IsByte : ℕ → Type 0
IsByte b = b < 256

-- `u16::to_le_bytes`, `u32::to_le_bytes`, `u16::to_be_bytes`.
abbrev pub u16_le : ℕ → List ℕ
u16_le v = v % 256 ∷ v / 256 % 256 ∷ []

abbrev pub u32_le : ℕ → List ℕ
u32_le v = v % 256 ∷ v / 256 % 256 ∷ v / 65536 % 256 ∷ v / 16777216 % 256 ∷ []

abbrev pub u16_be : ℕ → List ℕ
u16_be v = v / 256 % 256 ∷ v % 256 ∷ []

-- `from_le_bytes`, `from_be_bytes`.
abbrev pub of_le16 : ℕ → ℕ → ℕ
of_le16 a b = a + 256 * b

abbrev pub of_le32 : ℕ → ℕ → ℕ → ℕ → ℕ
of_le32 a b c d = a + 256 * b + 65536 * c + 16777216 * d

abbrev pub of_be16 : ℕ → ℕ → ℕ
of_be16 a b = 256 * a + b

pub length-zeros : (n : ℕ) → length {A = ℕ} (replicate n 0) ≡ n
length-zeros n = let z : ℕ = 0 in length-replicate n z
