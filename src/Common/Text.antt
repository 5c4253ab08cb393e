-- ===== src/Common/Text.antt =====
-- The methods of `str` that the program uses, on UTF-8 bytes: white space is Unicode's, letter case
-- is ASCII's.
use Prim.Native.Nat.{ℕ, zero, suc, ◌+◌, ◌-◌, ◌*◌, ◌/◌, ◌%◌, ◌^◌}
use mathlib.Core.Bool.{Bool, true, ◌&&◌, ◌||◌}
use mathlib.Core.Option.{Option, none, some}
use mathlib.Core.List.{List, [], ◌∷◌, ◌++◌, reverse}
use michoi.Common.Tests.{ltb, leb, ◌==◌, if◌then◌else◌, str_eq}
use michoi.Common.Lists.{length, take, drop}
use michoi.Common.Bytes.{Str}

-- `u64::to_string`, on fuel for its digits: 20 are enough for every `u64`.
abbrev pub decimal_from : ℕ → ℕ → Str
decimal_from zero n = []
decimal_from (suc fuel) n =
    let high = decimal_from fuel (n / 10) in
    if ltb n 10 then (48 + n) ∷ [] else high ++ ((48 + n % 10) ∷ [])

unfoldable pub decimal : ℕ → Str
decimal n = decimal_from 20 n

abbrev pub lower : ℕ → ℕ
lower x = if leb b'A' x && leb x b'Z' then x + 32 else x

-- `to_ascii_lowercase`
abbrev pub to_lower : Str → Str
to_lower [] = []
to_lower (x ∷ xs) = lower x ∷ to_lower xs

-- `eq_ignore_ascii_case`
abbrev pub same_word : Str → Str → Bool
same_word s t = str_eq (to_lower s) (to_lower t)

abbrev pub one_space : ℕ → Bool
one_space x = (leb 9 x && leb x 13) || x == 32

abbrev pub two_space : ℕ → ℕ → Bool
two_space x y = x == 0xc2 && (y == 0x85 || y == 0xa0)

abbrev pub three_space : ℕ → ℕ → ℕ → Bool
three_space x y z =
    (x == 0xe1 && y == 0x9a && z == 0x80)
    || (x == 0xe2
        && y == 0x80
        && ((leb 0x80 z && leb z 0x8a) || z == 0xa8 || z == 0xa9 || z == 0xaf))
    || (x == 0xe2 && y == 0x81 && z == 0x9f)
    || (x == 0xe3 && y == 0x80 && z == 0x80)

-- The text in units: a white space character, marked `true`, or one other byte.
unfoldable pub units : Str → List (Bool × List ℕ)
units [] = []
units (x ∷ []) = (one_space x, x ∷ []) ∷ []
units (x ∷ (y ∷ [])) =
    let next = units (y ∷ []) in
    if two_space x y then (true, x ∷ y ∷ []) ∷ [] else (one_space x, x ∷ []) ∷ next
units (x ∷ (y ∷ (z ∷ rest))) =
    let one = units (y ∷ (z ∷ rest)) in
    let two = units (z ∷ rest) in
    let three = units rest in
    if two_space x y
    then (true, x ∷ y ∷ []) ∷ two
    else if three_space x y z
    then (true, x ∷ y ∷ z ∷ []) ∷ three
    else (one_space x, x ∷ []) ∷ one

abbrev pub drop_spaces : List (Bool × List ℕ) → List (Bool × List ℕ)
drop_spaces [] = []
drop_spaces ((space, bytes) ∷ rest) =
    let later = drop_spaces rest in if space then later else (space, bytes) ∷ rest

abbrev pub bytes_of : List (Bool × List ℕ) → Str
bytes_of [] = []
bytes_of ((_, bytes) ∷ rest) = bytes ++ bytes_of rest

unfoldable pub trim : Str → Str
trim s = bytes_of (reverse (drop_spaces (reverse (drop_spaces (units s)))))

abbrev close_word : Str → List Str → List Str
close_word [] words = words
close_word (x ∷ xs) words = (x ∷ xs) ∷ words

abbrev words_from : Str → List (Bool × List ℕ) → List Str
words_from word [] = close_word word []
words_from word ((space, bytes) ∷ rest) =
    let next = words_from [] rest in
    let same = words_from (word ++ bytes) rest in if space then close_word word next else same

unfoldable pub split_whitespace : Str → List Str
split_whitespace s = words_from [] (units s)

abbrev pub to_first : ℕ → List Str → List Str
to_first x [] = (x ∷ []) ∷ []
to_first x (p ∷ ps) = (x ∷ p) ∷ ps

-- `split` at a character.
unfoldable pub split : ℕ → Str → List Str
split at [] = [] ∷ []
split at (x ∷ xs) = let rest = split at xs in if x == at then [] ∷ rest else to_first x rest

abbrev pub after_first : ℕ → Option (Str × Str) → Option (Str × Str)
after_first x none = none
after_first x (some (before, after)) = some (x ∷ before, after)

-- `split_once` at a character.
unfoldable pub split_once : ℕ → Str → Option (Str × Str)
split_once at [] = none
split_once at (x ∷ xs) =
    let rest = split_once at xs in if x == at then some ([], xs) else after_first x rest

abbrev pub starts_with : Str → Str → Bool
starts_with prefix s = str_eq (take (length prefix) s) prefix

abbrev pub ends_with : Str → Str → Bool
ends_with suffix s =
    leb (length suffix) (length s) && str_eq (drop (length s - length suffix) s) suffix

-- `contains`
abbrev pub contains : Str → Str → Bool
contains part [] = str_eq part []
contains part (x ∷ xs) = starts_with part (x ∷ xs) || contains part xs

-- The value of a digit up to base 36.
abbrev pub digit_value : ℕ → Option ℕ
digit_value x =
    if leb b'0' x && leb x b'9'
    then some (x - 48)
    else if leb b'a' x && leb x b'z'
    then some (x - 87)
    else if leb b'A' x && leb x b'Z'
    then some (x - 55)
    else none

abbrev pub add_digit : ℕ → ℕ → Option ℕ → Option ℕ
add_digit radix n none = none
add_digit radix n (some d) =
    if leb radix d
    then none
    else if ltb (n * radix + d) (2 ^ 64)
    then some (n * radix + d)
    else none

abbrev pub digits_from : ℕ → Str → Option ℕ → Option ℕ
digits_from radix s none = none
digits_from radix [] (some n) = some n
digits_from radix (x ∷ xs) (some n) = digits_from radix xs (add_digit radix n (digit_value x))

abbrev pub unsigned : ℕ → Str → Option ℕ
unsigned radix [] = none
unsigned radix (x ∷ xs) = digits_from radix (x ∷ xs) (some 0)

-- `from_str_radix` for a 64-bit unsigned number: a plus sign may stand in front of the digits.
unfoldable pub from_str_radix : ℕ → Str → Option ℕ
from_str_radix radix [] = none
from_str_radix radix (x ∷ xs) = if x == b'+' then unsigned radix xs else unsigned radix (x ∷ xs)
