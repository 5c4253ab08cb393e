-- ===== src/Protocol/Jpeg.antt =====
-- protocol.rs: `JpegReassembler`, which collects the fragments of a frame in any order.
-- `frames` is a `BTreeMap` read only by its keys, so it is an association list in the order of
-- insertion; the parts of a frame are read in the order of their indices, so they are kept sorted.
pub mod Tidy
pub mod Parts
pub mod Reassembly
pub mod Delivery
pub mod Wire
use michoi.Common.{
  ℕ, zero, suc, ◌+◌, Bool, true, false, not, ◌&&◌, ◌||◌, Option, none, some, List, [], ◌∷◌, ◌++◌,
}
use michoi.Common.{
  length, take, drop, keep, ltb, leb, ◌==◌, if◌then◌else◌, str_eq, lookup, insert, remove, member,
  nat_key,
}
use michoi.Protocol.{MediaFragment, media_jpeg}

pub record Entry : Type 0 where
  pub count : ℕ
  pub parts : List (ℕ × List ℕ)

pub record JpegReassembler : Type 0 where
  pub frames : List (ℕ × Entry)
  pub order : List ℕ

unfoldable pub empty : JpegReassembler
empty = record { frames = []; order = [] }

-- `BTreeMap::insert`
unfoldable pub insert_sorted : ℕ → List ℕ → List (ℕ × List ℕ) → List (ℕ × List ℕ)
insert_sorted k v [] = (k, v) ∷ []
insert_sorted k v ((j, w) ∷ m) =
    if ltb k j
    then (k, v) ∷ ((j, w) ∷ m)
    else if k == j
    then (k, v) ∷ m
    else (j, w) ∷ insert_sorted k v m

abbrev pub has_index : ℕ → List (ℕ × List ℕ) → Bool
has_index k [] = false
has_index k ((j, w) ∷ m) = j == k || has_index k m

-- `(1..=count).all(|index| parts.contains_key(&index))`
unfoldable pub has_all : ℕ → List (ℕ × List ℕ) → Bool
has_all zero m = true
has_all (suc n) m = has_index (suc n) m && has_all n m

-- `parts.into_values().flatten()`
abbrev pub concat_parts : List (ℕ × List ℕ) → List ℕ
concat_parts [] = []
concat_parts ((k, v) ∷ m) = v ++ concat_parts m

-- `starts_with(&[0xff, 0xd8])` and `ends_with(&[0xff, 0xd9])`
abbrev pub starts_jpeg : List ℕ → Bool
starts_jpeg frame = str_eq (take 2 frame) (0xff ∷ 0xd8 ∷ [])

unfoldable pub ends_jpeg : List ℕ → Bool
ends_jpeg [] = false
ends_jpeg (x ∷ xs) = str_eq (x ∷ xs) (0xff ∷ 0xd9 ∷ []) || ends_jpeg xs

unfoldable pub checked_frame : List ℕ → Option (List ℕ)
checked_frame frame = if starts_jpeg frame && ends_jpeg frame then some frame else none

-- `trim`, by recursion on the order: `none` is the endless loop over more than 8 frames with an
-- empty order.
unfoldable pub trim_loop : List (ℕ × Entry) → List ℕ → Option JpegReassembler
trim_loop frames [] =
    if ltb 8 (length frames) then none else some (record { frames = frames; order = [] })
trim_loop frames (old ∷ rest) =
    let trimmed = trim_loop (remove old frames) rest in
    if ltb 8 (length frames) then trimmed else some (record { frames = frames; order = old ∷ rest })

-- The entry that a fragment joins: a new one where there is none or where the count differs.
abbrev entry_for : Option Entry → ℕ → Entry
entry_for none count = record { count = count; parts = [] }
entry_for (some e) count = if e.count == count then e else record { count = count; parts = [] }

abbrev joined : JpegReassembler → MediaFragment → Entry
joined r f =
    let e = entry_for (lookup f.sequence r.frames) f.fragment_count in
    record e { parts = insert_sorted f.fragment_index f.payload e.parts }

abbrev noted : JpegReassembler → MediaFragment → List ℕ
noted r f = elim (lookup f.sequence r.frames) [
  | none ↦ r.order ++ (f.sequence ∷ [])
  | some _ ↦ r.order
]

abbrev is_complete : Entry → Bool
is_complete e = length e.parts == e.count && has_all e.count e.parts

abbrev with_none : Option JpegReassembler → Option (JpegReassembler × Option (List ℕ))
with_none none = none
with_none (some r) = some (r, none)

-- What a fragment's entry brings about, given the order with its frame noted.
abbrev collect :
    JpegReassembler → MediaFragment → List ℕ → Entry → Option (JpegReassembler × Option (List ℕ))
collect r f order e =
    let frames = insert f.sequence e r.frames in
    if not (is_complete e)
    then with_none (trim_loop frames order)
    else some (
      record { frames = remove f.sequence frames; order = keep (λ s. not (s == f.sequence)) order },
      checked_frame (concat_parts e.parts),
    )

abbrev pub is_wanted : MediaFragment → Bool
is_wanted f =
    f.media_type == media_jpeg
    && (not (f.fragment_count == 0)
        && (not (f.fragment_index == 0) && leb f.fragment_index f.fragment_count))

unfoldable pub push : JpegReassembler → MediaFragment → Option (JpegReassembler × Option (List ℕ))
push r f = if not (is_wanted f) then some (r, none) else collect r f (noted r f) (joined r f)
