-- ===== src/Protocol/Jpeg/Parts.antt =====
-- protocol.rs: the parts of a frame whose first fragments have arrived in order.
use michoi.Common.{
  ℕ, zero, suc, ◌+◌, ◌≤◌, ◌<◌, true, false, some, List, [], ◌∷◌, ◌++◌, ◌≡◌, refl, ap, arith,
}
use michoi.Common.{length, ltb, ◌==◌, lookup, insert, member, keys, nat_key, ==_refl}
use michoi.Protocol.{MediaFragment, media_jpeg}
use michoi.Protocol.Jpeg.{Entry, JpegReassembler, insert_sorted, has_index, has_all, concat_parts}

abbrev pub Frames : Type 0
Frames = List (ℕ × Entry)

abbrev pub fragment : ℕ → ℕ → ℕ → List ℕ → MediaFragment
fragment sequence count index payload = record {
  media_type = media_jpeg;
  sequence = sequence;
  fragment_count = count;
  fragment_index = index;
  valid_length = length payload;
  payload = payload;
}

-- The fragments of consecutive chunks, from an index on.
abbrev pub fragments : ℕ → ℕ → ℕ → List (List ℕ) → List MediaFragment
fragments sequence count index [] = []
fragments sequence count index (c ∷ cs) =
    fragment sequence count index c ∷ fragments sequence count (index + 1) cs

abbrev pub concat : List (List ℕ) → List ℕ
concat [] = []
concat (c ∷ cs) = c ++ concat cs

abbrev pub indexed : ℕ → List (List ℕ) → List (ℕ × List ℕ)
indexed i [] = []
indexed i (c ∷ cs) = (i, c) ∷ indexed (i + 1) cs

pub length-indexed : (i : ℕ) (cs : List (List ℕ)) → length (indexed i cs) ≡ length cs
length-indexed i [] = refl
length-indexed i (c ∷ cs) = ap suc (length-indexed (i + 1) cs)

pub concat_parts-indexed : (i : ℕ) (cs : List (List ℕ)) → concat_parts (indexed i cs) ≡ concat cs
concat_parts-indexed i [] = refl
concat_parts-indexed i (c ∷ cs) = ap (λ t. c ++ t) (concat_parts-indexed (i + 1) cs)

pub insert_sorted-indexed :
    (i k : ℕ) (cs : List (List ℕ)) (c : List ℕ)
    → k ≡ i + length cs
    → insert_sorted k c (indexed i cs) ≡ indexed i (cs ++ (c ∷ []))
unfolding insert_sorted
insert_sorted-indexed i k [] c h = ap (λ j. (j, c) ∷ []) (omega arith)
insert_sorted-indexed i k (d ∷ cs) c h =
    let later : ltb k i ≡ false = ground arith in
    let other : (k == i) ≡ false = ground arith in
    rw (later, other) (ap (λ t. (i, d) ∷ t) (insert_sorted-indexed (i + 1) k cs c (omega arith)))

pub has_index-indexed :
    (k i : ℕ) (cs : List (List ℕ)) → i ≤ k → k < i + length cs → has_index k (indexed i cs) ≡ true
has_index-indexed k i [] h l = absurd (omega arith)
has_index-indexed k i (c ∷ cs) h l = ground (arith, has_index-indexed k (i + 1) cs)

pub has_all-indexed : (n : ℕ) (cs : List (List ℕ)) → n ≤ length cs → has_all n (indexed 1 cs) ≡ true
unfolding has_all
has_all-indexed zero cs h = refl
has_all-indexed (suc n) cs h =
    rw (
      has_index-indexed (suc n) 1 cs (omega arith) (omega arith),
      has_all-indexed n cs (omega arith),
    )

pub lookup-append_last :
    (k : ℕ) (e : Entry) (m : Frames)
    → member k (keys m) ≡ false
    → lookup k (m ++ ((k, e) ∷ [])) ≡ some e
lookup-append_last k e [] h = ground (arith, ==_refl k)
lookup-append_last k e ((j, w) ∷ m) h = ground (arith, lookup-append_last k e m)

pub insert-append_last :
    (k : ℕ) (e e' : Entry) (m : Frames)
    → member k (keys m) ≡ false
    → insert k e' (m ++ ((k, e) ∷ [])) ≡ m ++ ((k, e') ∷ [])
insert-append_last k e e' [] h = ground (arith, ==_refl k)
insert-append_last k e e' ((j, w) ∷ m) h = ground (arith, insert-append_last k e e' m)

pub keys-append_last :
    (k : ℕ) (e : Entry) (m : Frames) → keys (m ++ ((k, e) ∷ [])) ≡ keys m ++ (k ∷ [])
keys-append_last k e [] = refl
keys-append_last k e ((j, w) ∷ m) = ap (λ t. j ∷ t) (keys-append_last k e m)

-- The reassembler that holds the frames `m` and the first chunks of one more.
abbrev pub holding : Frames → ℕ → ℕ → List (List ℕ) → JpegReassembler
holding m sequence count taken = record {
  frames = m ++ ((sequence, record { count = count; parts = indexed 1 taken }) ∷ []);
  order = keys m ++ (sequence ∷ []);
}
