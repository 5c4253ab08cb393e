-- ===== src/Protocol/Jpeg/Tidy.antt =====
-- protocol.rs: the reassembler's invariant. Its order lists the frames that it holds, once each, and
-- it never holds more than eight, so `trim` ends.
use michoi.Common.{
  ℕ, ◌+◌, ◌≤◌, false, not, ◌||◌, Option, none, some, List, [], ◌∷◌, ◌++◌, ◌≡◌, refl, sym, ap, ◌∙◌,
  arith, inl, inr, Bool-cases, Option-cases,
}
use michoi.Common.{length, keep, ltb, ◌==◌, lookup, insert, remove, member, keys, Distinct, nat_key}
use michoi.Protocol.{MediaFragment}
use michoi.Protocol.Jpeg.{
  Entry, JpegReassembler, empty, trim_loop, joined, noted, is_complete, with_none, is_wanted, push,
  checked_frame, concat_parts,
}
use mathlib.Core.Path.{subst}

abbrev Frames : Type 0
Frames = List (ℕ × Entry)

pub record IsTidy (r : JpegReassembler) : Type 0 where
  pub listed : keys r.frames ≡ r.order
  pub once : Distinct r.order
  pub few : length r.frames ≤ 8

pub empty-IsTidy : IsTidy empty
unfolding empty
empty-IsTidy = record { listed = refl; once = tt; few = omega arith }

pub keys-insert_new :
    (k : ℕ) (e : Entry) (m : Frames) → lookup k m ≡ none → keys (insert k e m) ≡ keys m ++ (k ∷ [])
keys-insert_new k e [] h = refl
keys-insert_new k e ((j, w) ∷ m) h = ground (arith, keys-insert_new k e m)

keys-insert_old :
    (k : ℕ) (e w : Entry) (m : Frames) → lookup k m ≡ some w → keys (insert k e m) ≡ keys m
keys-insert_old k e w [] h = cc
keys-insert_old k e w ((j, v) ∷ m) h = ground (arith, keys-insert_old k e w m)

pub lookup-none-member : (k : ℕ) (m : Frames) → lookup k m ≡ none → member k (keys m) ≡ false
lookup-none-member k [] h = refl
lookup-none-member k ((j, w) ∷ m) h = ground (arith, lookup-none-member k m)

member-append_last : (k j : ℕ) (ks : List ℕ) → member k (ks ++ (j ∷ [])) ≡ (member k ks || j == k)
member-append_last k j [] = ground arith
member-append_last k j (i ∷ ks) = ground (arith, member-append_last k j ks)

Distinct-append :
    (k : ℕ) (ks : List ℕ) → Distinct ks → member k ks ≡ false → Distinct (ks ++ (k ∷ []))
Distinct-append k [] d h = (refl, tt)
Distinct-append k (j ∷ ks) d h =
    (ground (arith, member-append_last j k ks, d.0), Distinct-append k ks d.1 (ground arith))

length-insert : (k : ℕ) (e : Entry) (m : Frames) → length (insert k e m) ≤ length m + 1
length-insert k e [] = omega arith
length-insert k e ((j, w) ∷ m) = ground (arith, length-insert k e m)

-- What `noted` lists is the keys after the insertion.
noted_lem :
    (r : JpegReassembler) (f : MediaFragment) (e : Entry)
    → keys r.frames ≡ r.order
    → keys (insert f.sequence e r.frames) ≡ noted r f
noted_lem r f e h = elim (Option-cases (lookup f.sequence r.frames)) [
  | inl absent ↦
      keys-insert_new f.sequence e r.frames absent
      ∙ ap (λ t. t ++ (f.sequence ∷ [])) h
      ∙ ground arith
  | inr (w, present) ↦ keys-insert_old f.sequence e w r.frames present ∙ h ∙ ground arith
]

noted-Distinct : (r : JpegReassembler) (f : MediaFragment) → IsTidy r → Distinct (noted r f)
noted-Distinct r f t = elim (Option-cases (lookup f.sequence r.frames)) [
  | inl absent ↦
      let fresh : member f.sequence r.order ≡ false =
        subst (λ ks. member f.sequence ks ≡ false) t.listed
          (lookup-none-member f.sequence r.frames absent) in
      subst Distinct (ground arith) (Distinct-append f.sequence r.order t.once fresh)
  | inr (w, present) ↦ subst Distinct (ground arith) t.once
]

-- With at most nine frames listed in their order, `trim` ends and leaves at most eight.
pub trim_loop_small :
    (m : Frames)
    → length m ≤ 8
    → trim_loop m (keys m) ≡ some (record { frames = m; order = keys m })
unfolding trim_loop
trim_loop_small [] h = ground arith
trim_loop_small ((k, e) ∷ m) h = ground arith

trim_lem :
    (m : Frames)
    → Distinct (keys m)
    → length m ≤ 9
    → (r : JpegReassembler) × (trim_loop m (keys m) ≡ some r) × IsTidy r
unfolding trim_loop
trim_lem [] d h = (_, refl, record { listed = refl; once = tt; few = omega arith })
trim_lem ((k, e) ∷ m) d h = elim (Bool-cases (ltb 8 (length ((k, e) ∷ m)))) [
  | inl many ↦
      let gone : remove k ((k, e) ∷ m) ≡ m = ground arith in
      let few : length m ≤ 8 = omega arith in
      (
        record { frames = m; order = keys m },
        rw (many, gone) (trim_loop_small m few),
        record { listed = refl; once = d.1; few = few },
      )
  | inr few ↦ (
    record { frames = (k, e) ∷ m; order = keys ((k, e) ∷ m) },
    rw few,
    record { listed = refl; once = d; few = ground arith },
  )
]

keep_absent : (k : ℕ) (ks : List ℕ) → member k ks ≡ false → keep (λ s. not (s == k)) ks ≡ ks
keep_absent k [] h = refl
keep_absent k (j ∷ ks) h = ground (arith, keep_absent k ks)

keys-remove :
    (k : ℕ) (m : Frames) → Distinct (keys m) → keys (remove k m) ≡ keep (λ s. not (s == k)) (keys m)
keys-remove k [] d = refl
keys-remove k ((j, w) ∷ m) d = elim (Bool-cases (j == k)) [
  | inl same ↦
      let e : j ≡ k = ground arith in
      rw (same) (sym (keep_absent k (keys m) (subst (λ i. member i (keys m) ≡ false) e d.0)))
  | inr other ↦ rw (other) (ap (λ t. j ∷ t) (keys-remove k m d.1))
]

member-keep :
    (i k : ℕ) (ks : List ℕ) → member i ks ≡ false → member i (keep (λ s. not (s == k)) ks) ≡ false
member-keep i k [] h = refl
member-keep i k (j ∷ ks) h = ground (arith, member-keep i k ks)

Distinct-keep : (k : ℕ) (ks : List ℕ) → Distinct ks → Distinct (keep (λ s. not (s == k)) ks)
Distinct-keep k [] d = tt
Distinct-keep k (j ∷ ks) d = elim (Bool-cases (j == k)) [
  | inl same ↦ rw same (Distinct-keep k ks d.1)
  | inr other ↦ rw other (member-keep j k ks d.0, Distinct-keep k ks d.1)
]

length-remove-insert :
    (k : ℕ) (e : Entry) (m : Frames) → length (remove k (insert k e m)) ≤ length m
length-remove-insert k e [] = ground arith
length-remove-insert k e ((j, w) ∷ m) = ground (arith, length-remove-insert k e m)

-- A fragment always gets an answer, in particular `trim` ends; and the reassembler stays tidy: its
-- order lists each frame that it holds once, and they are at most eight.
pub push_total :
    (r : JpegReassembler) (f : MediaFragment)
    → IsTidy r
    → (r' : JpegReassembler) × (out : Option (List ℕ)) × (push r f ≡ some (r', out)) × IsTidy r'
unfolding push
push_total r f t = elim (Bool-cases (is_wanted f)) [
  | inr unwanted ↦ (r, none, rw unwanted, t)
  | inl wanted ↦
      let e : Entry = joined r f in
      let m : Frames = insert f.sequence e r.frames in
      let listed : keys m ≡ noted r f = noted_lem r f e t.listed in
      let once : Distinct (keys m) = subst Distinct (sym listed) (noted-Distinct r f t) in
      elim (Bool-cases (is_complete e)) [
        | inl full ↦
            let r' : JpegReassembler = record {
              frames = remove f.sequence m;
              order = keep (λ s. not (s == f.sequence)) (noted r f);
            } in
            (
              r',
              checked_frame (concat_parts e.parts),
              rw (wanted, full),
              record {
                listed =
                    keys-remove f.sequence m once ∙ ap (keep (λ s. not (s == f.sequence))) listed;
                once =
                    subst (λ ks. Distinct (keep (λ s. not (s == f.sequence)) ks)) listed
                      (Distinct-keep f.sequence (keys m) once);
                few = omega (arith, length-remove-insert f.sequence e r.frames, t.few);
              },
            )
        | inr partial ↦
            let (r', ended, tidy) =
              trim_lem m once (omega (arith, length-insert f.sequence e r.frames, t.few)) in
            (
              r',
              none,
              rw (wanted, partial)
                  (ap (λ ks. with_none (trim_loop m ks)) (sym listed) ∙ ap with_none ended),
              tidy,
            )
      ]
]
