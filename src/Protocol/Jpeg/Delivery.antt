-- ===== src/Protocol/Jpeg/Delivery.antt =====
-- protocol.rs: a whole frame, from its JPEG bytes through the packets to the reassembled frame.
use michoi.Common.{
  ℕ, ◌+◌, ◌≤◌, ◌<◌, true, false, none, some, List, [], ◌∷◌, ◌++◌, ◌≡◌, refl, sym, ap, ◌∙◌, arith,
  inl, inr, Bool-cases,
}
use michoi.Common.{
  length, ltb, lookup, remove, member, keys, nat_key, length-append, insert_fresh, ==_refl,
}
use michoi.Protocol.{MediaFragment}
use michoi.Protocol.Jpeg.{
  Entry, JpegReassembler, insert_sorted, has_all, checked_frame, trim_loop, joined, noted,
  is_complete, with_none, collect, push,
}
use michoi.Protocol.Jpeg.Tidy.{IsTidy, trim_loop_small, lookup-none-member}
use michoi.Protocol.Jpeg.Parts.{
  Frames, fragment, fragments, concat, indexed, keys-append_last, holding,
}
use michoi.Protocol.Jpeg.Reassembly.{
  push_wanted, collect_partial, collect_complete, answers, push_all, push_then, answer_with,
  push_rest,
}
use mathlib.Core.Path.{subst}

-- After the first fragment a tidy reassembler holds it, and has let go of its oldest frame if it was full.
start_trim :
    (m : Frames) (sequence : ℕ) (e : Entry)
    → member sequence (keys m) ≡ false
    → length m ≤ 8
    → (m' : Frames) × (trim_loop (m ++ ((sequence, e) ∷ [])) (keys m ++ (sequence ∷ []))
        ≡ some (record { frames = m' ++ ((sequence, e) ∷ []); order = keys m' ++ (sequence ∷ []) }))
      × (member sequence (keys m') ≡ false)
      × (length m' ≤ 7)
unfolding trim_loop
start_trim [] sequence e absent few = ([], refl, refl, omega arith)
start_trim ((k, w) ∷ m) sequence e absent few =
    let last : Frames = (sequence, e) ∷ [] in
    let size : length (m ++ last) ≡ length m + 1 = length-append m last in
    elim (Bool-cases (ltb 8 (length (((k, w) ∷ m) ++ last)))) [
      | inl many ↦
          let gone : remove k (((k, w) ∷ m) ++ last) ≡ m ++ last = ground (arith, ==_refl k) in
          let small = trim_loop_small (m ++ last) (omega (arith, size)) in
          let listed : keys (m ++ last) ≡ keys m ++ (sequence ∷ []) =
            keys-append_last sequence e m in
          (
            m,
            rw (many, gone)
                (subst
                  (λ ks.
                    trim_loop (m ++ last) ks ≡ some (record { frames = m ++ last; order = ks }))
                  listed small),
            ground arith,
            omega arith,
          )
      | inr all ↦ ((k, w) ∷ m, rw all, absent, ground (arith, size))
    ]

module _ (r : JpegReassembler) (tidy : IsTidy r) (sequence count : ℕ) (c : List ℕ)
    (new : lookup sequence r.frames ≡ none) (some_fragments : 0 < count) where
  abbrev first : MediaFragment
  first = fragment sequence count 1 c

  abbrev first_entry : Entry
  first_entry = record { count = count; parts = indexed 1 (c ∷ []) }

  absent : member sequence (keys r.frames) ≡ false
  absent = lookup-none-member sequence r.frames new

  collected_first : push r first ≡ collect r first (keys r.frames ++ (sequence ∷ [])) first_entry
  collected_first =
      let joined_first : joined r first ≡ first_entry =
        unfold insert_sorted in ground (arith, new) in
      let noted_first : noted r first ≡ r.order ++ (sequence ∷ []) = ground (arith, new) in
      push_wanted r first (ground arith)
      ∙ ap (λ e. collect r first (noted r first) e) joined_first
      ∙ ap (λ o. collect r first o first_entry)
          (noted_first ∙ ap (λ ks. ks ++ (sequence ∷ [])) (sym tidy.listed))

  push-first :
      1 < count
      → (m : Frames) × (push r first ≡ some (holding m sequence count (c ∷ []), none))
        × (member sequence (keys m) ≡ false)
        × (length m ≤ 7)
  push-first more =
      let (m, kept, gone, few) = start_trim r.frames sequence first_entry absent tidy.few in
      let partial : is_complete first_entry ≡ false = ground arith in
      let order : List ℕ = keys r.frames ++ (sequence ∷ []) in
      (
        m,
        collected_first
            ∙ collect_partial r first order first_entry partial
            ∙ ap (λ fs. with_none (trim_loop fs order))
                (insert_fresh sequence first_entry r.frames absent)
            ∙ ap with_none kept,
        gone,
        few,
      )

  push_only :
      count ≡ 1
      → (r' : JpegReassembler) × (push r first ≡ some (r', checked_frame (concat (c ∷ []))))
  push_only one =
      let order : List ℕ = keys r.frames ++ (sequence ∷ []) in
      let whole : is_complete first_entry ≡ true = unfold has_all in ground arith in
      (_, collected_first ∙ collect_complete r first order first_entry whole)

-- The fragments of a frame that arrive in order, whatever else the reassembler holds, make it hand
-- out nothing until the last one, and then the frame that they make up, if it is a JPEG. The frame's
-- sequence number is not in use, and the reassembler is tidy.
pub push_all_in_order :
    (r : JpegReassembler) (sequence : ℕ) (c : List ℕ) (cs : List (List ℕ))
    → IsTidy r
    → lookup sequence r.frames ≡ none
    → (r' : JpegReassembler) × (push_all r (fragments sequence (length (c ∷ cs)) 1 (c ∷ cs))
        ≡ some (r', answers (c ∷ cs) (checked_frame (concat (c ∷ cs)))))
push_all_in_order r sequence c [] tidy new =
    let (r', only) = push_only r tidy sequence 1 c new (omega arith) refl in
    (r', ap (λ o. push_then o (λ q. some (q, []))) only)
push_all_in_order r sequence c (d ∷ ds) tidy new =
    let count : ℕ = length (c ∷ (d ∷ ds)) in
    let (m, held, gone, few) = push-first r tidy sequence count c new (omega arith) (omega arith) in
    let (r', rest) = push_rest ds d m sequence count (c ∷ []) gone few (omega arith) in
    (
      r',
      ap (λ o. push_then o (λ q. push_all q (fragments sequence count 2 (d ∷ ds)))) held
          ∙ ap (answer_with none) rest,
    )
