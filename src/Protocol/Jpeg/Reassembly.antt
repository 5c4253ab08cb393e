-- ===== src/Protocol/Jpeg/Reassembly.antt =====
-- protocol.rs: fragments that arrive in order give the frame back.
use michoi.Common.{
  ℕ, ◌+◌, ◌≤◌, ◌<◌, true, false, not, Option, none, some, List, [], ◌∷◌, ◌++◌, ◌≡◌, refl, sym, ap,
  ◌∙◌, arith,
}
use michoi.Common.{
  length, keep, ◌==◌, lookup, insert, remove, member, keys, nat_key, length-append, ==_refl,
}
use michoi.Protocol.{MediaFragment}
use michoi.Protocol.Jpeg.{
  Entry, JpegReassembler, concat_parts, checked_frame, trim_loop, joined, noted, is_complete,
  with_none, collect, is_wanted, push,
}
use michoi.Protocol.Jpeg.Tidy.{trim_loop_small}
use michoi.Protocol.Jpeg.Parts.{
  Frames, fragment, fragments, concat, indexed, length-indexed, concat_parts-indexed,
  insert_sorted-indexed, has_all-indexed, lookup-append_last, insert-append_last, keys-append_last,
  holding,
}
use mathlib.Core.Path.{subst}
use mathlib.Core.List.{append_assoc}

concat-append : (cs ds : List (List ℕ)) → concat (cs ++ ds) ≡ concat cs ++ concat ds
concat-append [] ds = refl
concat-append (c ∷ cs) ds =
    ap (λ t. c ++ t) (concat-append cs ds) ∙ sym (append_assoc c (concat cs) (concat ds))

pub push_wanted :
    (r : JpegReassembler) (f : MediaFragment)
    → is_wanted f ≡ true
    → push r f ≡ collect r f (noted r f) (joined r f)
unfolding push
push_wanted r f h = rw h

pub collect_partial :
    (r : JpegReassembler) (f : MediaFragment) (order : List ℕ) (e : Entry)
    → is_complete e ≡ false
    → collect r f order e ≡ with_none (trim_loop (insert f.sequence e r.frames) order)
collect_partial r f order e h = rw h

pub collect_complete :
    (r : JpegReassembler) (f : MediaFragment) (order : List ℕ) (e : Entry)
    → is_complete e ≡ true
    → collect r f order e
      ≡ some (
        record {
          frames = remove f.sequence (insert f.sequence e r.frames);
          order = keep (λ s. not (s == f.sequence)) order;
        },
        checked_frame (concat_parts e.parts),
      )
collect_complete r f order e h = rw h

-- One more fragment in order, for a reassembler that holds the ones before it.
module _ (m : Frames) (sequence count : ℕ) (taken : List (List ℕ)) (c : List ℕ)
    (absent : member sequence (keys m) ≡ false) (few : length m ≤ 7) where
  abbrev next : MediaFragment
  next = fragment sequence count (length taken + 1) c

  abbrev entry : Entry
  entry = record { count = count; parts = indexed 1 (taken ++ (c ∷ [])) }

  wanted : length taken < count → is_wanted next ≡ true
  wanted counted = ground arith

  found :
      lookup sequence (holding m sequence count taken).frames
      ≡ some (record { count = count; parts = indexed 1 taken })
  found = lookup-append_last sequence (record { count = count; parts = indexed 1 taken }) m absent

  joined-next : joined (holding m sequence count taken) next ≡ entry
  joined-next =
      rw (found, ==_refl count)
        (ap (λ t. record { count = count; parts = t })
          (insert_sorted-indexed 1 (length taken + 1) taken c (omega arith)))

  noted-next : noted (holding m sequence count taken) next ≡ keys m ++ (sequence ∷ [])
  noted-next = ground (arith, found)

  inserted :
      insert sequence entry (holding m sequence count taken).frames ≡ m ++ ((sequence, entry) ∷ [])
  inserted =
      insert-append_last sequence (record { count = count; parts = indexed 1 taken }) entry m absent

  length-entry : length entry.parts ≡ length taken + 1
  length-entry = length-indexed 1 (taken ++ (c ∷ [])) ∙ omega (arith, length-append taken (c ∷ []))

  kept :
      trim_loop (m ++ ((sequence, entry) ∷ [])) (keys m ++ (sequence ∷ []))
      ≡ some (holding m sequence count (taken ++ (c ∷ [])))
  kept =
      let frames : Frames = m ++ ((sequence, entry) ∷ []) in
      let order : keys frames ≡ keys m ++ (sequence ∷ []) = keys-append_last sequence entry m in
      subst (λ ks. trim_loop frames ks ≡ some (record { frames = frames; order = ks })) order
        (trim_loop_small frames (omega (arith, length-append m ((sequence, entry) ∷ []))))

  full : length taken + 1 ≡ count → is_complete entry ≡ true
  full last =
      ground (
        arith,
        length-entry,
        has_all-indexed count (taken ++ (c ∷ [])),
        length-append taken (c ∷ []),
      )

  collected :
      length taken < count
      → push (holding m sequence count taken) next
        ≡ collect (holding m sequence count taken) next (keys m ++ (sequence ∷ [])) entry
  collected counted =
      let r : JpegReassembler = holding m sequence count taken in
      push_wanted r next (wanted counted)
      ∙ ap (λ e. collect r next (noted r next) e) joined-next
      ∙ ap (λ o. collect r next o entry) noted-next

  -- Not the last one: the reassembler waits.
  push_middle :
      length taken + 1 < count
      → push (holding m sequence count taken) next
        ≡ some (holding m sequence count (taken ++ (c ∷ [])), none)
  push_middle more =
      let r : JpegReassembler = holding m sequence count taken in
      let order : List ℕ = keys m ++ (sequence ∷ []) in
      let partial : is_complete entry ≡ false = ground (arith, length-entry) in
      collected (omega arith)
      ∙ collect_partial r next order entry partial
      ∙ ap (λ fs. with_none (trim_loop fs order)) inserted
      ∙ ap with_none kept

  -- The last one: the frame is put together and forgotten.
  push_last :
      length taken + 1 ≡ count
      → (r : JpegReassembler) × (push (holding m sequence count taken) next
          ≡ some (r, checked_frame (concat (taken ++ (c ∷ [])))))
  push_last last =
      let r : JpegReassembler = holding m sequence count taken in
      let order : List ℕ = keys m ++ (sequence ∷ []) in
      let left : JpegReassembler = record {
        frames = remove sequence (insert sequence entry r.frames);
        order = keep (λ s. not (s == sequence)) order;
      } in
      (
        left,
        collected (omega arith)
            ∙ collect_complete r next order entry (full last)
            ∙ ap (λ t. some (left, checked_frame t)) (concat_parts-indexed 1 (taken ++ (c ∷ []))),
      )

-- What is handed out while the chunks of a frame come in: nothing, and at the last one the frame.
abbrev pub answers : List (List ℕ) → Option (List ℕ) → List (Option (List ℕ))
answers [] out = []
answers (c ∷ []) out = out ∷ []
answers (c ∷ (d ∷ ds)) out = none ∷ answers (d ∷ ds) out

abbrev pub answer_with :
    Option (List ℕ)
    → Option (JpegReassembler × List (Option (List ℕ)))
    → Option (JpegReassembler × List (Option (List ℕ)))
answer_with out none = none
answer_with out (some (r, outs)) = some (r, out ∷ outs)

abbrev pub push_then :
    Option (JpegReassembler × Option (List ℕ))
    → (JpegReassembler → Option (JpegReassembler × List (Option (List ℕ))))
    → Option (JpegReassembler × List (Option (List ℕ)))
push_then none rest = none
push_then (some (r, out)) rest = answer_with out (rest r)

-- Pushing fragments one after the other, with what each push hands out.
abbrev pub push_all :
    JpegReassembler → List MediaFragment → Option (JpegReassembler × List (Option (List ℕ)))
push_all r [] = some (r, [])
push_all r (f ∷ fs) = push_then (push r f) (λ r'. push_all r' fs)

pub push_rest :
    (cs : List (List ℕ)) (c : List ℕ) (m : Frames) (sequence count : ℕ) (taken : List (List ℕ))
    → member sequence (keys m) ≡ false
    → length m ≤ 7
    → length taken + length (c ∷ cs) ≡ count
    → (r : JpegReassembler) × (push_all
          (holding m sequence count taken)
          (fragments sequence count (length taken + 1) (c ∷ cs))
        ≡ some (r, answers (c ∷ cs) (checked_frame (concat (taken ++ (c ∷ cs))))))
push_rest [] c m sequence count taken absent few counted =
    let (r, last) = push_last m sequence count taken c absent few (omega arith) in
    (r, ap (λ o. push_then o (λ r'. some (r', []))) last)
push_rest (d ∷ ds) c m sequence count taken absent few counted =
    let more : length taken + 1 < count = omega arith in
    let shorter : length (taken ++ (c ∷ [])) ≡ length taken + 1 =
      length-append taken (c ∷ []) ∙ omega arith in
    let (r, rest) =
      push_rest ds d m sequence count (taken ++ (c ∷ [])) absent few
        (omega (arith, length-append taken (c ∷ []))) in
    (
      r,
      ap
            (λ o.
              push_then o
                (λ r'. push_all r' (fragments sequence count (length taken + 1 + 1) (d ∷ ds))))
            (push_middle m sequence count taken c absent few more)
          ∙ ap
              (λ n. answer_with none (
                push_all (holding m sequence count (taken ++ (c ∷ [])))
                  (fragments sequence count (n + 1) (d ∷ ds))))
              (sym shorter)
          ∙ ap (answer_with none) rest
          ∙ ap (λ t. some (r, none ∷ answers (d ∷ ds) (checked_frame (concat t))))
              (append_assoc taken (c ∷ []) (d ∷ ds)),
    )
