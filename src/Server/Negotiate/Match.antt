-- ===== src/Server/Negotiate/Match.antt =====
-- agent_server.rs: what the items of an Accept header ask for, described without the code: their
-- types, their qualities and the offers that they match.
use michoi.Common.{
  ℕ, suc, ◌+◌, ◌-◌, Bool, true, false, ◌&&◌, ◌||◌, not, Option, none, some, List, [], ◌∷◌, ◌++◌,
  ◌≡◌, ◌≢◌, ◌⊎◌, refl, ap, sym, ◌∙◌, inl, inr, All, Any, Bool-cases, Option-cases, length, take,
  drop, leb, str_eq, str_eq→eq, str_eq_refl, length-append, take-append, drop-append,
  take-append-drop, and_left, and_right, arith, if◌then◌else◌,
}
use mathlib.Core.Path.{subst}
use mathlib.Core.Bool.{false≢true}
use mathlib.Core.List.{append_assoc}
use michoi.Common.Bytes.{Str, ascii}
use michoi.Common.Text.{split, split_once, trim, to_lower, same_word, starts_with, ends_with}
use michoi.Server.Negotiate.{
  Quality, or_zero, param_q, quality_of, candidate, candidates, in_family, accepts, media_base,
}

-- The part before the first semicolon, without white space around it, in small letters.
abbrev pub type_of : List Str → Str
type_of [] = []
type_of (base ∷ params) = to_lower (trim base)

abbrev pub asked_type : Str → Str
asked_type item = type_of (split b';' item)

-- A type matches an offer that has it, any offer if it is `*/*`, and `family/*` the offers of its
-- family.
abbrev pub Matches : Str → Str → Type 0
Matches wanted offer =
    (wanted ≡ asked_type offer)
    ⊎ ((wanted ≡ ascii "*/*")
        ⊎ ((family : Str) × (rest : Str) × (wanted ≡ family ++ ascii "/*")
            × (asked_type offer ≡ family ++ (47 ∷ rest))))

base_lem :
    (parts : List Str) → type_of parts ≡ to_lower (trim (michoi.Server.Body.first_part parts))
unfolding trim michoi.Common.Text.units
base_lem [] = refl
base_lem (p ∷ ps) = refl

media_base_lem : (offer : Str) → media_base offer ≡ asked_type offer
unfolding media_base
media_base_lem offer = sym (base_lem (split b';' offer))

in_family-Family :
    (wanted base : Str)
    → in_family wanted base ≡ true
    → (family : Str) × (rest : Str) × (wanted ≡ family ++ ascii "/*")
      × (base ≡ family ++ (47 ∷ rest))
in_family-Family wanted base h =
    let n = length wanted - 2 in
    let family : Str = take n wanted in
    let ends = and_left _ _ h in
    let long : leb 2 (length wanted) ≡ true = and_left _ _ ends in
    let tail : drop n wanted ≡ ascii "/*" =
      str_eq→eq (drop n wanted) (ascii "/*") (and_right _ _ ends) in
    let whole : wanted ≡ family ++ ascii "/*" =
      sym (take-append-drop n wanted) ∙ ap (λ t. family ++ t) tail in
    let size : length family + 2 ≡ length wanted =
      sym (length-append family (ascii "/*")) ∙ ap length (sym whole) in
    let front : take (length wanted - 1) wanted ≡ family ++ (47 ∷ []) =
      ap (take (length wanted - 1)) (whole ∙ sym (append_assoc family (47 ∷ []) (42 ∷ [])))
      ∙ take-append (family ++ (47 ∷ [])) (42 ∷ []) (length wanted - 1)
          (omega (arith, length-append family (47 ∷ []), size)) in
    let p : Str = take (length wanted - 1) wanted in
    let begins : take (length p) base ≡ p = str_eq→eq (take (length p) base) p (and_right _ _ h) in
    let split_base : base ≡ family ++ (47 ∷ drop (length p) base) =
      sym (take-append-drop (length p) base)
      ∙ ap (λ t. t ++ drop (length p) base) (begins ∙ front)
      ∙ append_assoc family (47 ∷ []) (drop (length p) base) in
    (family, drop (length p) base, whole, split_base)

family-in_family :
    (family rest : Str) → in_family (family ++ ascii "/*") (family ++ (47 ∷ rest)) ≡ true
family-in_family family rest =
    let w : Str = family ++ ascii "/*" in
    let size : length w ≡ length family + 2 = length-append family (ascii "/*") in
    let long : leb 2 (length w) ≡ true = ground (arith, size) in
    let tail : drop (length w - 2) w ≡ ascii "/*" =
      drop-append family (ascii "/*") (length w - 2) (omega (arith, size)) in
    let front : take (length w - 1) w ≡ family ++ (47 ∷ []) =
      ap (take (length w - 1)) (sym (append_assoc family (47 ∷ []) (42 ∷ [])))
      ∙ take-append (family ++ (47 ∷ [])) (42 ∷ []) (length w - 1)
          (omega (arith, length-append family (47 ∷ []), size)) in
    let begins : take (length (family ++ (47 ∷ []))) (family ++ (47 ∷ rest)) ≡ family ++ (47 ∷ []) =
      ap (take (length (family ++ (47 ∷ [])))) (sym (append_assoc family (47 ∷ []) rest))
      ∙ take-append (family ++ (47 ∷ [])) rest (length (family ++ (47 ∷ []))) refl in
    rw (long, tail, str_eq_refl (ascii "/*"), front, begins, str_eq_refl (family ++ (47 ∷ []))) refl

or_cases : (a b : Bool) → (a || b) ≡ true → (a ≡ true) ⊎ (b ≡ true)
or_cases true b h = inl refl
or_cases false b h = inr h

or_right : (a b : Bool) → b ≡ true → (a || b) ≡ true
or_right true b h = refl
or_right false b h = h

pub accepts-Matches : (wanted offer : Str) → accepts wanted offer ≡ true → Matches wanted offer
unfolding accepts
accepts-Matches wanted offer h = elim (or_cases _ _ h) [
  | inl e ↦ inl (str_eq→eq wanted (media_base offer) e ∙ media_base_lem offer)
  | inr more ↦ elim (or_cases _ _ more) [
    | inl e ↦ inr (inl (str_eq→eq wanted (ascii "*/*") e))
    | inr e ↦ inr (
        inr (
          in_family-Family wanted (asked_type offer)
            (ap (in_family wanted) (sym (media_base_lem offer)) ∙ e)))
  ]
]

pub Matches-accepts : (wanted offer : Str) → Matches wanted offer → accepts wanted offer ≡ true
unfolding accepts
Matches-accepts wanted offer (inl e) =
    let same : str_eq wanted (media_base offer) ≡ true =
      subst (λ t. str_eq wanted t ≡ true) (e ∙ sym (media_base_lem offer)) (str_eq_refl wanted) in
    rw same refl
Matches-accepts wanted offer (inr (inl e)) =
    let same : str_eq wanted (ascii "*/*") ≡ true =
      subst (λ t. str_eq wanted t ≡ true) e (str_eq_refl wanted) in
    or_right (str_eq wanted (media_base offer)) _ (rw same refl)
Matches-accepts wanted offer (inr (inr (family, rest, w, b))) =
    let fits : in_family wanted (media_base offer) ≡ true =
      ap (λ t. in_family t (media_base offer)) w
      ∙ ap (in_family (family ++ ascii "/*")) (media_base_lem offer ∙ b)
      ∙ family-in_family family rest in
    or_right (str_eq wanted (media_base offer)) _ (or_right (str_eq wanted (ascii "*/*")) _ fits)

module _ (quality : Quality) where
  -- Zero for what is not a number.
  abbrev number : Option quality.Q → quality.Q
  number none = quality.zero_q
  number (some q) = q

  -- The quality that one parameter gives: `q=...`.
  abbrev one_quality : Option (Str × Str) → Option quality.Q
  one_quality none = none
  one_quality (some (k, v)) =
      if same_word (trim k) (ascii "q") then some (number (quality.parse (trim v))) else none

  abbrev or_later : Option quality.Q → Option quality.Q → Option quality.Q
  or_later none here = here
  or_later (some q) here = some q

  -- The last parameter that gives a quality counts.
  abbrev last_quality : List Str → Option quality.Q
  last_quality [] = none
  last_quality (param ∷ rest) = or_later (last_quality rest) (one_quality (split_once b'=' param))

  abbrev or_given : quality.Q → Option quality.Q → quality.Q
  or_given q none = q
  or_given q (some r) = r

  abbrev quality_in : List Str → quality.Q
  quality_in [] = quality.one
  quality_in (base ∷ params) = or_given quality.one (last_quality params)

  -- The quality of an item, one when it names none.
  abbrev pub asked_quality : Str → quality.Q
  asked_quality item = quality_in (split b';' item)

  -- An item that asks for something: it names a type, with a positive quality.
  abbrev pub IsAsked : Str → Type 0
  IsAsked item = (asked_type item ≢ []) × (quality.is_positive (asked_quality item) ≡ true)

  number_lem : (o : Option quality.Q) → or_zero quality o ≡ number o
  number_lem none = refl
  number_lem (some q) = refl

  param_q_lem :
      (q : quality.Q) (o : Option (Str × Str)) → param_q quality q o ≡ or_given q (one_quality o)
  param_q_lem q none = refl
  param_q_lem q (some (k, v)) = elim (Bool-cases (same_word (trim k) (ascii "q"))) [
    | inl e ↦ rw e (number_lem (quality.parse (trim v)))
    | inr e ↦ rw e refl
  ]

  quality_of_lem :
      (q : quality.Q) (params : List Str)
      → quality_of quality q params ≡ or_given q (last_quality params)
  unfolding quality_of
  quality_of_lem q [] = refl
  quality_of_lem q (param ∷ rest) =
      quality_of_lem (param_q quality q (split_once b'=' param)) rest ∙ later (last_quality rest)
    where
      later :
          (o : Option quality.Q)
          → or_given (param_q quality q (split_once b'=' param)) o
            ≡ or_given q (or_later o (one_quality (split_once b'=' param)))
      later none = param_q_lem q (split_once b'=' param)
      later (some r) = refl

  -- A list of one element under a test.
  one_if-Any :
      (P : quality.Q × Str → Type 0) (t : Bool) (x : quality.Q × Str)
      → Any P (if t then x ∷ [] else [])
      → (t ≡ true) × P x
  one_if-Any P true x (inl p) = (refl, p)
  one_if-Any P true x (inr h) = absurd h
  one_if-Any P false x h = absurd h

  one_if-All :
      (P : quality.Q × Str → Type 0) (t : Bool) (x : quality.Q × Str)
      → All P (if t then x ∷ [] else [])
      → t ≡ true
      → P x
  one_if-All P true x h e = h.0
  one_if-All P false x h e = absurd (false≢true e)

  not-false : (b : Bool) → not b ≡ true → b ≡ false
  not-false true n = absurd (false≢true n)
  not-false false n = refl

  -- The test of `candidate` is that the item asks for something.
  tested :
      (wanted : Str) (q : quality.Q)
      → (not (str_eq wanted []) && quality.is_positive q) ≡ true
      → (wanted ≢ []) × (quality.is_positive q ≡ true)
  tested wanted q h =
      let named : str_eq wanted [] ≡ false = not-false (str_eq wanted []) (and_left _ _ h) in
      (
        λ empty.
            false≢true (sym named ∙ subst (λ t. str_eq t [] ≡ true) (sym empty) (str_eq_refl [])),
        and_right _ _ h,
      )

  test :
      (wanted : Str) (q : quality.Q)
      → wanted ≢ []
      → quality.is_positive q ≡ true
      → (not (str_eq wanted []) && quality.is_positive q) ≡ true
  test wanted q named positive = elim (Bool-cases (str_eq wanted [])) [
    | inl e ↦ absurd (named (str_eq→eq wanted [] e))
    | inr e ↦ rw (e, positive) refl
  ]

  candidate-Any :
      (P : quality.Q × Str → Type 0) (parts : List Str)
      → Any P (candidate quality parts)
      → (type_of parts ≢ [])
        × (quality.is_positive (quality_in parts) ≡ true)
        × P (quality_in parts, type_of parts)
  candidate-Any P [] h = absurd h
  candidate-Any P (base ∷ params) h =
      let wanted : Str = to_lower (trim base) in
      let q : quality.Q = quality_of quality quality.one params in
      let e : q ≡ or_given quality.one (last_quality params) = quality_of_lem quality.one params in
      let (chosen, p) =
        one_if-Any P (not (str_eq wanted []) && quality.is_positive q) (q, wanted) h in
      let (named, positive) = tested wanted q chosen in
      (named, ap quality.is_positive (sym e) ∙ positive, subst (λ r. P (r, wanted)) e p)

  candidate-All :
      (P : quality.Q × Str → Type 0) (parts : List Str)
      → All P (candidate quality parts)
      → type_of parts ≢ []
      → quality.is_positive (quality_in parts) ≡ true
      → P (quality_in parts, type_of parts)
  candidate-All P [] h named positive = absurd (named refl)
  candidate-All P (base ∷ params) h named positive =
      let wanted : Str = to_lower (trim base) in
      let q : quality.Q = quality_of quality quality.one params in
      let e : q ≡ or_given quality.one (last_quality params) = quality_of_lem quality.one params in
      subst (λ r. P (r, wanted)) e
        (one_if-All P (not (str_eq wanted []) && quality.is_positive q) (q, wanted) h
          (test wanted q named (ap quality.is_positive e ∙ positive)))

  Any-append :
      (P : quality.Q × Str → Type 0) (cs ds : List (quality.Q × Str))
      → Any P (cs ++ ds)
      → Any P cs ⊎ Any P ds
  Any-append P [] ds h = inr h
  Any-append P (c ∷ cs) ds (inl p) = inl (inl p)
  Any-append P (c ∷ cs) ds (inr h) = elim (Any-append P cs ds h) [
    | inl l ↦ inl (inr l)
    | inr r ↦ inr r
  ]

  All-parts :
      (P : quality.Q × Str → Type 0) (cs ds : List (quality.Q × Str))
      → All P (cs ++ ds)
      → All P cs × All P ds
  All-parts P [] ds h = (tt, h)
  All-parts P (c ∷ cs) ds (p, h) = let (l, r) = All-parts P cs ds h in ((p, l), r)

  -- The candidates of the code are the items that ask for something: one of them is such an item,
  pub candidates-Any :
      (P : quality.Q × Str → Type 0) (items : List Str)
      → Any P (candidates quality items)
      → (item : Str) × Any (λ i. i ≡ item) items
        × IsAsked item
        × P (asked_quality item, asked_type item)
  unfolding candidates
  candidates-Any P [] h = absurd h
  candidates-Any P (item ∷ items) h =
      elim (Any-append P (candidate quality (split b';' item)) (candidates quality items) h) [
        | inl here ↦
            let (named, positive, p) = candidate-Any P (split b';' item) here in
            (item, inl refl, (named, positive), p)
        | inr later ↦
            let (found, among, asked, p) = candidates-Any P items later in
            (found, inr among, asked, p)
      ]

  -- and each such item is one of them.
  pub candidates-All :
      (P : quality.Q × Str → Type 0) (items : List Str)
      → All P (candidates quality items)
      → All (λ item. IsAsked item → P (asked_quality item, asked_type item)) items
  unfolding candidates
  candidates-All P [] h = tt
  candidates-All P (item ∷ items) h =
      let (here, later) =
        All-parts P (candidate quality (split b';' item)) (candidates quality items) h in
      (
        λ (named, positive). candidate-All P (split b';' item) here named positive,
        candidates-All P items later,
      )
