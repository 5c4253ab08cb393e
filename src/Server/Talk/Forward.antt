-- ===== src/Server/Talk/Forward.antt =====
-- agent_server.rs: how the talk-back audio is cut.
use michoi.Common.{
  ℕ, zero, suc, ◌≤◌, ◌<◌, List, [], ◌∷◌, ◌++◌, ◌≡◌, refl, ap, sym, ◌∙◌, inl, inr, All, length, take,
  drop, leb, ok, Bool-cases, length-take, length-drop, take-append-drop, arith,
}
use mathlib.Core.List.{append_assoc, append-nil}
use michoi.Api.{AudioChunk}
use michoi.Api.Control.{AgentApi}
use michoi.Server.Talk.{Forwarded, forward, forward_all}

-- What an Agent that records the chunks it accepts has been given.
abbrev pub flat : List AudioChunk → List ℕ
flat [] = []
flat (chunk ∷ rest) = chunk.pcm ++ flat rest

flat-append : (xs ys : List AudioChunk) → flat (xs ++ ys) ≡ flat xs ++ flat ys
flat-append [] ys = refl
flat-append (x ∷ xs) ys =
    ap (λ t. x.pcm ++ t) (flat-append xs ys) ∙ sym (append_assoc x.pcm (flat xs) (flat ys))

module _ {S : Type 0} (api : AgentApi S) (clock : ℕ → ℕ) (log : S → List AudioChunk) where
  -- The Agent takes every chunk and notes it.
  abbrev pub Records : Type 0
  Records =
      (chunk : AudioChunk) (s : S)
      → (t : S) × ((api.talk chunk s ≡ (t, ok tt)) × (log t ≡ log s ++ (chunk ∷ [])))

  abbrev pub IsCut : S → List ℕ → Forwarded api clock → Type 0
  IsCut s pending o =
      (t : S) × ((sent : List AudioChunk) × ((left : List ℕ) × ((o ≡ (t, ok left))
            × ((log t ≡ log s ++ sent)
                × ((flat sent ++ left ≡ pending)
                    × (All (λ c. length c.pcm ≡ 512) sent × (length left < 512)))))))

  forward-IsCut :
      Records
      → (fuel : ℕ) (pending : List ℕ) (s : S) → length pending ≤ fuel
      → IsCut s pending (forward api clock fuel pending s)
  unfolding forward
  forward-IsCut records zero pending s h =
      (s, ([], (pending, (refl, (sym (append-nil (log s)), (refl, (tt, omega arith)))))))
  forward-IsCut records (suc fuel) pending s h = elim (Bool-cases (leb 512 (length pending))) [
    | inr short ↦
        rw short
          (s, ([], (pending, (refl, (sym (append-nil (log s)), (refl, (tt, ground arith)))))))
    | inl long ↦
        let enough : 512 ≤ length pending = ground arith in
        let chunk : AudioChunk = record {
          pts_us = clock (length pending);
          pcm = take 512 pending;
        } in
        let (t, (e, noted)) = records chunk s in
        let shorter : length (drop 512 pending) ≤ fuel = omega (arith, length-drop 512 pending) in
        let (u, (sent, (left, (f, (logged, (whole, (cut, rest))))))) =
          forward-IsCut records fuel (drop 512 pending) t shorter in
        rw (long, e)
          (
            u,
            (
              chunk ∷ sent,
              (
                left,
                (
                  f,
                  (
                    logged ∙ ap (λ l. l ++ sent) noted ∙ append_assoc (log s) (chunk ∷ []) sent,
                    (
                      append_assoc (take 512 pending) (flat sent) left
                          ∙ ap (λ l. take 512 pending ++ l) whole
                          ∙ take-append-drop 512 pending,
                      ((omega (arith, length-take 512 pending), cut), rest),
                    ),
                  ),
                ),
              ),
            ),
          )
  ]

  -- The Agent behind the server takes every chunk. Then what it is given of the pending bytes, one
  -- chunk behind the other, are their first bytes in their order, in chunks of exactly 512; and less
  -- than 512 of them are kept for later.
  pub forward_all-IsCut :
      Records → (pending : List ℕ) (s : S) → IsCut s pending (forward_all api clock pending s)
  unfolding forward_all
  forward_all-IsCut records pending s =
      forward-IsCut records (length pending) pending s (omega arith)
