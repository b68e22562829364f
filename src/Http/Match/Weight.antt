-- ===== src/Http/Match/Weight.antt =====
-- The weight that match computes for one functor: what it counts, its bounds, and what a full
-- weight means.
use socker.Prelude.{
  ℕ, ◌+◌, ◌*◌, ◌≤◌, ◌≡◌, refl, ap, ◌∙◌, inl, inr, List, [], ◌∷◌, arith, ◌==◌, nat_eq, Bool-cases,
  length, take, beq_refl,
}
use socker.Assoc.{Assoc, put}
use socker.Boost.{Boost}
use socker.Text.{Text, text_eq, text_beq_iff}
use socker.Http.Match.{inner, weigh_tokens}

module _ (boost : Boost) where
  -- The weight stays below 100 for each token, and reaches that only on equal tokens, without
  -- arguments.
  pub weigh_tokens_bounds :
      (fts sts : List Text) (w : ℕ) (args : Assoc Text Text)
      → (w ≤ (weigh_tokens boost fts sts w args).0)
        × ((weigh_tokens boost fts sts w args).0 ≤ w + 100 * length fts)
  unfolding weigh_tokens
  weigh_tokens_bounds [] sts w args = omega arith
  weigh_tokens_bounds (ft ∷ fts) [] w args = omega arith
  weigh_tokens_bounds (ft ∷ fts) (st ∷ sts) w args = ground (
    arith,
    weigh_tokens_bounds fts sts (w + 100) args,
    weigh_tokens_bounds fts sts (w + 10) (put (inner ft) st args),
  )

  pub weigh_tokens-full :
      (fts sts : List Text) (w : ℕ) (args : Assoc Text Text)
      → length fts ≤ length sts
      → w + 100 * length fts ≤ (weigh_tokens boost fts sts w args).0
      → (fts ≡ take (length fts) sts) × ((weigh_tokens boost fts sts w args).1 ≡ args)
  unfolding weigh_tokens
  weigh_tokens-full [] sts w args n h = (refl, refl)
  weigh_tokens-full (ft ∷ fts) [] w args n h = absurd (omega arith)
  weigh_tokens-full (ft ∷ fts) (st ∷ sts) w args n h = elim (Bool-cases (ft == st)) [
    | inl e ↦ ground (arith, text_beq_iff ft st, weigh_tokens-full fts sts (w + 100) args)
    | inr e ↦ ground (arith, weigh_tokens_bounds fts sts (w + 10) (put (inner ft) st args))
  ]

  pub weigh_tokens-eq :
      (ts : List Text) (w : ℕ) (args : Assoc Text Text)
      → weigh_tokens boost ts ts w args ≡ (w + 100 * length ts, args)
  unfolding weigh_tokens
  weigh_tokens-eq [] w args = ground arith
  weigh_tokens-eq (t ∷ ts) w args =
      rw (beq_refl t) (weigh_tokens-eq ts (w + 100) args ∙ ap (λ n. (n, args)) (omega arith))
