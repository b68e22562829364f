-- ===== src/Http/Match/Best.antt =====
-- Which functor match returns: the first of those with the greatest weight.
use socker.Prelude.{
  ℕ, ◌≤◌, ◌<◌, ◌≡◌, refl, ap, ◌⊎◌, inl, inr, true, false, List, [], ◌∷◌, ◌++◌, arith, if◌then◌else◌,
  ltb, nat_eq, length, All,
}
use socker.Boost.{Boost}
use socker.Text.{Text, text_eq}
use socker.Http.Route.{HookFunctor, split_url}
use mathlib.Core.List.{foldl}
use socker.Http.Match.{MatchedResult, Computed, no_match, weigh, consider, match, is_fuzzy_schema}

module _ (boost : Boost) {F : Type 0} (tokens : List Text) where
  -- the weight of a functor, 0 for one that is skipped
  unfoldable pub score : HookFunctor F → ℕ
  score f = if ltb (length tokens) (length f.tokens) then 0 else (weigh boost f.tokens tokens).0

  abbrev pub matched : HookFunctor F → MatchedResult F
  matched f = record { ok = true; func = f; args = (weigh boost f.tokens tokens).1 }

  abbrev chosen : HookFunctor F → Computed F
  chosen f = record { weight = score f; result = matched f }

  -- `f` stands in `funcs`, no functor has a greater score, and none before it the same
  pub record IsFirstBest (funcs : List (HookFunctor F)) (f : HookFunctor F) : Type 0 where
    pub before : List (HookFunctor F)
    pub after : List (HookFunctor F)
    pub split : funcs ≡ before ++ f ∷ after
    pub greater : All (λ g. score g < score f) before
    pub greatest : All (λ g. score g ≤ score f) after

  consider-cases :
      (best : Computed F) (f : HookFunctor F)
      → ((consider boost tokens best f ≡ best) × (score f ≤ best.weight))
        ⊎ ((consider boost tokens best f ≡ chosen f) × (best.weight < score f))
  unfolding consider score
  consider-cases best f = ground arith

  abbrev Outcome : Computed F → List (HookFunctor F) → Computed F → Type 0
  Outcome best fs c =
      ((c ≡ best) × All (λ g. score g ≤ best.weight) fs)
      ⊎ ((f : HookFunctor F) × IsFirstBest fs f × (c ≡ chosen f) × (best.weight < score f))

  All-le_trans :
      (m n : ℕ) (fs : List (HookFunctor F))
      → m < n
      → All (λ g. score g ≤ m) fs
      → All (λ g. score g < n) fs
  All-le_trans m n [] h a = tt
  All-le_trans m n (f ∷ fs) h a = (omega arith, All-le_trans m n fs h a.1)

  IsFirstBest-cons :
      (f g : HookFunctor F) (fs : List (HookFunctor F))
      → score f < score g
      → IsFirstBest fs g
      → IsFirstBest (f ∷ fs) g
  IsFirstBest-cons f g fs h b = record {
    before = f ∷ b.before;
    after = b.after;
    split = ap (λ r. f ∷ r) b.split;
    greater = (h, b.greater);
    greatest = b.greatest;
  }

  fold-Outcome :
      (best : Computed F) (fs : List (HookFunctor F))
      → Outcome best fs (foldl (consider boost tokens) best fs)
  fold-Outcome best [] = inl (refl, tt)
  fold-Outcome best (f ∷ fs) = elim (consider-cases best f) [
    | inl (kept, le) ↦ rw kept (elim (fold-Outcome best fs) [
      | inl (same, all) ↦ inl (same, (le, all))
      | inr (g, first, same, lt) ↦ inr (g, IsFirstBest-cons f g fs (omega arith) first, same, lt)
    ])
    | inr (taken, more) ↦ rw taken (elim (fold-Outcome (chosen f) fs) [
      | inl (same, all) ↦ inr (
        f,
        record { before = []; after = fs; split = refl; greater = tt; greatest = all },
        same,
        more,
      )
      | inr (g, first, same, lt) ↦ inr (g, IsFirstBest-cons f g fs lt first, same, omega arith)
    ])
  ]

module _ (boost : Boost) {F : Type 0} (schema : Text) (funcs : List (HookFunctor F)) where
  -- For a schema without brackets, either no functor has a positive weight and the result is the
  -- failed one, or the result is the first functor of the greatest weight, with its arguments.
  pub match-IsFirstBest :
      is_fuzzy_schema boost schema ≡ false
      → ((match boost schema funcs ≡ no_match)
          × All (λ g. score boost (split_url boost schema) g ≤ 0) funcs)
        ⊎ ((f : HookFunctor F) × IsFirstBest boost (split_url boost schema) funcs f
            × (match boost schema funcs ≡ matched boost (split_url boost schema) f)
            × (0 < score boost (split_url boost schema) f))
  unfolding match
  match-IsFirstBest h =
      rw h
        (elim (fold-Outcome boost (split_url boost schema)
          (record { weight = 0; result = no_match }) funcs) [
            | inl (same, all) ↦ inl (ap (λ (c : Computed F). c.result) same, all)
            | inr (f, first, same, lt) ↦ inr (f, first, ap (λ (c : Computed F). c.result) same, lt)
          ])
