-- ===== src/Http/Match/Exact.antt =====
-- Which requests a registered route answers: an exact route wins, and a route whose first token
-- fits is enough.
use socker.Prelude.{
  ℕ, zero, suc, ◌+◌, ◌*◌, ◌≤◌, ◌<◌, ◌≡◌, refl, ap, ◌∙◌, inl, inr, true, false, List, [], ◌∷◌, ◌++◌,
  arith, if◌then◌else◌, nat_eq, length, take, is_empty, All, Has, beq_refl,
}
use mathlib.Core.Bool.{false≢true}
use socker.Boost.{Boost}
use socker.Text.{Text, text_eq}
use socker.Http.Route.{HookFunctor, split_url}
use socker.Http.Match.{MatchedResult, weigh, weigh_tokens, match, is_fuzzy_schema}
use socker.Http.Match.Weight.{weigh_tokens_bounds, weigh_tokens-full, weigh_tokens-eq}
use socker.Http.Match.Best.{score, matched, match-IsFirstBest}

length-zero : (ts : List Text) → length ts ≤ 0 → ts ≡ []
length-zero [] h = refl
length-zero (t ∷ ts) h = absurd (omega arith)

take-length : (ts : List Text) (n : ℕ) → length ts ≤ n → take n ts ≡ ts
take-length [] zero h = refl
take-length [] (suc n) h = refl
take-length (t ∷ ts) zero h = absurd (omega arith)
take-length (t ∷ ts) (suc n) h = ap (λ r. t ∷ r) (take-length ts n (omega arith))

-- the greatest weight that tokens can have
abbrev full : List Text → ℕ
full ts = if is_empty ts then 1 else 100 * length ts

full-pos : (ts : List Text) → 0 < full ts
full-pos [] = omega arith
full-pos (t ∷ ts) = omega arith

module _ (boost : Boost) where
  weigh-full : (ts : List Text) → (weigh boost ts ts).0 ≡ full ts
  unfolding weigh
  weigh-full [] = refl
  weigh-full (t ∷ ts) = rw (weigh_tokens-eq boost (t ∷ ts) 0 []) (omega arith)

  full-weigh :
      (fts ts : List Text)
      → length fts ≤ length ts
      → full ts ≤ (weigh boost fts ts).0
      → (fts ≡ ts) × ((weigh boost fts ts).1 ≡ [])
  unfolding weigh
  full-weigh [] [] n h = (refl, refl)
  full-weigh [] (t ∷ ts) n h = absurd (omega arith)
  full-weigh (f ∷ fts) [] n h = absurd (omega arith)
  full-weigh (f ∷ fts) (t ∷ ts) n h =
      let bound : 100 * length (t ∷ ts) ≤ 0 + 100 * length (f ∷ fts) =
        omega (arith, (weigh_tokens_bounds boost (f ∷ fts) (t ∷ ts) 0 []).1) in
      let (same, args) = weigh_tokens-full boost (f ∷ fts) (t ∷ ts) 0 [] n (omega arith) in
      (same ∙ take-length (t ∷ ts) (length (f ∷ fts)) (omega arith), args)

  weigh-first :
      (t : Text) (ts us : List Text) → length ts ≤ length us → 0 < (weigh boost (t ∷ ts) (t ∷ us)).0
  unfolding weigh weigh_tokens
  weigh-first t ts us n =
      rw (beq_refl t) (omega (arith, (weigh_tokens_bounds boost ts us 100 []).0))

module _ (boost : Boost) {F : Type 0} (tokens : List Text) where
  score-full : (g : HookFunctor F) → g.tokens ≡ tokens → score boost tokens g ≡ full tokens
  unfolding score
  score-full g e = rw e (ground (arith, weigh-full boost tokens))

  full-score :
      (f : HookFunctor F)
      → 0 < score boost tokens f
      → full tokens ≤ score boost tokens f
      → (f.tokens ≡ tokens) × ((weigh boost f.tokens tokens).1 ≡ [])
  unfolding score
  full-score f p h = full-weigh boost f.tokens tokens (ground arith) (ground arith)

  score-first :
      (f : HookFunctor F) (t : Text) (ts us : List Text)
      → f.tokens ≡ t ∷ ts
      → tokens ≡ t ∷ us
      → length ts ≤ length us
      → 0 < score boost tokens f
  unfolding score
  score-first f t ts us e k n = rw (e, k) (ground (arith, weigh-first boost t ts us n))

module _ {F : Type 0} (s : HookFunctor F → ℕ) (g : HookFunctor F) where
  All-at : (n : ℕ) (fs : List (HookFunctor F)) → Has g fs → All (λ f. s f ≤ n) fs → s g ≤ n
  All-at n [] h a = absurd h
  All-at n (f ∷ fs) (inl e) a = rw e a.0
  All-at n (f ∷ fs) (inr h) a = All-at n fs h a.1

  first-best-le :
      (f : HookFunctor F) (xs ys : List (HookFunctor F))
      → Has g (xs ++ f ∷ ys)
      → All (λ x. s x < s f) xs
      → All (λ y. s y ≤ s f) ys
      → s g ≤ s f
  first-best-le f [] ys (inl e) hx hy = rw e (omega arith)
  first-best-le f [] ys (inr h) hx hy = All-at (s f) ys h hy
  first-best-le f (x ∷ xs) ys (inl e) hx hy = rw e (omega arith)
  first-best-le f (x ∷ xs) ys (inr h) hx hy = first-best-le f xs ys h hx.1 hy

module _ (boost : Boost) {F : Type 0} (schema : Text) (funcs : List (HookFunctor F))
    (g : HookFunctor F) (plain : is_fuzzy_schema boost schema ≡ false) (listed : Has g funcs) where
  -- A registered functor of positive score has a winner of at least its score.
  winner :
      0 < score boost (split_url boost schema) g
      → (f : HookFunctor F) × (match boost schema funcs ≡ matched boost (split_url boost schema) f)
        × (0 < score boost (split_url boost schema) f)
        × (score boost (split_url boost schema) g ≤ score boost (split_url boost schema) f)
  winner pos = elim (match-IsFirstBest boost schema funcs plain) [
    | inl (none_found, all) ↦
        absurd (omega (arith, All-at (score boost (split_url boost schema)) g 0 funcs listed all))
    | inr (f, first, same, lt) ↦ (
      f,
      same,
      lt,
      first-best-le (score boost (split_url boost schema)) g f first.before first.after
          (rw first.split at listed) first.greater first.greatest,
    )
  ]

  -- A registered route whose tokens are those of a request without brackets is answered by a functor
  -- with just these tokens, and without arguments, whatever else is registered.
  pub match-exact :
      g.tokens ≡ split_url boost schema
      → ((match boost schema funcs).ok ≡ true)
        × ((match boost schema funcs).func.tokens ≡ split_url boost schema)
        × ((match boost schema funcs).args ≡ [])
  match-exact e =
      let score_g = score-full boost (split_url boost schema) g e in
      let (f, same, pos, le) = winner (rw score_g (full-pos (split_url boost schema))) in
      let (tokens, args) = full-score boost (split_url boost schema) f pos (rw score_g at le) in
      (
        ap (λ (r : MatchedResult F). r.ok) same,
        ap (λ (r : MatchedResult F). r.func.tokens) same ∙ tokens,
        ap (λ (r : MatchedResult F). r.args) same ∙ args,
      )

  -- If a route is registered, every request without brackets that begins with its first token and
  -- has at least as many tokens is taken for a match, whatever the other tokens are.
  pub match_of_first_token :
      (t : Text) (ts us : List Text)
      → g.tokens ≡ t ∷ ts
      → split_url boost schema ≡ t ∷ us
      → length ts ≤ length us
      → (match boost schema funcs).ok ≡ true
  match_of_first_token t ts us e k n =
      let (f, same, _, _) = winner (score-first boost (split_url boost schema) g t ts us e k n) in
      ap (λ (r : MatchedResult F). r.ok) same

Has-middle : {F : Type 0} (f : HookFunctor F) (xs ys : List (HookFunctor F)) → Has f (xs ++ f ∷ ys)
Has-middle f [] ys = inl refl
Has-middle f (x ∷ xs) ys = inr (Has-middle f xs ys)

-- What match returns is one of the functors.
pub match-Has :
    (boost : Boost) {F : Type 0} (schema : Text) (funcs : List (HookFunctor F))
    → is_fuzzy_schema boost schema ≡ false
    → (match boost schema funcs).ok ≡ true
    → Has (match boost schema funcs).func funcs
match-Has boost schema funcs plain ok = elim (match-IsFirstBest boost schema funcs plain) [
  | inl (failed, all) ↦ absurd (false≢true (rw failed at ok))
  | inr (f, first, same, pos) ↦ rw same (rw first.split (Has-middle f first.before first.after))
]
