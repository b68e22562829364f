-- ===== src/Http/Route/Order.antt =====
-- The order by which std::set keeps the functors: where it is a strict total order, and where it
-- is no order at all.
use socker.Prelude.{
  ◌≡◌, refl, sym, ap, ◌∙◌, ◌≢◌, ◌↔◌, inl, inr, Bool, true, false, List, [], ◌∷◌, arith, ltb, ◌==◌,
  nat_eq, Bool-cases, length, All, beq_refl, beq-false,
}
use socker.Boost.{Boost}
use socker.Text.{Text, text_eq, text_beq_iff, lex, text_lt}
use socker.Http.Route.{HookFunctor, split_url, is_fuzzy, same_tokens, same_functor, functor_lt}

-- What std::set asks of its comparison, with equality for equivalence.
pub record IsStrictTotal {A : Type 0} (lt : A → A → Bool) : Type 0 where
  pub irrefl : (a : A) → lt a a ≡ false
  pub trans : (a b c : A) → lt a b ≡ true → lt b c ≡ true → lt a c ≡ true
  pub total : (a b : A) → lt a b ≡ false → lt b a ≡ false → a ≡ b

ltb-IsStrictTotal : IsStrictTotal ltb
ltb-IsStrictTotal = record {
  irrefl = λ a. ground arith;
  trans = λ a b c h k. ground arith;
  total = λ a b h k. ground arith;
}

module _ {A : Type 0} {lt : A → A → Bool} (o : IsStrictTotal lt) where
  lex_irrefl : (xs : List A) → lex lt xs xs ≡ false
  unfolding lex
  lex_irrefl [] = refl
  lex_irrefl (x ∷ xs) = ground (arith, o.irrefl x, lex_irrefl xs)

  lt-asym : (x y : A) → lt x y ≡ true → lt y x ≡ false
  lt-asym x y h = ground (arith, o.trans x y x, o.irrefl x)

  lt-not_trans : (x y z : A) → lt x y ≡ false → lt y x ≡ false → lt y z ≡ lt x z
  lt-not_trans x y z h k = ap (λ a. lt a z) (sym (o.total x y h k))

  lex_trans : (xs ys zs : List A) → lex lt xs ys ≡ true → lex lt ys zs ≡ true → lex lt xs zs ≡ true
  unfolding lex
  lex_trans [] [] zs h k = cc
  lex_trans [] (y ∷ ys) [] h k = cc
  lex_trans [] (y ∷ ys) (z ∷ zs) h k = refl
  lex_trans (x ∷ xs) (y ∷ ys) (z ∷ zs) h k = ground (
    arith,
    o.total x y,
    o.total y z,
    o.trans x y z,
    lt-asym x z,
    lt-asym x y,
    lt-asym y z,
    lex_trans xs ys zs,
  )
  lex_trans _ _ _ h k = cc

  lex-total : (xs ys : List A) → lex lt xs ys ≡ false → lex lt ys xs ≡ false → xs ≡ ys
  unfolding lex
  lex-total [] [] h k = refl
  lex-total (x ∷ xs) (y ∷ ys) h k = ground (arith, o.total x y, lex-total xs ys)
  lex-total _ _ h k = cc

  lex-IsStrictTotal : IsStrictTotal (lex lt)
  lex-IsStrictTotal = record { irrefl = lex_irrefl; trans = lex_trans; total = lex-total }

text_lt-IsStrictTotal : IsStrictTotal text_lt
unfolding text_lt
text_lt-IsStrictTotal = lex-IsStrictTotal ltb-IsStrictTotal

pub tokens_lt-IsStrictTotal : IsStrictTotal (lex text_lt)
tokens_lt-IsStrictTotal = lex-IsStrictTotal text_lt-IsStrictTotal

module _ (boost : Boost) {F : Type 0} where
  -- a functor of the registry that has no placeholder
  pub record IsLiteral (f : HookFunctor F) : Type 0 where
    pub made : f.tokens ≡ split_url boost f.url
    pub literal : All (λ t. is_fuzzy boost t ≡ false) f.tokens

same_tokens-literal :
    (boost : Boost) (ls rs : List Text)
    → All (λ t. is_fuzzy boost t ≡ false) ls
    → length ls ≡ length rs
    → same_tokens boost ls rs ≡ true
    → ls ≡ rs
unfolding same_tokens
same_tokens-literal boost [] [] h n e = refl
same_tokens-literal boost [] (r ∷ rs) h n e = absurd (omega arith)
same_tokens-literal boost (l ∷ ls) [] h n e = cc
same_tokens-literal boost (l ∷ ls) (r ∷ rs) h n e =
    ground (arith, text_beq_iff l r, same_tokens-literal boost ls rs h.1)

same_tokens_refl : (boost : Boost) (ls : List Text) → same_tokens boost ls ls ≡ true
unfolding same_tokens
same_tokens_refl boost [] = refl
same_tokens_refl boost (l ∷ ls) = ground (arith, beq_refl l, same_tokens_refl boost ls)

module _ (boost : Boost) {F : Type 0} where
  same_functor-literal :
      (a b : HookFunctor F)
      → IsLiteral boost a
      → IsLiteral boost b
      → (same_functor boost a b ≡ true) ↔ (a.tokens ≡ b.tokens)
  unfolding same_functor
  same_functor-literal a b ha hb = (
    λ e.
        ground
          (arith, text_beq_iff a.url b.url, same_tokens-literal boost a.tokens b.tokens ha.literal),
    λ e. ground (arith, same_tokens_refl boost a.tokens),
  )

  pub functor_lt-literal :
      (a b : HookFunctor F)
      → IsLiteral boost a
      → IsLiteral boost b
      → functor_lt boost a b ≡ lex text_lt a.tokens b.tokens
  unfolding functor_lt
  functor_lt-literal a b ha hb = elim (Bool-cases (same_functor boost a b)) [
    | inl e ↦
        rw e (
          rw ((same_functor-literal a b ha hb).0 e) (sym (tokens_lt-IsStrictTotal.irrefl b.tokens)))
    | inr e ↦ rw e
  ]

  -- Functors without placeholders are ordered as std::set asks: the comparison is irreflexive and
  -- transitive, and two functors of which neither is the smaller are those that operator== takes
  -- for the same.
  pub functor_lt-literal_order :
      (a b c : HookFunctor F)
      → IsLiteral boost a
      → IsLiteral boost b
      → IsLiteral boost c
      → (functor_lt boost a a ≡ false)
        × (functor_lt boost a b ≡ true → functor_lt boost b c ≡ true → functor_lt boost a c ≡ true)
        × (((functor_lt boost a b ≡ false) × (functor_lt boost b a ≡ false))
            ↔ (same_functor boost a b ≡ true))
  functor_lt-literal_order a b c ha hb hc =
      let o = tokens_lt-IsStrictTotal in
      (
        functor_lt-literal a a ha ha ∙ o.irrefl a.tokens,
        (λ h k.
            functor_lt-literal a c ha hc
            ∙ o.trans a.tokens b.tokens c.tokens (sym (functor_lt-literal a b ha hb) ∙ h)
                (sym (functor_lt-literal b c hb hc) ∙ k)),
        (
          (λ h. (same_functor-literal a b ha hb).1 (
              o.total a.tokens b.tokens (sym (functor_lt-literal a b ha hb) ∙ h.0)
                (sym (functor_lt-literal b a hb ha) ∙ h.1))),
          (λ e.
              let t = (same_functor-literal a b ha hb).0 e in
              (
                functor_lt-literal a b ha hb ∙ rw t (o.irrefl b.tokens),
                functor_lt-literal b a hb ha ∙ rw t (o.irrefl b.tokens),
              )),
        ),
      )

module _ (boost : Boost) {F : Type 0} where
  -- `f` was made from its url, and `ts` are its tokens
  abbrev pub IsMade : HookFunctor F → List Text → Type 0
  IsMade f ts = (f.tokens ≡ split_url boost f.url) × (f.tokens ≡ ts)

  url-ne :
      (f g : HookFunctor F) (ts us : List Text)
      → IsMade f ts
      → IsMade g us
      → ts ≢ us
      → (f.url == g.url) ≡ false
  url-ne f g ts us hf hg n =
      beq-false f.url g.url (λ e. n (sym hf.1 ∙ hf.0 ∙ ap (split_url boost) e ∙ sym hg.0 ∙ hg.1))

  -- With placeholders the comparison is no order: of three routes `/p/x`, `/q/y` and `/r/x` with
  -- placeholders p, q and r in ascending order and different words x and y, the first is below the
  -- second and the second below the third, but the first is not below the third.
  pub functor_lt-not_trans :
      (f g h : HookFunctor F) (p q r x y : Text)
      → IsMade f (p ∷ x ∷ [])
      → IsMade g (q ∷ y ∷ [])
      → IsMade h (r ∷ x ∷ [])
      → is_fuzzy boost p ≡ true
      → is_fuzzy boost q ≡ true
      → is_fuzzy boost r ≡ true
      → is_fuzzy boost x ≡ false
      → x ≢ y
      → text_lt p q ≡ true
      → text_lt q r ≡ true
      → (functor_lt boost f g ≡ true)
        × (functor_lt boost g h ≡ true)
        × (functor_lt boost f h ≡ false)
  unfolding functor_lt same_functor same_tokens lex
  functor_lt-not_trans f g h p q r x y hf hg hh fp fq fr fx n pq qr = (
    rw (url-ne f g _ _ hf hg (λ e. n (ground arith)))
        (rw (hf.1, hg.1) (ground (arith, beq-false x y n))),
    rw (url-ne g h _ _ hg hh (λ e. n (ground arith)))
        (rw (hg.1, hh.1) (ground (arith, beq-false y x (λ e. n (sym e))))),
    rw (hf.1, hh.1) (ground (arith, beq_refl x)),
  )
