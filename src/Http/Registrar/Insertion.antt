-- ===== src/Http/Registrar/Insertion.antt =====
-- What putting a functor without placeholders into the std::set of its verb does to the set, and to
-- the function that is found in it.
use socker.Prelude.{
  ◌≡◌, refl, sym, ap, ◌∙◌, inl, inr, true, false, none, List, [], ◌∷◌, arith, if◌then◌else◌, ◌==◌,
  nat_eq, Bool-cases, All,
}
use socker.Boost.{Boost}
use socker.Text.{Text, text_eq}
use socker.Http.Route.{HookFunctor, is_null, functor_lt}
use socker.Http.Route.Order.{functor_lt-literal, tokens_lt-IsStrictTotal}
use socker.Http.Registrar.{HookFunc, emplace}
use socker.Http.Registrar.Table.{
  or_new, tokens_eq, tokens_beq_iff, lookup, before, IsGood, IsAscending,
}

module _ (boost : Boost) where
  lookup-none :
      (ts : List Text) (fs : List (HookFunctor HookFunc))
      → All (λ g. before ts g.tokens ≡ true) fs
      → lookup ts fs ≡ none
  unfolding lookup
  lookup-none ts [] h = refl
  lookup-none ts (f ∷ fs) h =
      ground (
        arith,
        tokens_beq_iff f.tokens ts,
        tokens_lt-IsStrictTotal.irrefl ts,
        lookup-none ts fs h.1,
      )

  All-emplace :
      (P : HookFunctor HookFunc → Type 0) (f : HookFunctor HookFunc)
      (fs : List (HookFunctor HookFunc))
      → P f
      → All P fs
      → All P (emplace (functor_lt boost) f fs).0
  unfolding emplace
  All-emplace P f [] pf h = (pf, tt)
  All-emplace P f (b ∷ bs) pf h = elim (Bool-cases (functor_lt boost b f)) [
    | inl e ↦ rw e (h.0, All-emplace P f bs pf h.1)
    | inr e ↦
        rw e (elim (Bool-cases (functor_lt boost f b)) [ inl k ↦ rw k (pf, h) | inr k ↦ rw k h ])
  ]

  All-before :
      (ts us : List Text) (fs : List (HookFunctor HookFunc))
      → before ts us ≡ true
      → All (λ g. before us g.tokens ≡ true) fs
      → All (λ g. before ts g.tokens ≡ true) fs
  All-before ts us [] e h = tt
  All-before ts us (f ∷ fs) e h =
      (tokens_lt-IsStrictTotal.trans ts us f.tokens e h.0, All-before ts us fs e h.1)

  pub emplace-IsAscending :
      (f : HookFunctor HookFunc) (fs : List (HookFunctor HookFunc))
      → IsGood boost f
      → IsAscending boost fs
      → IsAscending boost (emplace (functor_lt boost) f fs).0
  unfolding emplace
  emplace-IsAscending f [] good h = (good, tt, tt)
  emplace-IsAscending f (b ∷ bs) good (gb, all, rest) = elim (Bool-cases (functor_lt boost b f)) [
    | inl e ↦ rw e (
      gb,
      All-emplace _ f bs (sym (functor_lt-literal boost b f gb.0 good.0) ∙ e) all,
      emplace-IsAscending f bs good rest,
    )
    | inr e ↦ rw e (elim (Bool-cases (functor_lt boost f b)) [
      | inl k ↦
          let below = sym (functor_lt-literal boost f b good.0 gb.0) ∙ k in
          rw k (good, (below, All-before f.tokens b.tokens bs below all), (gb, all, rest))
      | inr k ↦ rw k (gb, all, rest)
    ])
  ]

  lookup-none_at :
      (us ts : List Text) (fs : List (HookFunctor HookFunc))
      → us ≡ ts
      → All (λ g. before us g.tokens ≡ true) fs
      → lookup ts fs ≡ none
  lookup-none_at us ts fs e h = rw (← e) (lookup-none us fs h)

  -- a functor with the tokens of the new one stands first
  taken :
      (ts : List Text) (f b : HookFunctor HookFunc) (bs : List (HookFunctor HookFunc))
      → b.tokens ≡ f.tokens
      → is_null b.func ≡ false
      → lookup ts (b ∷ bs)
        ≡ (if f.tokens == ts then or_new (lookup ts (b ∷ bs)) f.func else lookup ts (b ∷ bs))
  unfolding lookup
  taken ts f b bs same filled = rw same (ground (arith, filled))

  -- putting a functor into the set of its verb
  pub lookup-emplace :
      (ts : List Text) (f : HookFunctor HookFunc) (fs : List (HookFunctor HookFunc))
      → IsGood boost f
      → IsAscending boost fs
      → lookup ts (emplace (functor_lt boost) f fs).0
        ≡ (if f.tokens == ts then or_new (lookup ts fs) f.func else lookup ts fs)
  unfolding emplace lookup
  lookup-emplace ts f [] good h = ground arith
  lookup-emplace ts f (b ∷ bs) good (gb, all, rest) =
      let o = tokens_lt-IsStrictTotal in
      elim (Bool-cases (functor_lt boost b f)) [
        | inl e ↦
            let below = sym (functor_lt-literal boost b f gb.0 good.0) ∙ e in
            rw e (
              ground (
                arith,
                below,
                tokens_beq_iff f.tokens ts,
                tokens_beq_iff b.tokens ts,
                o.irrefl ts,
                lookup-emplace ts f bs good rest,
              ))
        | inr e ↦ rw e (elim (Bool-cases (functor_lt boost f b)) [
          | inl k ↦
              let below = sym (functor_lt-literal boost f b good.0 gb.0) ∙ k in
              rw k (elim (Bool-cases (f.tokens == ts)) [
                | inl m ↦
                    let absent =
                      lookup-none_at f.tokens ts (b ∷ bs) ((tokens_beq_iff f.tokens ts).0 m)
                        (below, All-before f.tokens b.tokens bs below all) in
                    rw m (sym (ap (λ r. or_new r f.func) absent))
                | inr m ↦ rw m refl
              ])
          | inr k ↦
              let same =
                o.total b.tokens f.tokens (sym (functor_lt-literal boost b f gb.0 good.0) ∙ e)
                  (sym (functor_lt-literal boost f b good.0 gb.0) ∙ k) in
              rw k (taken ts f b bs same gb.1)
        ])
      ]
