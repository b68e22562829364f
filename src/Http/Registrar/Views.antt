-- ===== src/Http/Registrar/Views.antt =====
-- A registrar as its table of routes answers requests: what is looked up is what process runs.
use socker.Prelude.{
  ℕ, ◌≡◌, refl, sym, ap, ◌∙◌, inl, inr, true, false, some, List, [], ◌∷◌, arith, ◌==◌, nat_eq,
  Bool-cases, Has, All-Has, beq_refl,
}
use socker.Boost.{Boost}
use socker.Text.{Text, text_eq}
use socker.Http.Beast.{Beast}
use socker.Http.Session.{Session}
use socker.Http.Route.{HookFunctor, split_url}
use socker.Http.Route.Order.{tokens_lt-IsStrictTotal}
use socker.Http.Match.{match, is_fuzzy_schema}
use socker.Http.Match.Exact.{match-exact, match-Has}
use socker.Http.Registrar.{HookFunc, HandlerRegistrar, hooks_at, process, run_hook, add_arguments}
use socker.Http.Registrar.Sets.{schema_of}
use socker.Http.Registrar.Table.{
  tokens_eq, tokens_beq_iff, lookup, look, view, before, IsAscending, IsOrdered,
}

-- a function that is found is that of a functor with the tokens
found-functor :
    (ts : List Text) (fs : List (HookFunctor HookFunc)) (h : HookFunc)
    → lookup ts fs ≡ some h
    → (f : HookFunctor HookFunc) × Has f fs × (f.tokens ≡ ts)
unfolding lookup
found-functor ts [] h e = cc
found-functor ts (f ∷ fs) h e = elim (Bool-cases (f.tokens == ts)) [
  | inl same ↦ (f, inl refl, (tokens_beq_iff f.tokens ts).0 same)
  | inr other ↦ let (g, has, tokens) = found-functor ts fs h (rw other at e) in (g, inr has, tokens)
]

found-hooks :
    (verb : ℕ) (ts : List Text) (hooks : List (ℕ × List (HookFunctor HookFunc))) (h : HookFunc)
    → look verb ts hooks ≡ some h
    → (fs : List (HookFunctor HookFunc)) × (hooks_at verb hooks ≡ some fs) × (lookup ts fs ≡ some h)
unfolding look hooks_at
found-hooks verb ts [] h e = cc
found-hooks verb ts ((v, fs) ∷ hooks) h e = elim (Bool-cases (v == verb)) [
  | inl same ↦ (fs, rw same refl, rw same at e)
  | inr other ↦
      let (gs, at_verb, has) = found-hooks verb ts hooks h (rw other at e) in
      (gs, rw other at_verb, has)
]

module _ (boost : Boost) where
  -- in a set in order, the functor with the tokens is the one that is found
  lookup-Has :
      (f : HookFunctor HookFunc) (fs : List (HookFunctor HookFunc))
      → IsAscending boost fs
      → Has f fs
      → lookup f.tokens fs ≡ f.func
  unfolding lookup
  lookup-Has f [] asc has = absurd has
  lookup-Has f (g ∷ gs) asc (inl e) = rw e (rw (beq_refl g.tokens))
  lookup-Has f (g ∷ gs) (good, all, rest) (inr has) = ground (
    arith,
    tokens_beq_iff g.tokens f.tokens,
    All-Has f (λ x. before g.tokens x.tokens ≡ true) gs all has,
    tokens_lt-IsStrictTotal.irrefl f.tokens,
    lookup-Has f gs rest has,
  )

  IsAscending-hooks :
      (verb : ℕ) (fs : List (HookFunctor HookFunc)) (hooks : List (ℕ × List (HookFunctor HookFunc)))
      → IsOrdered boost hooks
      → hooks_at verb hooks ≡ some fs
      → IsAscending boost fs
  unfolding hooks_at
  IsAscending-hooks verb fs [] ord e = cc
  IsAscending-hooks verb fs ((v, gs) ∷ hooks) (asc, all, rest) e = elim (Bool-cases (v == verb)) [
    | inl same ↦ let taken : gs ≡ fs = ground (arith, rw same at e) in rw taken at asc
    | inr other ↦ IsAscending-hooks verb fs hooks rest (rw other at e)
  ]

  -- In a registrar in order, a request without brackets runs the function that the table has for its
  -- verb and tokens, on the session as it is, and process reports that it ran.
  pub process-view :
      (beast : Beast) (r : HandlerRegistrar) (s : Session) (h : HookFunc)
      → IsOrdered boost r.hooks
      → is_fuzzy_schema boost (schema_of s) ≡ false
      → view r s.req.method (split_url boost (schema_of s)) ≡ some h
      → process boost beast r s ≡ (true, run_hook beast r (some h) s)
  unfolding process add_arguments
  process-view beast r s h ord plain found =
      let ts = split_url boost (schema_of s) in
      let (fs, at_verb, looked) = found-hooks s.req.method ts r.hooks h found in
      let (g, has, tokens) = found-functor ts fs h looked in
      let (ok, same, args) = match-exact boost (schema_of s) fs g plain has tokens in
      let won = (match boost (schema_of s) fs).func in
      let func : won.func ≡ some h =
        sym (
          lookup-Has won fs (IsAscending-hooks s.req.method fs r.hooks ord at_verb)
            (match-Has boost (schema_of s) fs plain ok))
        ∙ ap (λ us. lookup us fs) same
        ∙ looked in
      rw (at_verb, process) (rw (ok, args) (ap (λ k. (true, run_hook beast r k s)) func))
