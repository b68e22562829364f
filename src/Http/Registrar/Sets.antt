-- ===== src/Http/Registrar/Sets.antt =====
-- What registering a hook changes, and that a registered route is then dispatched.
use socker.Prelude.{
  ℕ, ◌≡◌, refl, ap, ◌≢◌, ◌⊎◌, inl, inr, Bool, true, false, ◌||◌, Option, some, List, [], ◌∷◌, arith,
  ltb, ◌==◌, nat_eq, Bool-cases, is_empty, Has,
}
use socker.Boost.{Boost}
use socker.Text.{Text, text_eq, find_first_of, substr_to}
use socker.Http.Beast.{Beast}
use socker.Http.Route.{HookFunctor, new_functor, functor_lt, is_null, split_url}
use socker.Http.Match.{match, is_fuzzy_schema}
use socker.Http.Match.Exact.{match-exact}
use socker.Http.Session.{Session}
use socker.Http.Registrar.{
  HookFunc, HandlerRegistrar, emplace, emplace_at, add, hooks_at, run_hook, add_arguments, process,
}

module _ {A : Type 0} (lt : A → A → Bool) where
  -- either the element is put in, or the set stays as it is
  emplace-cases :
      (a : A) (bs : List A)
      → (((emplace lt a bs).1 ≡ true) × Has a (emplace lt a bs).0)
        ⊎ (((emplace lt a bs).1 ≡ false) × ((emplace lt a bs).0 ≡ bs))
  unfolding emplace
  emplace-cases a [] = inl (refl, inl refl)
  emplace-cases a (b ∷ bs) = elim (Bool-cases (lt b a)) [
    | inl e ↦ rw e (elim (emplace-cases a bs) [
      | inl (done, has) ↦ inl (done, inr has)
      | inr (kept, same) ↦ inr (kept, ap (λ r. b ∷ r) same)
    ])
    | inr e ↦ rw e (elim (Bool-cases (lt a b)) [
      | inl k ↦ rw k (inl (refl, inl refl))
      | inr k ↦ rw k (inr (refl, refl))
    ])
  ]

module _ (boost : Boost) (verb : ℕ) (f : HookFunctor HookFunc) where
  -- one of the functors for the verb is `f`
  abbrev pub Registered : List (ℕ × List (HookFunctor HookFunc)) → Type 0
  Registered hooks = (fs : List (HookFunctor HookFunc)) × (hooks_at verb hooks ≡ some fs) × Has f fs

  emplace_at-cases :
      (hooks : List (ℕ × List (HookFunctor HookFunc)))
      → (((emplace_at boost verb f hooks).1 ≡ true) × Registered (emplace_at boost verb f hooks).0)
        ⊎ (((emplace_at boost verb f hooks).1 ≡ false)
            × ((emplace_at boost verb f hooks).0 ≡ hooks))
  unfolding emplace_at hooks_at
  emplace_at-cases [] = inl (refl, (f ∷ [], ground arith, inl refl))
  emplace_at-cases ((v, fs) ∷ hooks) = elim (Bool-cases (v == verb)) [
    | inl e ↦ rw e (elim (emplace-cases (functor_lt boost) f fs) [
      | inl (done, has) ↦ inl (done, ((emplace (functor_lt boost) f fs).0, rw e, has))
      | inr (kept, same) ↦ inr (kept, ap (λ r. (v, r) ∷ hooks) same)
    ])
    | inr e ↦ rw e (elim (Bool-cases (ltb verb v)) [
      | inl k ↦ rw k (inl (refl, (f ∷ [], ground arith, inl refl)))
      | inr k ↦ rw k (elim (emplace_at-cases hooks) [
        | inl (done, (gs, found, has)) ↦ inl (done, (gs, rw e found, has))
        | inr (kept, same) ↦ inr (kept, ap (λ r. (v, fs) ∷ r) same)
      ])
    ])
  ]

  emplace_at-other :
      (w : ℕ) (hooks : List (ℕ × List (HookFunctor HookFunc)))
      → w ≢ verb
      → hooks_at w (emplace_at boost verb f hooks).0 ≡ hooks_at w hooks
  unfolding emplace_at hooks_at
  emplace_at-other w [] n = ground arith
  emplace_at-other w ((v, fs) ∷ hooks) n = ground (arith, emplace_at-other w hooks)

module _ (boost : Boost) where
  -- Registering either succeeds, and the new functor is then among those of its verb, or fails and
  -- changes nothing; the other verbs keep their functors. An unknown verb, an empty target and a
  -- null function fail.
  pub add_lem :
      (verb : ℕ) (target : Text) (func : Option HookFunc) (r : HandlerRegistrar)
      → ((((add boost verb target func r).1 ≡ true)
            × Registered boost verb
                (new_functor boost (boost.to_lower_copy target) func)
                (add boost verb target func r).0.hooks)
          ⊎ (((add boost verb target func r).1 ≡ false)
              × ((add boost verb target func r).0.hooks ≡ r.hooks)))
        × ((w : ℕ)
            → w ≢ verb
            → hooks_at w (add boost verb target func r).0.hooks ≡ hooks_at w r.hooks)
        × ((verb ≡ 0) ⊎ (is_empty target ≡ true) ⊎ (is_null func ≡ true)
            → (add boost verb target func r).1 ≡ false)
  unfolding add
  add_lem verb target func r = elim (Bool-cases ((verb == 0) || is_empty target || is_null func)) [
    | inl bad ↦ rw bad (inr (refl, refl), (λ w n. refl), (λ h. refl))
    | inr good ↦ rw good (
      emplace_at-cases boost verb _ r.hooks,
      (λ w n. emplace_at-other boost verb _ w r.hooks n),
      (λ h. absurd (ground arith)),
    )
  ]

-- the part of the session's url that process matches
abbrev pub schema_of : Session → Text
schema_of s = substr_to (find_first_of b'?' s.href) s.href

module _ (boost : Boost) (beast : Beast) where
  -- A request without brackets whose tokens are those of a registered route of its verb runs a hook
  -- registered for just these tokens, on the session as it is, and process reports that it ran.
  pub process-exact :
      (r : HandlerRegistrar) (s : Session) (funcs : List (HookFunctor HookFunc))
      (g : HookFunctor HookFunc)
      → hooks_at s.req.method r.hooks ≡ some funcs
      → Has g funcs
      → is_fuzzy_schema boost (schema_of s) ≡ false
      → g.tokens ≡ split_url boost (schema_of s)
      → (f : HookFunctor HookFunc) × (f.tokens ≡ split_url boost (schema_of s))
        × (process boost beast r s ≡ (true, run_hook beast r f.func s))
  unfolding process add_arguments
  process-exact r s funcs g found listed plain same =
      let (ok, tokens, args) = match-exact boost (schema_of s) funcs g plain listed same in
      ((match boost (schema_of s) funcs).func, tokens, rw (found, process) (rw (ok, args) refl))
