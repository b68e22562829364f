-- ===== src/Http/Registrar/Refines.antt =====
-- The registrar refines the table of routes, for routes without placeholders.
use socker.Prelude.{
  ℕ, ◌<◌, ◌≡◌, refl, sym, ap, ◌∙◌, inl, inr, true, false, ◌&&◌, none, List, [], ◌∷◌, arith,
  if◌then◌else◌, ltb, ◌==◌, nat_eq, Bool-cases, All, fun_ext, ltb→lt,
}
use socker.Boost.{Boost}
use socker.Text.{Text, text_eq}
use socker.Http.Route.{HookFunctor, new_functor, is_fuzzy, is_null}
use socker.Http.Registrar.{HookFunc, HandlerRegistrar, add, emplace_at}
use socker.Http.Registrar.Insertion.{emplace-IsAscending, lookup-emplace}
use socker.Http.Registrar.Table.{
  Registration, Table, or_new, tokens_eq, tokens_beq, is_refused, tokens_of, insert, replay,
  register_all, lookup, look, view, IsGood, IsOrdered,
}

module _ (boost : Boost) where
  look-none :
      (verb : ℕ) (ts : List Text) (hooks : List (ℕ × List (HookFunctor HookFunc)))
      → All (λ (e : ℕ × List (HookFunctor HookFunc)). verb < e.0) hooks
      → look verb ts hooks ≡ none
  unfolding look
  look-none verb ts [] h = refl
  look-none verb ts ((v, fs) ∷ hooks) h = ground (arith, h.0, look-none verb ts hooks h.1)

  All-emplace_at :
      (n verb : ℕ) (f : HookFunctor HookFunc) (hooks : List (ℕ × List (HookFunctor HookFunc)))
      → n < verb
      → All (λ (e : ℕ × List (HookFunctor HookFunc)). n < e.0) hooks
      → All (λ (e : ℕ × List (HookFunctor HookFunc)). n < e.0) (emplace_at boost verb f hooks).0
  unfolding emplace_at
  All-emplace_at n verb f [] lt h = (lt, tt)
  All-emplace_at n verb f ((v, fs) ∷ hooks) lt h = elim (Bool-cases (v == verb)) [
    | inl e ↦ rw e h
    | inr e ↦ rw e (elim (Bool-cases (ltb verb v)) [
      | inl k ↦ rw k (lt, h)
      | inr k ↦ rw k (h.0, All-emplace_at n verb f hooks lt h.1)
    ])
  ]

  All-below :
      (m n : ℕ) (hooks : List (ℕ × List (HookFunctor HookFunc)))
      → m < n
      → All (λ (e : ℕ × List (HookFunctor HookFunc)). n < e.0) hooks
      → All (λ (e : ℕ × List (HookFunctor HookFunc)). m < e.0) hooks
  All-below m n [] lt h = tt
  All-below m n (e ∷ hooks) lt h = (omega (arith, h.0), All-below m n hooks lt h.1)

  emplace_at-IsOrdered :
      (verb : ℕ) (f : HookFunctor HookFunc) (hooks : List (ℕ × List (HookFunctor HookFunc)))
      → IsGood boost f
      → IsOrdered boost hooks
      → IsOrdered boost (emplace_at boost verb f hooks).0
  unfolding emplace_at
  emplace_at-IsOrdered verb f [] good h = ((good, tt, tt), tt, tt)
  emplace_at-IsOrdered verb f ((v, fs) ∷ hooks) good (asc, all, rest) =
      elim (Bool-cases (v == verb)) [
        | inl e ↦ rw e (emplace-IsAscending boost f fs good asc, all, rest)
        | inr e ↦ rw e (elim (Bool-cases (ltb verb v)) [
          | inl k ↦ rw k (
            (good, tt, tt),
            (ltb→lt verb v k, All-below verb v hooks (ltb→lt verb v k) all),
            (asc, all, rest),
          )
          | inr k ↦ rw k (
            asc,
            All-emplace_at v verb f hooks (ground arith) all,
            emplace_at-IsOrdered verb f hooks good rest,
          )
        ])
      ]

  look-emplace_at :
      (v : ℕ) (ts : List Text) (verb : ℕ) (f : HookFunctor HookFunc)
      (hooks : List (ℕ × List (HookFunctor HookFunc)))
      → IsGood boost f
      → IsOrdered boost hooks
      → look v ts (emplace_at boost verb f hooks).0 ≡ (
          if (verb == v) && (f.tokens == ts)
          then or_new (look v ts hooks) f.func
          else look v ts hooks)
  unfolding emplace_at look lookup
  look-emplace_at v ts verb f [] good h = ground arith
  look-emplace_at v ts verb f ((w, fs) ∷ hooks) good (asc, all, rest) =
      elim (Bool-cases (w == verb)) [
        | inl e ↦ rw e (ground (arith, lookup-emplace boost ts f fs good asc))
        | inr e ↦ rw e (elim (Bool-cases (ltb verb w)) [
          | inl k ↦ rw k (
              ground
                (arith, look-none verb ts hooks (All-below verb w hooks (ltb→lt verb w k) all)))
          | inr k ↦ rw k (ground (arith, look-emplace_at v ts verb f hooks good rest))
        ])
      ]

  -- the target has no placeholder
  abbrev pub IsLiteralRoute : Registration → Type 0
  IsLiteralRoute g = All (λ t. is_fuzzy boost t ≡ false) (tokens_of boost g)

  abbrev functor_of : Registration → HookFunctor HookFunc
  functor_of g = new_functor boost (boost.to_lower_copy g.target) g.func

  functor_of-IsGood :
      (g : Registration) → IsLiteralRoute g → is_null g.func ≡ false → IsGood boost (functor_of g)
  unfolding new_functor
  functor_of-IsGood g lit filled = (record { made = refl; literal = lit }, filled)

  insert-refused : (g : Registration) (t : Table) → is_refused boost g ≡ true → insert boost g t ≡ t
  unfolding insert
  insert-refused g t bad = fun_ext λ v. fun_ext λ ts. rw bad refl

  insert-new :
      (g : Registration) (t : Table) (v : ℕ) (ts : List Text)
      → is_refused boost g ≡ false
      → insert boost g t v ts
        ≡ (if (g.verb == v) && (tokens_of boost g == ts) then or_new (t v ts) g.func else t v ts)
  unfolding insert tokens_beq
  insert-new g t v ts fine = rw fine refl

  add-refines :
      (g : Registration) (r : HandlerRegistrar)
      → IsLiteralRoute g
      → IsOrdered boost r.hooks
      → IsOrdered boost (add boost g.verb g.target g.func r).0.hooks
        × (view (add boost g.verb g.target g.func r).0 ≡ insert boost g (view r))
  unfolding add new_functor
  add-refines g r lit ord = elim (Bool-cases (is_refused boost g)) [
    | inl bad ↦ rw bad (ord, sym (insert-refused g (view r) bad))
    | inr fine ↦
        let good = functor_of-IsGood g lit (ground arith) in
        rw fine (
          emplace_at-IsOrdered g.verb (functor_of g) r.hooks good ord,
          fun_ext λ v. fun_ext λ ts.
              look-emplace_at v ts g.verb (functor_of g) r.hooks good ord
              ∙ sym (insert-new g (view r) v ts fine),
        )
  ]

  -- On a registrar in order, any calls of add with targets without placeholders keep it in order and
  -- do to it what they do to the table that it is seen as: each enters its function where none
  -- stands for its verb and tokens, unless it is refused.
  pub register_all-refines :
      (gs : List Registration) (r : HandlerRegistrar)
      → All IsLiteralRoute gs
      → IsOrdered boost r.hooks
      → IsOrdered boost (register_all boost gs r).hooks
        × (view (register_all boost gs r) ≡ replay boost gs (view r))
  unfolding register_all replay
  register_all-refines [] r lit ord = (ord, refl)
  register_all-refines (g ∷ gs) r lit ord =
      let (ord', same) = add-refines g r lit.0 ord in
      let (ord'', all) = register_all-refines gs _ lit.1 ord' in
      (ord'', all ∙ ap (replay boost gs) same)
