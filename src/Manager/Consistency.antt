-- ===== src/Manager/Consistency.antt =====
-- The two maps and the list of a manager hold the same objects, while identifiers are unique.
use socker.Prelude.{
  ℕ, ◌≡◌, refl, ◌≢◌, ◌↔◌, ◌⊎◌, inl, inr, true, some, List, [], ◌∷◌, ◌++◌, arith, Eq, ◌==◌, nat_eq,
  Bool-cases, Has,
}
use socker.Text.{text_eq}
use socker.Assoc
use socker.Assoc.{get-put, get-erase}
use socker.Manager.{
  Members, id_and_code, id_only, code_only, Objects, AbstractManager, remove, add, rmv, list,
}

pub Has-remove : (x t : ℕ) (ps : List ℕ) → Has x (remove t ps) ↔ (Has x ps × (x ≢ t))
unfolding remove
Has-remove x t [] = ((λ h. absurd h), (λ h. h.0))
Has-remove x t (p ∷ ps) =
    let (to, from) = Has-remove x t ps in
    elim (Bool-cases (p == t)) [
      | inl e ↦ rw e ((λ h. (inr (to h).0, (to h).1)), (λ h. from (past h.0 h.1 e, h.1)))
      | inr e ↦ rw e (
        (λ h. elim h [ inl y ↦ (inl y, λ z. ground arith) | inr m ↦ (inr (to m).0, (to m).1) ]),
        (λ h. elim h.0 [ inl y ↦ inl y | inr m ↦ inr (from (m, h.1)) ]),
      )
    ]
  where
    past : (x ≡ p) ⊎ Has x ps → x ≢ t → (p == t) ≡ true → Has x ps
    past (inl y) n e = absurd (n (ground arith))
    past (inr m) n e = m

Has-append : (x t : ℕ) (ps : List ℕ) → Has x (ps ++ t ∷ []) ↔ (Has x ps ⊎ (x ≡ t))
Has-append x t [] = (
  (λ h. elim h [ inl e ↦ inr e | inr b ↦ absurd b ]),
  (λ h. elim h [ inl b ↦ absurd b | inr e ↦ inl e ]),
)
Has-append x t (p ∷ ps) =
    let (to, from) = Has-append x t ps in
    (
      (λ h. elim h [
        | inl e ↦ inl (inl e)
        | inr m ↦ elim (to m) [ inl k ↦ inl (inr k) | inr e ↦ inr e ]
      ]),
      (λ h. elim h [
        | inl k ↦ elim k [ inl e ↦ inl e | inr m ↦ inr (from (inl m)) ]
        | inr e ↦ inr (from (inr e))
      ]),
    )

-- the map from identifiers finds just the listed objects
abbrev pub Indexes {ℓ} : {K : Type ℓ} → ⦃e : Eq K⦄ → (ℕ → K) → Assoc.Assoc K ℕ → List ℕ → Type ℓ
Indexes {K = K} key m ps = (k : K) (p : ℕ) → (Assoc.get k m ≡ some p) ↔ (Has p ps × (key p ≡ k))

Indexes-put {ℓ} :
    {K : Type ℓ} ⦃e : Eq K⦄ (key : ℕ → K) (m : Assoc.Assoc K ℕ) (ps : List ℕ) (t : ℕ)
    → Indexes key m ps
    → ((p : ℕ) → Has p ps → key p ≢ key t)
    → Indexes key (Assoc.put (key t) t m) (ps ++ t ∷ [])
Indexes-put ⦃e⦄ key m ps t ix fresh k p =
    let (found, listed) = ix k p in
    let (to, from) = Has-append p t ps in
    elim (Bool-cases (key t == k)) [
      | inl same ↦ rw (get-put (key t) k t m) (
          rw same (
            (λ h. (from (inr (ground arith)), ground (arith, e.beq_iff (key t) k))),
            (λ h. elim (to h.0) [
              | inl old ↦ absurd (fresh p old (ground (arith, e.beq_iff (key t) k)))
              | inr new ↦ ground arith
            ]),
          ))
      | inr other ↦ rw (get-put (key t) k t m) (
          rw other (
            (λ h. (from (inl (found h).0), (found h).1)),
            (λ h. elim (to h.0) [
              | inl old ↦ listed (old, h.1)
              | inr new ↦ ground (arith, e.beq_iff (key t) k)
            ]),
          ))
    ]

pub Indexes-erase {ℓ} :
    {K : Type ℓ} ⦃e : Eq K⦄ (key : ℕ → K) (m : Assoc.Assoc K ℕ) (ps : List ℕ) (t : ℕ)
    → Indexes key m ps
    → Has t ps
    → Indexes key (Assoc.erase (key t) m) (remove t ps)
Indexes-erase ⦃e⦄ key m ps t ix has k p =
    let (found, listed) = ix k p in
    let own = (ix (key t) t).1 (has, refl) in
    let (to, from) = Has-remove p t ps in
    elim (Bool-cases (key t == k)) [
      | inl same ↦ rw (get-erase (key t) k m) (
          rw same (
            (λ h. ground arith),
            (λ h.
                absurd (
                  (to h.0).1 (ground (arith, e.beq_iff (key t) k, own, listed ((to h.0).0, h.1))))),
          ))
      | inr other ↦ rw (get-erase (key t) k m) (
          rw other (
            (λ h. (
              from ((found h).0, (λ z. ground (arith, e.beq_iff (key t) k, (found h).1))),
              (found h).1,
            )),
            (λ h. listed ((to h.0).0, h.1)),
          ))
    ]

module _ (objects : Objects) where
  -- for each map that a manager of this type keeps
  abbrev pub IsConsistent : Members → AbstractManager → Type 0
  IsConsistent id_and_code m =
      Indexes objects.id m.id_to_ptrs m.ptrs × Indexes objects.code m.code_to_ptrs m.ptrs
  IsConsistent id_only m = Indexes objects.id m.id_to_ptrs m.ptrs
  IsConsistent code_only m = Indexes objects.code m.code_to_ptrs m.ptrs

  -- no managed object has a key of this one
  abbrev pub IsNew : Members → ℕ → AbstractManager → Type 0
  IsNew id_and_code t m =
      (p : ℕ) → Has p m.ptrs → (objects.id p ≢ objects.id t) × (objects.code p ≢ objects.code t)
  IsNew id_only t m = (p : ℕ) → Has p m.ptrs → objects.id p ≢ objects.id t
  IsNew code_only t m = (p : ℕ) → Has p m.ptrs → objects.code p ≢ objects.code t

  -- While the maps find just the listed objects, by their id and code, adding an object with new
  -- keys keeps that so.
  pub add-IsConsistent :
      (members : Members) (t : ℕ) (m : AbstractManager)
      → IsConsistent members m
      → IsNew members t m
      → IsConsistent members (add objects members (some t) m)
  unfolding add
  add-IsConsistent id_and_code t m ok new = (
    Indexes-put objects.id m.id_to_ptrs m.ptrs t ok.0 (λ p h. (new p h).0),
    Indexes-put objects.code m.code_to_ptrs m.ptrs t ok.1 (λ p h. (new p h).1),
  )
  add-IsConsistent id_only t m ok new = Indexes-put objects.id m.id_to_ptrs m.ptrs t ok new
  add-IsConsistent code_only t m ok new = Indexes-put objects.code m.code_to_ptrs m.ptrs t ok new

  -- While the maps find just the listed objects, by their id and code, removing a listed object
  -- keeps that so, and the list then has just the other objects.
  pub rmv-IsConsistent :
      (members : Members) (t : ℕ) (m : AbstractManager)
      → IsConsistent members m
      → Has t (list m)
      → IsConsistent members (rmv objects members (some t) m)
        × ((p : ℕ) → Has p (list (rmv objects members (some t) m)) ↔ (Has p (list m) × (p ≢ t)))
  unfolding rmv
  rmv-IsConsistent id_and_code t m ok has = (
    (
      Indexes-erase objects.id m.id_to_ptrs m.ptrs t ok.0 has,
      Indexes-erase objects.code m.code_to_ptrs m.ptrs t ok.1 has,
    ),
    (λ p. Has-remove p t m.ptrs),
  )
  rmv-IsConsistent id_only t m ok has =
      (Indexes-erase objects.id m.id_to_ptrs m.ptrs t ok has, (λ p. Has-remove p t m.ptrs))
  rmv-IsConsistent code_only t m ok has =
      (Indexes-erase objects.code m.code_to_ptrs m.ptrs t ok has, (λ p. Has-remove p t m.ptrs))
