-- ===== src/Assoc.antt =====
-- std::map and std::unordered_map as association lists: at most one entry for a key that was put,
-- in the order of first insertion. The program iterates over maps only where order cannot be seen,
-- or through a module that keeps the order itself.
use socker.Prelude.{
  ◌≡◌, refl, Option, none, some, List, [], ◌∷◌, arith, if◌then◌else◌, Eq, ◌==◌, beq_refl, beq-false,
  ◌≢◌, ap, inl, inr, Bool-cases,
}

abbrev pub Assoc {ℓ κ} : Type ℓ → Type κ → Type (ℓ ⊔ κ)
Assoc K V = List (K × V)

module _ {ℓ κ} {K : Type ℓ} {V : Type κ} ⦃e : Eq K⦄ where
  -- m.at(k) where m.count(k) is not 0, else none
  unfoldable pub get : K → Assoc K V → Option V
  get k [] = none
  get k ((j, v) ∷ m) = if j == k then some v else get k m

  -- m[k] = v
  unfoldable pub put : K → V → Assoc K V → Assoc K V
  put k v [] = (k, v) ∷ []
  put k v ((j, w) ∷ m) = if j == k then (k, v) ∷ m else (j, w) ∷ put k v m

  -- m.erase(k)
  unfoldable pub erase : K → Assoc K V → Assoc K V
  erase k [] = []
  erase k ((j, v) ∷ m) = let rest = erase k m in if j == k then rest else (j, v) ∷ rest

  pub get-put :
      (k j : K) (v : V) (m : Assoc K V) → get j (put k v m) ≡ (if k == j then some v else get j m)
  unfolding get put
  get-put k j v [] = refl
  get-put k j v ((i, w) ∷ m) =
      ground (arith, e.beq_iff k j, e.beq_iff i k, e.beq_iff i j, get-put k j v m)

  pub get-erase : (k j : K) (m : Assoc K V) → get j (erase k m) ≡ (if k == j then none else get j m)
  unfolding get erase
  get-erase k j [] = ground arith
  get-erase k j ((i, w) ∷ m) =
      ground (arith, e.beq_iff k j, e.beq_iff i k, e.beq_iff i j, get-erase k j m)

  pub get-put_self : (k : K) (v : V) (m : Assoc K V) → get k (put k v m) ≡ some v
  get-put_self k v m = rw (get-put k k v m) (rw (beq_refl k))

  pub get-put_ne : (k j : K) (v : V) (m : Assoc K V) → k ≢ j → get j (put k v m) ≡ get j m
  get-put_ne k j v m h = rw (get-put k j v m) (rw (beq-false k j h))

  pub put-put : (k : K) (v w : V) (m : Assoc K V) → put k v (put k w m) ≡ put k v m
  unfolding put
  put-put k v w [] = rw (beq_refl k) refl
  put-put k v w ((j, u) ∷ m) = elim (Bool-cases (j == k)) [
    | inl same ↦ rw same (rw (beq_refl k) refl)
    | inr other ↦ rw other (rw other (ap (λ n. (j, u) ∷ n) (put-put k v w m)))
  ]

  pub put-get : (k : K) (v : V) (m : Assoc K V) → get k m ≡ some v → put k v m ≡ m
  unfolding get put
  put-get k v [] h = absurd cc
  put-get k v ((j, u) ∷ m) h = elim (Bool-cases (j == k)) [
    | inl same ↦ rw same (ground (arith, e.beq_iff j k, same, h))
    | inr other ↦ rw other (ap (λ n. (j, u) ∷ n) (put-get k v m (rw other at h)))
  ]
