-- ===== src/Http/Group/Leaving.antt =====
-- Who is left in a group when clients are erased from it.
use socker.Prelude.{
  ℕ, ◌≡◌, ◌≢◌, ◌↔◌, ◌⊎◌, inl, inr, true, List, [], ◌∷◌, arith, ◌==◌, nat_eq, Bool-cases, Has,
}
use socker.Text.{text_eq}
use socker.Http.Group.{erase_client, erase_all}

pub Has-erase_client : (x c : ℕ) (ds : List ℕ) → Has x (erase_client c ds) ↔ (Has x ds × (x ≢ c))
unfolding erase_client
Has-erase_client x c [] = ((λ h. absurd h), (λ h. h.0))
Has-erase_client x c (d ∷ ds) =
    let (to, from) = Has-erase_client x c ds in
    elim (Bool-cases (d == c)) [
      | inl e ↦ rw e ((λ h. (inr (to h).0, (to h).1)), (λ h. from (shift_eq h.0 h.1 e, h.1)))
      | inr e ↦ rw e (
        (λ h. elim h [ inl y ↦ (inl y, λ z. ground arith) | inr m ↦ (inr (to m).0, (to m).1) ]),
        (λ h. elim h.0 [ inl y ↦ inl y | inr m ↦ inr (from (m, h.1)) ]),
      )
    ]
  where
    shift_eq : (x ≡ d) ⊎ Has x ds → x ≢ c → (d == c) ≡ true → Has x ds
    shift_eq (inl y) n e = absurd (n (ground arith))
    shift_eq (inr m) n e = m

pub Has-erase_all : (x : ℕ) (cs ds : List ℕ) → Has x (erase_all cs ds) ↔ (Has x ds × ¬ Has x cs)
unfolding erase_all
Has-erase_all x [] ds = ((λ h. (h, λ n. n)), (λ h. h.0))
Has-erase_all x (c ∷ cs) ds =
    let (to, from) = Has-erase_all x cs (erase_client c ds) in
    let (to_one, from_one) = Has-erase_client x c ds in
    (
      (λ h. let k = to_one (to h).0 in (k.0, λ m. elim m [ inl e ↦ k.1 e | inr l ↦ (to h).1 l ])),
      (λ h. from (from_one (h.0, λ e. h.1 (inl e)), λ m. h.1 (inr m))),
    )
