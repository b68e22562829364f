-- ===== src/Http/Group/Writes/Stopping.antt =====
-- Where the loop of a multicast stops: at its next write, or at its end.
use socker.Prelude.{
  ℕ, ◌≡◌, ◌≢◌, ◌⊎◌, ap, ◌∙◌, inl, inr, Bool, true, false, Option, none, some, List, [], ◌∷◌, ◌++◌,
  arith, ◌==◌, nat_eq, Bool-cases, All, Has,
}
use socker.Text.{Text}
use socker.Http.Group.Writes.{Floor, advance}
use socker.Http.Group.Writes.Floors.{group_of}

-- where the loop stops: at a client other than the sender, of those that it ran over
abbrev pub IsStop : Floor → Text → ℕ → Option (ℕ × List ℕ) → Type 0
IsStop floor g stream none = Unit
IsStop floor g stream (some (c, rest)) =
    (group_of c floor ≡ some g) × All (λ x. group_of x floor ≡ some g) rest × (c ≢ stream)

pub advance-IsStop :
    (floor : Floor) (g : Text) (is_open : ℕ → Bool) (stream : ℕ) (cs closed : List ℕ)
    → All (λ x. group_of x floor ≡ some g) cs
    → IsStop floor g stream (advance is_open stream cs closed).1
unfolding advance
advance-IsStop floor g is_open stream [] closed h = tt
advance-IsStop floor g is_open stream (c ∷ cs) closed (h, hs) = elim (Bool-cases (c == stream)) [
  | inl own ↦ rw own (advance-IsStop floor g is_open stream cs closed hs)
  | inr other ↦ rw other (elim (Bool-cases (is_open c)) [
    | inr shut ↦ rw shut (advance-IsStop floor g is_open stream cs (closed ++ c ∷ []) hs)
    | inl on ↦ rw on (h, hs, λ e. ground arith)
  ])
]

-- Where the loop stops while x is open: at x, or with x behind.
abbrev pub Covers : ℕ → ℕ → Option (ℕ × List ℕ) → Type 0
Covers stream x none = x ≡ stream
Covers stream x (some (c, rest)) = (x ≡ c) ⊎ Has x rest

pub advance-Covers :
    (is_open : ℕ → Bool) (stream x : ℕ) (cs closed : List ℕ)
    → is_open x ≡ true
    → Has x cs
    → x ≢ stream
    → Covers stream x (advance is_open stream cs closed).1
unfolding advance
advance-Covers is_open stream x [] closed on has other = absurd has
advance-Covers is_open stream x (c ∷ cs) closed on has other = elim (Bool-cases (c == stream)) [
  | inl own ↦ rw own (elim has [
    | inl its ↦ absurd (other (its ∙ (nat_eq.beq_iff c stream).0 own))
    | inr later ↦ advance-Covers is_open stream x cs closed on later other
  ])
  | inr ne ↦ rw ne (elim (Bool-cases (is_open c)) [
    | inl c_on ↦ rw c_on has
    | inr shut ↦ rw shut (elim has [
      | inl its ↦ absurd (shut_ne x c its on shut)
      | inr later ↦ advance-Covers is_open stream x cs (closed ++ c ∷ []) on later other
    ])
  ])
]
  where
    shut_ne : (y d : ℕ) → y ≡ d → is_open y ≡ true → is_open d ≡ false → ⊥
    shut_ne y d e yes_ no_ = ground (arith, ap is_open e)
