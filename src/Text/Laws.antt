-- ===== src/Text/Laws.antt =====
-- Laws of the text operations.
use socker.Prelude.{
  ℕ, zero, suc, ◌≤◌, ◌≡◌, refl, ap, ◌≢◌, none, some, [], ◌∷◌, ◌++◌, arith, if◌then◌else◌, ◌==◌,
  nat_eq, length, take, drop, All,
}
use socker.Text.{Text, find_first_of, find_first_of_from, substr_to}

-- s.substr(0, s.find_first_of(c)) is the part of s before the first c
unfoldable pub before : ℕ → Text → Text
before c [] = []
before c (x ∷ s) = if x == c then [] else x ∷ before c s

pub substr_to-find_first_of : (c : ℕ) (s : Text) → substr_to (find_first_of c s) s ≡ before c s
unfolding find_first_of before
substr_to-find_first_of c [] = refl
substr_to-find_first_of c (x ∷ s) = ground (arith, substr_to-find_first_of c s)

-- a text without the separators of a url
abbrev pub IsClean : Text → Type 0
IsClean s = All (λ c. (c ≢ b':') × (c ≢ b'/')) s

module _ (d : ℕ) where
  pub find_first_of_from-append :
      (n : ℕ) (a s : Text)
      → n ≤ length a
      → All (λ x. x ≢ d) a
      → find_first_of_from d n (a ++ d ∷ s) ≡ some (length a)
  unfolding find_first_of_from find_first_of
  find_first_of_from-append zero [] s le h = ground arith
  find_first_of_from-append zero (x ∷ a) s le h =
      ground (arith, find_first_of_from-append zero a s (omega arith) h.1)
  find_first_of_from-append (suc n) [] s le h = absurd (omega arith)
  find_first_of_from-append (suc n) (x ∷ a) s le h =
      rw (find_first_of_from-append n a s (omega arith) h.1)

  pub find_first_of_from-none :
      (n : ℕ) (s : Text) → All (λ x. x ≢ d) s → find_first_of_from d n s ≡ none
  unfolding find_first_of_from find_first_of
  find_first_of_from-none zero [] h = refl
  find_first_of_from-none zero (x ∷ s) h = ground (arith, find_first_of_from-none zero s h.1)
  find_first_of_from-none (suc n) [] h = refl
  find_first_of_from-none (suc n) (x ∷ s) h = rw (find_first_of_from-none n s h.1)

pub drop-append : (a s : Text) → drop (length a) (a ++ s) ≡ s
drop-append [] s = refl
drop-append (x ∷ a) s = drop-append a s

pub no_colon : (a : Text) → IsClean a → All (λ x. x ≢ b':') a
no_colon [] h = tt
no_colon (x ∷ a) h = (h.0.0, no_colon a h.1)

pub no_slash : (a : Text) → IsClean a → All (λ x. x ≢ b'/') a
no_slash [] h = tt
no_slash (x ∷ a) h = (h.0.1, no_slash a h.1)

pub take-append : (a s : Text) → take (length a) (a ++ s) ≡ a
take-append [] s = refl
take-append (x ∷ a) s = ap (λ t. x ∷ t) (take-append a s)

module _ (d : ℕ) where
  pub find_first_of-append :
      (a s : Text) → All (λ x. x ≢ d) a → find_first_of d (a ++ d ∷ s) ≡ some (length a)
  unfolding find_first_of_from
  find_first_of-append a s h = find_first_of_from-append d 0 a s (omega arith) h

  pub find_first_of-none : (s : Text) → All (λ x. x ≢ d) s → find_first_of d s ≡ none
  unfolding find_first_of_from
  find_first_of-none s h = find_first_of_from-none d 0 s h
