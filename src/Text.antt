-- ===== src/Text.antt =====
-- `std::string` as a list of bytes, with the operations that the program calls on it and the
-- classification functions of the C locale. `npos` is `none`.
pub mod Dots
pub mod Laws
use Prim.Native.Char.{code}
use Prim.Native.String
use socker.Prelude.{
  ℕ, zero, suc, ◌+◌, ◌-◌, String, ◌≡◌, refl, sym, ◌∙◌, ◌≢◌, ◌↔◌, Bool, true, false, ◌&&◌, ◌||◌,
  Option, none, some, List, [], ◌∷◌, ◌++◌, arith, if◌then◌else◌, leb, ltb, Eq, ◌==◌, nat_eq, take,
  drop, length, is_empty,
}
use mathlib.Core.Option
use mathlib.Core.Bool.{false≢true}

abbrev pub Text : Type 0
Text = List ℕ

-- a string literal
abbrev pub bytes : String → Text
bytes String.[] = []
bytes (String.◌∷◌ c s) = code c ∷ bytes s

unfoldable pub text_beq : Text → Text → Bool
text_beq [] [] = true
text_beq (x ∷ xs) (y ∷ ys) = (x == y) && text_beq xs ys
text_beq _ _ = false

pub text_beq_iff : (a b : Text) → (text_beq a b ≡ true) ↔ (a ≡ b)
unfolding text_beq
text_beq_iff [] [] = (λ _. refl, λ _. refl)
text_beq_iff [] (y ∷ ys) = (λ h. cc, λ h. cc)
text_beq_iff (x ∷ xs) [] = (λ h. cc, λ h. cc)
text_beq_iff (x ∷ xs) (y ∷ ys) = ground (arith, text_beq_iff xs ys)

pub text_ne : (a b : Text) → text_beq a b ≡ false → a ≢ b
text_ne a b f e = false≢true (sym f ∙ (text_beq_iff a b).1 e)

instance abbrev pub text_eq : Eq Text
text_eq = record { beq = text_beq; beq_iff = text_beq_iff }

-- std::tolower and std::toupper of the C locale
unfoldable pub tolower : ℕ → ℕ
tolower c = if leb b'A' c && leb c b'Z' then c + 32 else c

unfoldable pub toupper : ℕ → ℕ
toupper c = if leb b'a' c && leb c b'z' then c - 32 else c

-- s.find_first_of(c) for one character c
unfoldable pub find_first_of : ℕ → Text → Option ℕ
find_first_of c [] = none
find_first_of c (x ∷ s) = if x == c then some 0 else Option.map suc (find_first_of c s)

-- s.find_first_of(c, from)
unfoldable pub find_first_of_from : ℕ → ℕ → Text → Option ℕ
find_first_of_from c zero s = find_first_of c s
find_first_of_from c (suc n) [] = none
find_first_of_from c (suc n) (x ∷ s) = Option.map suc (find_first_of_from c n s)

-- s.rfind(c) for one character c
unfoldable pub rfind : ℕ → Text → Option ℕ
rfind c [] = none
rfind c (x ∷ s) = elim (rfind c s) [
  | some i ↦ some (suc i)
  | none ↦ if x == c then some 0 else none
]

unfoldable pub is_prefix : Text → Text → Bool
is_prefix [] s = true
is_prefix (x ∷ p) [] = false
is_prefix (x ∷ p) (y ∷ s) = (x == y) && is_prefix p s

-- s.find(t)
unfoldable pub find : Text → Text → Option ℕ
find t [] = if is_empty t then some 0 else none
find t (c ∷ s) = if is_prefix t (c ∷ s) then some 0 else Option.map suc (find t s)

-- s.substr(0, pos): the whole string when pos is npos
abbrev pub substr_to : Option ℕ → Text → Text
substr_to none s = s
substr_to (some n) s = take n s

-- s.back(), none for the empty string
abbrev pub back : Text → Option ℕ
back [] = none
back (c ∷ []) = some c
back (c ∷ d ∷ s) = back (d ∷ s)

-- s.resize(s.size() - 1)
abbrev pub drop_last : Text → Text
drop_last [] = []
drop_last (c ∷ []) = []
drop_last (c ∷ d ∷ s) = c ∷ drop_last (d ∷ s)

-- Splitting at single separators: one more piece than separators, empty pieces kept.
abbrev pub split_step : Bool → ℕ → List Text → List Text
split_step true c pieces = [] ∷ pieces
split_step false c [] = (c ∷ []) ∷ []
split_step false c (piece ∷ pieces) = (c ∷ piece) ∷ pieces

unfoldable pub split_on : (ℕ → Bool) → Text → List Text
split_on sep [] = [] ∷ []
split_on sep (c ∷ s) = split_step (sep c) c (split_on sep s)

-- is `c` one of the characters of `cs`
unfoldable pub any_of : Text → ℕ → Bool
any_of [] c = false
any_of (x ∷ cs) c = (c == x) || any_of cs c

-- Runs of adjacent separators become their first one.
abbrev pub merge_step : Bool → Bool → ℕ → Text → Text
merge_step true true c s = s
merge_step _ _ c s = c ∷ s

unfoldable pub merge_adjacent : (ℕ → Bool) → Bool → Text → Text
merge_adjacent sep inside [] = []
merge_adjacent sep inside (c ∷ s) = merge_step inside (sep c) c (merge_adjacent sep (sep c) s)

-- does `s` end with `t`
unfoldable pub has_suffix : Text → Text → Bool
has_suffix t [] = is_empty t
has_suffix t (c ∷ s) = (c ∷ s == t) || has_suffix t s

-- does `s` have `t` in it
unfoldable pub contains_sub : Text → Text → Bool
contains_sub t [] = is_empty t
contains_sub t (c ∷ s) = is_prefix t (c ∷ s) || contains_sub t s

-- std::lexicographical_compare by `lt`
unfoldable pub lex {ℓ} : {A : Type ℓ} → (A → A → Bool) → List A → List A → Bool
lex lt [] [] = false
lex lt [] (y ∷ ys) = true
lex lt (x ∷ xs) [] = false
lex lt (x ∷ xs) (y ∷ ys) = if lt x y then true else if lt y x then false else lex lt xs ys

-- operator< of std::string, on unsigned bytes
unfoldable pub text_lt : Text → Text → Bool
unfolding lex
text_lt = lex ltb
