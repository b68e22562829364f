-- ===== src/Text/Dots.antt =====
-- Texts in which no two dots stand in a row, and how the search for `..` tells.
use socker.Prelude.{ℕ, ◌≡◌, refl, ◌≢◌, false, none, [], ◌∷◌, ◌++◌, arith, nat_eq}
use socker.Text.{Text, find, is_prefix, bytes, drop_last}

-- the text has no two dots in a row
abbrev pub NoDots : Text → Type 0
NoDots [] = Unit
NoDots (c ∷ s) = (is_prefix (bytes "..") (c ∷ s) ≡ false) × NoDots s

pub find-none : (s : Text) → find (bytes "..") s ≡ none → NoDots s
unfolding find
find-none [] h = tt
find-none (c ∷ s) h = ground (arith, find-none s)

pub none-find : (s : Text) → NoDots s → find (bytes "..") s ≡ none
unfolding find
none-find [] h = refl
none-find (c ∷ s) h = ground (arith, none-find s)

-- A text that does not begin with a dot can be put behind any other.
pub NoDots-append :
    (a b : Text) (c : ℕ) → NoDots a → NoDots (c ∷ b) → c ≢ b'.' → NoDots (a ++ c ∷ b)
unfolding is_prefix
NoDots-append [] b c ha hb hc = hb
NoDots-append (x ∷ []) b c ha hb hc = (ground arith, hb)
NoDots-append (x ∷ y ∷ a) b c ha hb hc = (ha.0, NoDots-append (y ∷ a) b c ha.1 hb hc)

pub NoDots-drop_last : (a : Text) → NoDots a → NoDots (drop_last a)
unfolding is_prefix
NoDots-drop_last [] h = tt
NoDots-drop_last (x ∷ []) h = tt
NoDots-drop_last (x ∷ y ∷ []) h = ground arith
NoDots-drop_last (x ∷ y ∷ z ∷ a) h = (h.0, NoDots-drop_last (y ∷ z ∷ a) h.1)
