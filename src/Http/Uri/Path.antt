-- ===== src/Http/Uri/Path.antt =====
-- minetype and catPath: which part of the path counts, and which paths can come out.
use socker.Prelude.{
  ℕ, ◌≡◌, refl, ap, ◌≢◌, inl, inr, false, none, some, [], ◌∷◌, ◌++◌, arith, nat_eq, Bool-cases,
  length, drop, is_empty, All,
}
use mathlib.Core.Option
use socker.Assoc.{get}
use socker.Text.{Text, text_eq, find, bytes, rfind, back, drop_last}
use socker.Text.Dots.{NoDots, NoDots-append, NoDots-drop_last, find-none, none-find}
use socker.Http.Uri.{types, extension, minetype, cat_path, is_slash}

rfind-none : (c : ℕ) (s : Text) → All (λ x. x ≢ c) s → rfind c s ≡ none
unfolding rfind
rfind-none c [] h = refl
rfind-none c (x ∷ s) h = ground (arith, rfind-none c s)

pub rfind-append :
    (c : ℕ) (p s : Text) → All (λ x. x ≢ c) s → rfind c (p ++ c ∷ s) ≡ some (length p)
unfolding rfind
rfind-append c [] s h = rw (rfind-none c s h, rfind) (ground arith)
rfind-append c (x ∷ p) s h = rw (rfind-append c p s h, rfind)

pub drop-length-append : (p s : Text) → drop (length p) (p ++ s) ≡ s
drop-length-append [] s = refl
drop-length-append (x ∷ p) s = drop-length-append p s

extension-append :
    (p ext : Text) → All (λ x. x ≢ b'.') ext → extension (p ++ b'.' ∷ ext) ≡ b'.' ∷ ext
unfolding extension
extension-append p ext h = rw (rfind-append b'.' p ext h, extension) (drop-length-append p _)

-- The type depends only on what stands behind the last dot.
pub minetype-append :
    (p ext : Text)
    → All (λ x. x ≢ b'.') ext
    → minetype (p ++ b'.' ∷ ext) ≡ Option.get_or (get (b'.' ∷ ext) types) []
unfolding minetype
minetype-append p ext h = rw (extension-append p ext h)

-- A path without a dot is plain text.
pub minetype_of_no_dot : (p : Text) → All (λ x. x ≢ b'.') p → minetype p ≡ bytes "text/plain"
unfolding minetype extension socker.Text.text_beq
minetype_of_no_dot p h = rw (rfind-none b'.' p h, extension) (unfold get in refl)

back-append : (b : Text) (c : ℕ) → back (b ++ c ∷ []) ≡ some c
back-append [] c = refl
back-append (x ∷ []) c = refl
back-append (x ∷ y ∷ b) c = back-append (y ∷ b) c

drop_last-append : (b : Text) (c : ℕ) → drop_last (b ++ c ∷ []) ≡ b
drop_last-append [] c = refl
drop_last-append (x ∷ []) c = refl
drop_last-append (x ∷ y ∷ b) c = ap (λ s. x ∷ s) (drop_last-append (y ∷ b) c)

is_empty-append : (b : Text) (c : ℕ) → is_empty (b ++ c ∷ []) ≡ false
is_empty-append [] c = refl
is_empty-append (x ∷ b) c = refl

-- A base directory counts with and without its closing slash alike, and the path stands behind it
-- unchanged.
pub cat_path_lem :
    (b path : Text) (c : ℕ)
    → c ≢ b'/'
    → (cat_path (b ++ c ∷ []) path ≡ (b ++ c ∷ []) ++ path)
      × (cat_path ((b ++ c ∷ []) ++ b'/' ∷ []) path ≡ (b ++ c ∷ []) ++ path)
unfolding cat_path
cat_path_lem b path c h = (
  simp (is_empty-append, back-append) (ground arith),
  simp (is_empty-append, back-append, drop_last-append),
)

NoDots-cat_path :
    (base path : Text) → NoDots base → NoDots (b'/' ∷ path) → NoDots (cat_path base (b'/' ∷ path))
unfolding cat_path
NoDots-cat_path [] path hb hp = hp
NoDots-cat_path (x ∷ base) path hb hp = elim (Bool-cases (is_slash (back (x ∷ base)))) [
  | inl e ↦ rw e (NoDots-append _ path b'/' (NoDots-drop_last (x ∷ base) hb) hp (omega arith))
  | inr e ↦ rw e (NoDots-append (x ∷ base) path b'/' hb hp (omega arith))
]

-- A base and an absolute path without `..` are joined to a path without `..`.
pub cat_path_keeps_dots_out :
    (base path : Text)
    → find (bytes "..") base ≡ none
    → find (bytes "..") (b'/' ∷ path) ≡ none
    → find (bytes "..") (cat_path base (b'/' ∷ path)) ≡ none
cat_path_keeps_dots_out base path hb hp =
    none-find _ (NoDots-cat_path base path (find-none base hb) (find-none (b'/' ∷ path) hp))
