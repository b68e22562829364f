-- ===== src/Http/Uri/Decode.antt =====
-- decodeUri: what the decoded text is, and what it cannot hold.
use socker.Prelude.{
  ℕ, zero, suc, ◌≡◌, refl, ◌∙◌, ◌≢◌, inl, inr, Option, none, some, [], ◌∷◌, ◌++◌, map, map-append,
  arith, if◌then◌else◌, ◌==◌, nat_eq, Bool-cases, take, All,
}
use socker.Boost.{Boost}
use socker.Text.{Text, tolower, find, is_prefix, bytes}
use socker.Text.Dots.{NoDots, find-none, none-find}
use socker.Http.Uri.{decode_char, decode_loop, decode_uri, percent_value}

tolower-dot : (c : ℕ) → tolower c ≡ b'.' → c ≡ b'.'
unfolding tolower
tolower-dot c h = ground arith

NoDots-tolower : (s : Text) → NoDots s → NoDots (map tolower s)
unfolding is_prefix
NoDots-tolower [] h = tt
NoDots-tolower (c ∷ []) h = ground arith
NoDots-tolower (c ∷ d ∷ s) h = ground (arith, tolower-dot c, tolower-dot d, NoDots-tolower (d ∷ s))

-- what a text without escapes looks like
abbrev pub IsPlain : ℕ → Type 0
IsPlain c = (c ≢ b'%') × (c ≢ b'+')

tolower-IsPlain : (c : ℕ) → IsPlain c → IsPlain (tolower c)
unfolding tolower
tolower-IsPlain c h = (λ e. ground arith, λ e. ground arith)

map-tolower-IsPlain : (s : Text) → All IsPlain s → All IsPlain (map tolower s)
map-tolower-IsPlain [] h = tt
map-tolower-IsPlain (c ∷ s) h = (tolower-IsPlain c h.0, map-tolower-IsPlain s h.1)

map-tolower-tolower : (s : Text) → map tolower (map tolower s) ≡ map tolower s
unfolding tolower
map-tolower-tolower [] = refl
map-tolower-tolower (c ∷ s) = ground (arith, map-tolower-tolower s)

pub percent_value-zero : (o : Option ℕ) → percent_value o ≡ 0
percent_value-zero none = refl
percent_value-zero (some v) = refl

module _ (boost : Boost) where
  NoDots-decode_loop : (k : ℕ) (s : Text) → NoDots s → NoDots (decode_loop boost k s)
  unfolding decode_loop decode_char is_prefix
  NoDots-decode_loop k [] h = tt
  NoDots-decode_loop (suc k) (c ∷ s) h = NoDots-decode_loop k s h.1
  NoDots-decode_loop zero (c ∷ []) h = ground arith
  NoDots-decode_loop zero (c ∷ d ∷ s) h = elim (Bool-cases (c == b'%')) [
    | inl e ↦ rw e (
        ground (
          arith,
          percent_value-zero (boost.lexical_cast_u8 (take 2 (d ∷ s))),
          NoDots-decode_loop 2 (d ∷ s),
        ))
    | inr e ↦ rw e (
        ground (
          arith,
          percent_value-zero (boost.lexical_cast_u8 (take 2 s)),
          NoDots-decode_loop 0 (d ∷ s),
        ))
  ]

  decode_loop-IsPlain : (k : ℕ) (s : Text) → All IsPlain (decode_loop boost k s)
  unfolding decode_loop decode_char
  decode_loop-IsPlain k [] = tt
  decode_loop-IsPlain (suc k) (c ∷ s) = decode_loop-IsPlain k s
  decode_loop-IsPlain zero (c ∷ s) = (
    (
      λ e. ground (arith, percent_value-zero (boost.lexical_cast_u8 (take 2 s))),
      λ e. ground (arith, percent_value-zero (boost.lexical_cast_u8 (take 2 s))),
    ),
    decode_loop-IsPlain (if c == b'%' then 2 else 0) s,
  )

  decode_loop-eq : (s : Text) → All IsPlain s → decode_loop boost 0 s ≡ s
  unfolding decode_loop decode_char
  decode_loop-eq [] h = refl
  decode_loop-eq (c ∷ s) h = ground (arith, decode_loop-eq s)

  decode_loop-append :
      (p s : Text) → All IsPlain p → decode_loop boost 0 (p ++ s) ≡ p ++ decode_loop boost 0 s
  unfolding decode_loop decode_char
  decode_loop-append [] s h = refl
  decode_loop-append (c ∷ p) s h = ground (arith, decode_loop-append p s)

  -- A decoded url holds no escape: every `%` and every `+` is gone.
  pub decode_uri-IsPlain : (url : Text) → All IsPlain (decode_uri boost url)
  unfolding decode_uri
  decode_uri-IsPlain url =
      rw (boost.to_lower_copy_lem _) (map-tolower-IsPlain _ (decode_loop-IsPlain 0 url))

  -- Without escapes decoding is lower-casing.
  pub decode_uri_of_plain : (url : Text) → All IsPlain url → decode_uri boost url ≡ map tolower url
  unfolding decode_uri
  decode_uri_of_plain url h = rw (boost.to_lower_copy_lem _) (rw (decode_loop-eq url h))

  map-tolower-decode_uri : (url : Text) → map tolower (decode_uri boost url) ≡ decode_uri boost url
  unfolding decode_uri
  map-tolower-decode_uri url = rw (boost.to_lower_copy_lem _) (map-tolower-tolower _)

  -- Decoding a decoded url changes nothing.
  pub decode_uri_idempotent :
      (url : Text) → decode_uri boost (decode_uri boost url) ≡ decode_uri boost url
  decode_uri_idempotent url =
      decode_uri_of_plain _ (decode_uri-IsPlain url) ∙ map-tolower-decode_uri url

  -- An escape behind a part without escapes becomes one NUL byte, whatever its two digits are.
  pub decode_uri_percent :
      (p r : Text) (a b : ℕ)
      → All IsPlain p
      → decode_uri boost (p ++ b'%' ∷ a ∷ b ∷ r) ≡ decode_uri boost p ++ 0 ∷ decode_uri boost r
  unfolding decode_uri decode_loop decode_char tolower
  decode_uri_percent p r a b h = simp (
    boost.to_lower_copy_lem,
    decode_loop-append p (b'%' ∷ a ∷ b ∷ r) h,
    decode_loop-eq p h,
    map-append,
    percent_value-zero,
  )

  -- Decoding brings no `..` into a url that has none.
  pub decode_uri_keeps_dots_out :
      (url : Text) → find (bytes "..") url ≡ none → find (bytes "..") (decode_uri boost url) ≡ none
  unfolding decode_uri
  decode_uri_keeps_dots_out url h =
      rw (boost.to_lower_copy_lem _)
        (none-find _ (NoDots-tolower _ (NoDots-decode_loop 0 url (find-none url h))))
