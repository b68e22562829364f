-- ===== src/Http/Uri/Bounds.antt =====
-- decodeUri: the length of a decoded url, and that it consists of bytes.
use socker.Prelude.{
  ℕ, zero, suc, ◌+◌, ◌*◌, ◌≤◌, ◌<◌, ◌≡◌, refl, inl, inr, [], ◌∷◌, map, arith, if◌then◌else◌, ◌==◌,
  nat_eq, Bool-cases, length, take, All,
}
use socker.Boost.{Boost}
use socker.Text.{Text, tolower}
use socker.Http.Uri.{decode_char, decode_loop, decode_uri}
use socker.Http.Uri.Decode.{percent_value-zero}

abbrev pub IsByte : ℕ → Type 0
IsByte c = c < 256

length-map-tolower : (s : Text) → length (map tolower s) ≡ length s
length-map-tolower [] = refl
length-map-tolower (c ∷ s) = omega (arith, length-map-tolower s)

tolower-IsByte : (c : ℕ) → IsByte c → IsByte (tolower c)
unfolding tolower
tolower-IsByte c h = ground arith

map-tolower-IsByte : (s : Text) → All IsByte s → All IsByte (map tolower s)
map-tolower-IsByte [] h = tt
map-tolower-IsByte (c ∷ s) h = (tolower-IsByte c h.0, map-tolower-IsByte s h.1)

module _ (boost : Boost) where
  decode_char-IsByte : (c : ℕ) (s : Text) → IsByte c → IsByte (decode_char boost c s)
  unfolding decode_char
  decode_char-IsByte c s h = ground (arith, percent_value-zero (boost.lexical_cast_u8 (take 2 s)))

  decode_loop-IsByte : (k : ℕ) (s : Text) → All IsByte s → All IsByte (decode_loop boost k s)
  unfolding decode_loop
  decode_loop-IsByte k [] h = tt
  decode_loop-IsByte (suc k) (c ∷ s) h = decode_loop-IsByte k s h.1
  decode_loop-IsByte zero (c ∷ s) h =
      (decode_char-IsByte c s h.0, decode_loop-IsByte (if c == b'%' then 2 else 0) s h.1)

  -- a round passes over at most three characters
  length-decode_loop :
      (k : ℕ) (s : Text)
      → (length (decode_loop boost k s) ≤ length s)
        × (length s ≤ k + 3 * length (decode_loop boost k s))
  unfolding decode_loop
  length-decode_loop k [] = (omega arith, omega arith)
  length-decode_loop (suc k) (c ∷ s) =
      (omega (arith, length-decode_loop k s), omega (arith, length-decode_loop k s))
  length-decode_loop zero (c ∷ s) = elim (Bool-cases (c == b'%')) [
    | inl e ↦ rw e (omega (arith, length-decode_loop 2 s), omega (arith, length-decode_loop 2 s))
    | inr e ↦ rw e (omega (arith, length-decode_loop 0 s), omega (arith, length-decode_loop 0 s))
  ]

  -- A decoded url is no longer than the url and at least a third as long, and its characters are
  -- bytes if the url's are.
  pub length-decode_uri :
      (url : Text)
      → All IsByte url
      → (length (decode_uri boost url) ≤ length url)
        × (length url ≤ 3 * length (decode_uri boost url))
        × All IsByte (decode_uri boost url)
  unfolding decode_uri
  length-decode_uri url h = rw (boost.to_lower_copy_lem _) (
      rw (length-map-tolower (decode_loop boost 0 url)) (
        (length-decode_loop 0 url).0,
        omega (arith, (length-decode_loop 0 url).1),
        map-tolower-IsByte _ (decode_loop-IsByte 0 url h),
      ))
