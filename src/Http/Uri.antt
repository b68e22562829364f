-- ===== src/Http/Uri.antt =====
-- The free functions minetype, catPath and decodeUri of Depends/Asula/Include/Asula/HttpServer.hpp.
pub mod Bounds
pub mod Decode
pub mod Path
use mathlib.Core.Option
use socker.Prelude.{
  ℕ, zero, suc, Bool, false, Option, none, some, [], ◌∷◌, ◌++◌, if◌then◌else◌, ◌==◌, nat_eq, take,
  drop, is_empty,
}
use socker.Text.{Text, bytes, text_eq, rfind, back, drop_last}
use socker.Assoc.{Assoc, get}
use socker.Boost.{Boost}

abbrev pub types : Assoc Text Text
types =
    (bytes "", bytes "text/plain")
    ∷ (bytes ".htm", bytes "text/html")
    ∷ (bytes ".html", bytes "text/html")
    ∷ (bytes ".php", bytes "text/html")
    ∷ (bytes ".css", bytes "text/css")
    ∷ (bytes ".txt", bytes "text/plain")
    ∷ (bytes ".js", bytes "application/javascript")
    ∷ (bytes ".json", bytes "application/json")
    ∷ (bytes ".xml", bytes "application/xml")
    ∷ (bytes ".swf", bytes "application/x-shockwave-flash")
    ∷ (bytes ".flv", bytes "video/x-flv")
    ∷ (bytes ".png", bytes "image/png")
    ∷ (bytes ".jpe", bytes "image/jpeg")
    ∷ (bytes ".jpeg", bytes "image/jpeg")
    ∷ (bytes ".jpg", bytes "image/jpeg")
    ∷ (bytes ".gif", bytes "image/gif")
    ∷ (bytes ".bmp", bytes "image/bmp")
    ∷ (bytes ".ico", bytes "image/vnd.microsoft.icon")
    ∷ (bytes ".tiff", bytes "image/tiff")
    ∷ (bytes ".tif", bytes "image/tiff")
    ∷ (bytes ".svg", bytes "image/svg+xml")
    ∷ (bytes ".svgz", bytes "image/svg+xml")
    ∷ []

-- ext: empty without a dot, else the path from its last dot on
unfoldable pub extension : Text → Text
extension path = elim (rfind b'.' path) [ none ↦ [] | some pos ↦ drop pos path ]

unfoldable pub minetype : Text → Text
unfolding extension
minetype path = Option.get_or (get (extension path) types) []

abbrev pub is_slash : Option ℕ → Bool
is_slash none = false
is_slash (some c) = c == b'/'

unfoldable pub cat_path : Text → Text → Text
cat_path base path =
    if is_empty base then path else (if is_slash (back base) then drop_last base else base) ++ path

-- `ch` keeps its initial 0: the cast's value is dropped, and its exception is caught.
abbrev percent_value : Option ℕ → ℕ
percent_value (some v) = 0
percent_value none = 0

module _ (boost : Boost) where
  -- what one round of the loop appends for `c`, with `s` behind it
  unfoldable pub decode_char : ℕ → Text → ℕ
  decode_char c s =
      if c == b'%'
      then percent_value (boost.lexical_cast_u8 (take 2 s))
      else if c == b'+'
      then b' '
      else c

  -- The loop over the positions of the url. The first argument is the number of characters that the
  -- index still has to pass over: 2 after `i = i + 2`.
  unfoldable pub decode_loop : ℕ → Text → Text
  decode_loop k [] = []
  decode_loop (suc k) (c ∷ s) = decode_loop k s
  decode_loop zero (c ∷ s) = decode_char c s ∷ decode_loop (if c == b'%' then 2 else 0) s

  unfoldable pub decode_uri : Text → Text
  decode_uri url = boost.to_lower_copy (decode_loop 0 url)
