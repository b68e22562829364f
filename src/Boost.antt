-- ===== src/Boost.antt =====
-- The parts of Boost that the string code calls, as an interface: each operation with the law that
-- its documentation states. `ℕ` stands for a byte, and `none` for a thrown bad_lexical_cast.
-- Used by Http (Depends/Asula/Include/Asula/HttpServer.hpp and HttpClient.hpp).
pub mod Reference
use socker.Prelude.{ℕ, ◌≡◌, Bool, true, false, Option, map, ◌<◌, some}
use socker.Prelude.{List, [], ◌∷◌}
use socker.Text.{
  Text, tolower, toupper, is_prefix, find, split_on, any_of, merge_adjacent, has_suffix,
  contains_sub,
}

pub record Boost : Type 0 where
  -- boost/algorithm/string
  pub to_lower_copy : Text → Text
  pub to_upper_copy : Text → Text
  pub starts_with : Text → Text → Bool
  pub ends_with : Text → Text → Bool
  pub contains : Text → Text → Bool
  -- split(tokens, s, is_any_of(separators), compress)
  pub split : Text → Text → Bool → List Text
  -- boost/lexical_cast
  pub lexical_cast_u8 : Text → Option ℕ
  -- boost/beast/http: string_to_verb, with 0 for verb::unknown
  pub string_to_verb : Text → ℕ
  -- every character is converted by std::tolower, std::toupper of the C locale
  pub to_lower_copy_lem : (s : Text) → to_lower_copy s ≡ map tolower s
  pub to_upper_copy_lem : (s : Text) → to_upper_copy s ≡ map toupper s
  pub starts_with_lem : (s t : Text) → starts_with s t ≡ is_prefix t s
  pub ends_with_lem : (s t : Text) → ends_with s t ≡ has_suffix t s
  pub contains_lem : (s t : Text) → contains s t ≡ contains_sub t s
  pub split_lem : (s cs : Text) → split s cs false ≡ split_on (any_of cs) s
  -- token_compress_on: adjacent separators are merged together
  pub split-compress :
      (s cs : Text) → split s cs true ≡ split_on (any_of cs) (merge_adjacent (any_of cs) false s)
  pub lexical_cast_u8_lt : (s : Text) (n : ℕ) → lexical_cast_u8 s ≡ some n → n < 256
