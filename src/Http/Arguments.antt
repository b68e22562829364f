-- ===== src/Http/Arguments.antt =====
-- Session::parseArguments of Depends/Asula/Include/Asula/HttpServer.hpp.
pub mod RoundTrip
use socker.Prelude.{
  ℕ, zero, suc, ◌+◌, Bool, true, false, not, ◌&&◌, ◌||◌, Option, none, some, List, [], ◌∷◌, ◌++◌,
  if◌then◌else◌, ◌==◌, nat_eq, drop, is_empty,
}
use mathlib.Core.List.{foldl}
use socker.Text.{Text, text_eq, find_first_of}
use socker.Assoc.{Assoc, put}
use socker.Boost.{Boost}
use socker.Http.Session.{Session}

-- The variables of the loop of parseArguments.
pub record Parsing : Type 0 where
  pub key : Text
  pub value : Text
  pub in_key_turn : Bool
  pub args : Assoc Text Text

module _ (boost : Boost) where
  unfoldable pub store_pair : Parsing → Assoc Text Text
  store_pair p =
      if not (is_empty p.key) || not (is_empty p.value)
      then put (boost.to_lower_copy p.key) p.value p.args
      else p.args

  -- one round of the loop, for one character
  unfoldable pub parse_char : Parsing → ℕ → Parsing
  parse_char p c =
      if c == b'&'
      then record { key = []; value = []; in_key_turn = true; args = store_pair p }
      else if c == b'='
      then record p { in_key_turn = false }
      else if c == b'#'
      then p
      else if p.in_key_turn
      then record p { key = p.key ++ c ∷ [] }
      else record p { value = p.value ++ c ∷ [] }

  unfoldable pub parse_query : Text → Assoc Text Text
  parse_query query =
      store_pair
        (foldl parse_char (record { key = []; value = []; in_key_turn = true; args = [] }) query)

  unfoldable pub parse_arguments : Session → Session
  parse_arguments s = elim (find_first_of b'?' s.href) [
    | none ↦ record s { args = [] }
    | some pos ↦ record s { args = parse_query (drop (pos + 1) s.href) }
  ]
