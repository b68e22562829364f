-- ===== src/Http/Match.antt =====
-- HandlerRegistrar::match of Depends/Asula/Include/Asula/HttpServer.hpp. The std::set of functors
-- is given as the list of its elements in the order of iteration.
pub mod Weight
pub mod Best
pub mod Exact
use mathlib.Core.List.{foldl}
use socker.Prelude.{
  ℕ, ◌+◌, ◌-◌, Bool, true, false, ◌||◌, List, [], ◌∷◌, if◌then◌else◌, ltb, ◌==◌, nat_eq, length,
  take, drop, is_empty,
}
use socker.Text.{Text, bytes, text_eq}
use socker.Assoc.{Assoc, put}
use socker.Boost.{Boost}
use socker.Http.Route.{HookFunctor, no_functor, is_fuzzy, split_url}

pub record MatchedResult (F : Type 0) : Type 0 where
  pub ok : Bool
  pub func : HookFunctor F
  pub args : Assoc Text Text

abbrev pub no_match : {F : Type 0} → MatchedResult F
no_match = record { ok = false; func = no_functor; args = [] }

-- `computedWeight` and `computed`
pub record Computed (F : Type 0) : Type 0 where
  pub weight : ℕ
  pub result : MatchedResult F

-- ft.substr(1, ft.size() - 2)
abbrev pub inner : Text → Text
inner ft = take (length ft - 2) (drop 1 ft)

module _ (boost : Boost) where
  unfoldable pub is_fuzzy_schema : Text → Bool
  is_fuzzy_schema schema =
      boost.contains schema (bytes "<")
      || boost.contains schema (bytes ">")
      || boost.contains schema (bytes "[")
      || boost.contains schema (bytes "]")

  -- The loop over the tokens of one functor, which runs where the request has at least as many.
  unfoldable pub weigh_tokens : List Text → List Text → ℕ → Assoc Text Text → ℕ × Assoc Text Text
  weigh_tokens [] sts weight args = (weight, args)
  weigh_tokens (ft ∷ fts) [] weight args = (weight, args)
  weigh_tokens (ft ∷ fts) (st ∷ sts) weight args =
      let exact = weigh_tokens fts sts (weight + 100) args in
      let fuzzy = weigh_tokens fts sts (weight + 10) (put (inner ft) st args) in
      if ft == st then exact else if is_fuzzy boost ft then fuzzy else (weight, args)

  unfoldable pub weigh : List Text → List Text → ℕ × Assoc Text Text
  weigh fts tokens = if is_empty fts then (1, []) else weigh_tokens fts tokens 0 []

  -- one round of the loop over the functors
  unfoldable pub consider : {F : Type 0} → List Text → Computed F → HookFunctor F → Computed F
  consider tokens best f =
      if ltb (length tokens) (length f.tokens)
      then best
      else let (weight, args) = weigh f.tokens tokens in
        if ltb best.weight weight
        then record { weight = weight; result = record { ok = true; func = f; args = args } }
        else best

  unfoldable pub match : {F : Type 0} → Text → List (HookFunctor F) → MatchedResult F
  match schema funcs =
      if is_fuzzy_schema schema
      then no_match
      else (foldl (consider (split_url boost schema)) (record { weight = 0; result = no_match })
          funcs).result
