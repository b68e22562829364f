-- ===== src/Http/Route.antt =====
-- Route, HandlerRegistrar::HookFunctor, isFuzzy and splitUrl of
-- Depends/Asula/Include/Asula/HttpServer.hpp. `F` is the type of a callable that is not null, so a
-- HookFunc is an `Option F`.
pub mod Split
pub mod Order
use socker.Prelude.{
  ℕ, Bool, true, false, not, ◌&&◌, ◌||◌, Option, none, some, List, [], ◌∷◌, ◌++◌, if◌then◌else◌,
  ◌==◌, nat_eq, is_empty, length,
}
use socker.Text.{Text, bytes, text_eq, find_first_of, substr_to, text_lt, lex}
use socker.Boost.{Boost}

pub record Route (F : Type 0) : Type 0 where
  pub method : Text
  pub url : Text
  pub handler : Option F

pub record HookFunctor (F : Type 0) : Type 0 where
  pub url : Text
  pub func : Option F
  pub tokens : List Text

abbrev pub is_null : {F : Type 0} → Option F → Bool
is_null none = true
is_null (some f) = false

-- HookFunctor()
abbrev pub no_functor : {F : Type 0} → HookFunctor F
no_functor = record { url = []; func = none; tokens = [] }

-- the loop of splitUrl that erases the empty tokens
unfoldable pub erase_empty : List Text → List Text
erase_empty [] = []
erase_empty (t ∷ ts) = let rest = erase_empty ts in if is_empty t then rest else t ∷ rest

module _ (boost : Boost) where
  -- Route(method, url, handler)
  unfoldable pub new_route : {F : Type 0} → Text → Text → Option F → Route F
  new_route method url handler = record {
    method = boost.to_upper_copy method;
    url = if boost.starts_with url (bytes "/") then url else bytes "/" ++ url;
    handler = handler;
  }

  unfoldable pub is_fuzzy : Text → Bool
  is_fuzzy t =
      boost.starts_with t (bytes "<") && boost.ends_with t (bytes ">")
      || boost.starts_with t (bytes "[") && boost.ends_with t (bytes "]")

  unfoldable pub split_url : Text → List Text
  unfolding erase_empty
  split_url url =
      let schema = substr_to (find_first_of b'?' url) url in
      erase_empty (boost.split (boost.to_lower_copy schema) (bytes "/") true)

  -- HookFunctor(url_, func_)
  unfoldable pub new_functor : {F : Type 0} → Text → Option F → HookFunctor F
  new_functor url func =
      let lower = boost.to_lower_copy url in
      record { url = lower; func = func; tokens = split_url lower }

  -- the loop of operator==, which runs on token lists of one size
  unfoldable pub same_tokens : List Text → List Text → Bool
  same_tokens [] _ = true
  same_tokens (lt ∷ ls) [] = false
  same_tokens (lt ∷ ls) (rt ∷ rs) =
      if lt == rt || is_fuzzy lt && is_fuzzy rt then same_tokens ls rs else false

  -- operator==
  unfoldable pub same_functor : {F : Type 0} → HookFunctor F → HookFunctor F → Bool
  unfolding same_tokens
  same_functor a b =
      if a.url == b.url
      then true
      else if not (length a.tokens == length b.tokens)
      then false
      else same_tokens a.tokens b.tokens

  -- operator<
  unfoldable pub functor_lt : {F : Type 0} → HookFunctor F → HookFunctor F → Bool
  functor_lt a b = if same_functor a b then false else lex text_lt a.tokens b.tokens

-- Route::isValid
unfoldable pub route_is_valid : {F : Type 0} → Route F → Bool
route_is_valid r = not (is_empty r.method) && not (is_empty r.url) && not (is_null r.handler)
