-- ===== src/Tests/Routes.antt =====
-- Tests of the routes and of their matching.
use socker.Prelude.{
  ℕ, ◌<◌, ◌≤◌, ◌≡◌, refl, ◌↔◌, ◌⊎◌, inl, inr, true, false, some, List, [], ◌∷◌, ◌++◌, arith, All,
}
use socker.Assoc.{put}
use socker.Boost.Reference.{reference}
use socker.Text.{
  Text, bytes, text_eq, text_ne, text_beq, is_prefix, has_suffix, contains_sub, find_first_of,
  split_on, merge_adjacent, any_of, tolower, text_lt,
}
use socker.Http.Route.{
  HookFunctor, new_functor, is_fuzzy, split_url, same_functor, same_tokens, functor_lt,
}
use socker.Http.Route.Split.{IsToken, join, split_url-join}
use socker.Http.Route.Order.{IsLiteral, functor_lt-literal_order, functor_lt-not_trans}
use socker.Http.Match.{no_match, match, consider, weigh, weigh_tokens, is_fuzzy_schema}
use socker.Http.Match.Best.{score, matched, IsFirstBest, match-IsFirstBest}
use socker.Http.Match.Exact.{match-exact, match_of_first_token}

-- what a test has to see through
routes_open : Unit {0}
unfolding new_functor split_url is_fuzzy same_functor functor_lt match consider weigh weigh_tokens
    is_fuzzy_schema is_prefix has_suffix contains_sub find_first_of split_on merge_adjacent any_of
    tolower text_lt text_beq put same_tokens
routes_open = tt

abbrev made : Text → HookFunctor ℕ
made url = new_functor reference url (some 1)

abbrev funcs : List (HookFunctor ℕ)
funcs = made (bytes "/A/<Id>") ∷ made (bytes "/a/list") ∷ []

match_tests :
    ((match reference (bytes "/a/7") funcs).args ≡ (bytes "id", bytes "7") ∷ [])
    × ((match reference (bytes "/a/list/x") funcs).func.url ≡ bytes "/a/list")
    × ((match reference (bytes "/b") funcs).ok ≡ false)
    × ((match reference (bytes "/a/[7]") funcs).ok ≡ false)
unfolding routes_open
match_tests = (refl, refl, refl, refl)

two_tokens : All IsToken (bytes "a" ∷ bytes "b1" ∷ [])
unfolding tolower
two_tokens = (
  ((λ e. cc), ((omega arith, omega arith, refl), tt)),
  (((λ e. cc), ((omega arith, omega arith, refl), ((omega arith, omega arith, refl), tt))), tt),
)

split_url-join_example :
    (split_url reference (join (bytes "a" ∷ bytes "b1" ∷ [])) ≡ bytes "a" ∷ bytes "b1" ∷ [])
    × (split_url reference (join (bytes "a" ∷ bytes "b1" ∷ []) ++ b'?' ∷ bytes "k=v")
        ≡ bytes "a" ∷ bytes "b1" ∷ [])
split_url-join_example =
    split_url-join reference (bytes "a" ∷ bytes "b1" ∷ []) (bytes "k=v") two_tokens

IsLiteral-a : IsLiteral reference (made (bytes "/a"))
unfolding routes_open
IsLiteral-a = record { made = refl; literal = (refl, tt) }

IsLiteral-b : IsLiteral reference (made (bytes "/b"))
unfolding routes_open
IsLiteral-b = record { made = refl; literal = (refl, tt) }

functor_lt-literal_order_example :
    (functor_lt reference (made (bytes "/a")) (made (bytes "/a")) ≡ false)
    × (functor_lt reference (made (bytes "/a")) (made (bytes "/b")) ≡ true
        → functor_lt reference (made (bytes "/b")) (made (bytes "/b")) ≡ true
        → functor_lt reference (made (bytes "/a")) (made (bytes "/b")) ≡ true)
    × (((functor_lt reference (made (bytes "/a")) (made (bytes "/b")) ≡ false)
          × (functor_lt reference (made (bytes "/b")) (made (bytes "/a")) ≡ false))
        ↔ (same_functor reference (made (bytes "/a")) (made (bytes "/b")) ≡ true))
functor_lt-literal_order_example =
    functor_lt-literal_order reference (made (bytes "/a")) (made (bytes "/b")) (made (bytes "/b"))
      IsLiteral-a IsLiteral-b IsLiteral-b

functor_lt-not_trans_example :
    (functor_lt reference (made (bytes "/<a>/x")) (made (bytes "/<b>/y")) ≡ true)
    × (functor_lt reference (made (bytes "/<b>/y")) (made (bytes "/<c>/x")) ≡ true)
    × (functor_lt reference (made (bytes "/<a>/x")) (made (bytes "/<c>/x")) ≡ false)
unfolding routes_open
functor_lt-not_trans_example =
    functor_lt-not_trans reference (made (bytes "/<a>/x")) (made (bytes "/<b>/y"))
      (made (bytes "/<c>/x")) (bytes "<a>") (bytes "<b>") (bytes "<c>") (bytes "x") (bytes "y")
      (refl, refl) (refl, refl) (refl, refl) refl refl refl refl
      (text_ne (bytes "x") (bytes "y") refl) refl refl

plain_schema : is_fuzzy_schema reference (bytes "/a/list") ≡ false
unfolding routes_open
plain_schema = refl

match-IsFirstBest_example :
    ((match reference (bytes "/a/list") funcs ≡ no_match)
      × All (λ g. score reference (split_url reference (bytes "/a/list")) g ≤ 0) funcs)
    ⊎ ((f : HookFunctor ℕ) × IsFirstBest reference (split_url reference (bytes "/a/list")) funcs f
        × (match reference (bytes "/a/list") funcs
            ≡ matched reference (split_url reference (bytes "/a/list")) f)
        × (0 < score reference (split_url reference (bytes "/a/list")) f))
match-IsFirstBest_example = match-IsFirstBest reference (bytes "/a/list") funcs plain_schema

match-exact_example :
    ((match reference (bytes "/a/list") funcs).ok ≡ true)
    × ((match reference (bytes "/a/list") funcs).func.tokens
        ≡ split_url reference (bytes "/a/list"))
    × ((match reference (bytes "/a/list") funcs).args ≡ [])
unfolding routes_open
match-exact_example =
    match-exact reference (bytes "/a/list") funcs (made (bytes "/a/list")) refl (inr (inl refl))
      refl

match_of_first_token_example : (match reference (bytes "/a/other") funcs).ok ≡ true
unfolding routes_open
match_of_first_token_example =
    match_of_first_token reference (bytes "/a/other") funcs (made (bytes "/a/list")) refl
      (inr (inl refl)) (bytes "a") (bytes "list" ∷ []) (bytes "other" ∷ []) refl refl (omega arith)
