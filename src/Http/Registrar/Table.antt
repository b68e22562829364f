-- ===== src/Http/Registrar/Table.antt =====
-- A table of routes without placeholders: for each verb and list of tokens the first function that
-- was registered. The registrar is seen as such a table.
use socker.Prelude.{
  ℕ, ◌<◌, ◌≡◌, refl, ◌↔◌, Bool, true, false, not, ◌&&◌, ◌||◌, Option, none, some, List, [], ◌∷◌,
  arith, if◌then◌else◌, Eq, ◌==◌, nat_eq, is_empty, All,
}
use socker.Boost.{Boost}
use socker.Text.{Text, text_eq, text_beq_iff, lex, text_lt}
use socker.Http.Route.{HookFunctor, new_functor, is_null}
use socker.Http.Route.Order.{IsLiteral}
use socker.Http.Registrar.{HookFunc, HandlerRegistrar, add}

-- a call of HandlerRegistrar::add
pub record Registration : Type 0 where
  pub verb : ℕ
  pub target : Text
  pub func : Option HookFunc

abbrev pub Table : Type 0
Table = ℕ → List Text → Option HookFunc

abbrev pub no_routes : Table
no_routes verb tokens = none

-- the one that was there, else the new one
abbrev pub or_new : Option HookFunc → Option HookFunc → Option HookFunc
or_new none new = new
or_new (some old) new = some old

unfoldable pub tokens_beq : List Text → List Text → Bool
tokens_beq [] [] = true
tokens_beq (x ∷ xs) (y ∷ ys) = (x == y) && tokens_beq xs ys
tokens_beq _ _ = false

pub tokens_beq_iff : (a b : List Text) → (tokens_beq a b ≡ true) ↔ (a ≡ b)
unfolding tokens_beq
tokens_beq_iff [] [] = (λ _. refl, λ _. refl)
tokens_beq_iff [] (y ∷ ys) = (λ h. cc, λ h. cc)
tokens_beq_iff (x ∷ xs) [] = (λ h. cc, λ h. cc)
tokens_beq_iff (x ∷ xs) (y ∷ ys) = ground (arith, text_beq_iff x y, tokens_beq_iff xs ys)

instance abbrev pub tokens_eq : Eq (List Text)
tokens_eq = record { beq = tokens_beq; beq_iff = tokens_beq_iff }

module _ (boost : Boost) where
  -- the calls that add refuses
  abbrev pub is_refused : Registration → Bool
  is_refused g = (g.verb == 0) || is_empty g.target || is_null g.func

  abbrev pub tokens_of : Registration → List Text
  tokens_of g = (new_functor boost {F = HookFunc} (boost.to_lower_copy g.target) g.func).tokens

  -- a registration enters the table where nothing stands yet
  unfoldable pub insert : Registration → Table → Table
  insert g table verb tokens =
      if not (is_refused g) && (g.verb == verb) && (tokens_of g == tokens)
      then or_new (table verb tokens) g.func
      else table verb tokens

  unfoldable pub replay : List Registration → Table → Table
  replay [] table = table
  replay (g ∷ gs) table = replay gs (insert g table)

  -- the same calls on a registrar
  unfoldable pub register_all : List Registration → HandlerRegistrar → HandlerRegistrar
  register_all [] r = r
  register_all (g ∷ gs) r = register_all gs (add boost g.verb g.target g.func r).0

-- the function of the functor with these tokens
unfoldable pub lookup : List Text → List (HookFunctor HookFunc) → Option HookFunc
lookup tokens [] = none
lookup tokens (f ∷ fs) = if f.tokens == tokens then f.func else lookup tokens fs

unfoldable pub look : ℕ → List Text → List (ℕ × List (HookFunctor HookFunc)) → Option HookFunc
look verb tokens [] = none
look verb tokens ((v, fs) ∷ hooks) = if v == verb then lookup tokens fs else look verb tokens hooks

-- a registrar as a table
abbrev pub view : HandlerRegistrar → Table
view r verb tokens = look verb tokens r.hooks

-- the order of functors without placeholders
abbrev pub before : List Text → List Text → Bool
before = lex text_lt

module _ (boost : Boost) where
  abbrev pub IsGood : HookFunctor HookFunc → Type 0
  IsGood f = IsLiteral boost f × (is_null f.func ≡ false)

  -- the functors of one verb: literal, not null, and in ascending order
  abbrev pub IsAscending : List (HookFunctor HookFunc) → Type 0
  IsAscending [] = Unit
  IsAscending (f ∷ fs) = IsGood f × All (λ g. before f.tokens g.tokens ≡ true) fs × IsAscending fs

  -- the verbs ascend, and so do the functors of each
  abbrev pub IsOrdered : List (ℕ × List (HookFunctor HookFunc)) → Type 0
  IsOrdered [] = Unit
  IsOrdered ((v, fs) ∷ hooks) =
      IsAscending fs
      × All (λ (e : ℕ × List (HookFunctor HookFunc)). v < e.0) hooks
      × IsOrdered hooks
