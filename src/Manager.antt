-- ===== src/Manager.antt =====
-- Depends/Asula/Include/Asula/AbstractManager.hpp. A TPtr is a number, none for null; what id() and
-- code() of the objects return is given, and does not change while an object is managed. The three
-- overloads of add and rmv, of which the compiler takes one by the members that T has, are one
-- function with that choice as an argument. Assertions are compiled out, and each call holds the
-- mutex from its checks to its end.
pub mod Consistency
pub mod Reached
use socker.Prelude.{
  ℕ, Bool, true, false, Option, none, some, List, [], ◌∷◌, ◌++◌, if◌then◌else◌, ◌==◌, nat_eq,
  length, is_empty,
}
use socker.Text.{Text, text_eq}
use socker.Assoc
use socker.Assoc.{Assoc}

-- which of id() and code() the managed type has
pub data Members : Type 0 where
  id_and_code id_only code_only : Members

-- id() and code() of the object that a pointer points to
pub record Objects : Type 0 where
  pub id : ℕ → ℕ
  pub code : ℕ → Text

pub record AbstractManager : Type 0 where
  pub id_to_ptrs : Assoc ℕ ℕ
  pub code_to_ptrs : Assoc Text ℕ
  pub ptrs : List ℕ

abbrev pub empty_manager : AbstractManager
empty_manager = record { id_to_ptrs = []; code_to_ptrs = []; ptrs = [] }

-- std::list::remove
unfoldable pub remove : ℕ → List ℕ → List ℕ
remove t [] = []
remove t (p ∷ ps) = let rest = remove t ps in if p == t then rest else p ∷ rest

module _ (objects : Objects) where
  abbrev put_id : Members → ℕ → Assoc ℕ ℕ → Assoc ℕ ℕ
  put_id code_only t m = m
  put_id _ t m = Assoc.put (objects.id t) t m

  abbrev put_code : Members → ℕ → Assoc Text ℕ → Assoc Text ℕ
  put_code id_only t m = m
  put_code _ t m = Assoc.put (objects.code t) t m

  unfoldable pub add : Members → Option ℕ → AbstractManager → AbstractManager
  add members none m = m
  add members (some t) m = record {
    id_to_ptrs = put_id members t m.id_to_ptrs;
    code_to_ptrs = put_code members t m.code_to_ptrs;
    ptrs = m.ptrs ++ t ∷ [];
  }

  abbrev erase_id : Members → ℕ → Assoc ℕ ℕ → Assoc ℕ ℕ
  erase_id code_only t m = m
  erase_id _ t m = Assoc.erase (objects.id t) m

  abbrev erase_code : Members → ℕ → Assoc Text ℕ → Assoc Text ℕ
  erase_code id_only t m = m
  erase_code _ t m = Assoc.erase (objects.code t) m

  unfoldable pub rmv : Members → Option ℕ → AbstractManager → AbstractManager
  rmv members none m = m
  rmv members (some t) m = record {
    id_to_ptrs = erase_id members t m.id_to_ptrs;
    code_to_ptrs = erase_code members t m.code_to_ptrs;
    ptrs = remove t m.ptrs;
  }

-- get(id) and get(code): null is none
unfoldable pub get_by_id : ℕ → AbstractManager → Option ℕ
get_by_id id m = Assoc.get id m.id_to_ptrs

unfoldable pub get_by_code : Text → AbstractManager → Option ℕ
get_by_code code m = Assoc.get code m.code_to_ptrs

abbrev pub list : AbstractManager → List ℕ
list m = m.ptrs

abbrev pub empty : AbstractManager → Bool
empty m = is_empty m.ptrs

abbrev pub size : AbstractManager → ℕ
size m = length m.ptrs

unfoldable pub clear : AbstractManager → AbstractManager
clear m = empty_manager
