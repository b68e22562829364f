-- ===== src/Factory.antt =====
-- Depends/Asula/Include/Asula/AbstractFactory.h. A factory function makes a new object of the class
-- that it was registered for; it is given by that class, a number.
pub mod Laws
use socker.Prelude.{ℕ, Bool, true, false, Option, none, some, if◌then◌else◌}
use socker.Text.{Text, text_eq}
use socker.Assoc.{Assoc, get, put}
use socker.Boost.{Boost}

pub record AbstractFactory : Type 0 where
  pub factories : Assoc Text ℕ

module _ (boost : Boost) where
  -- Register<U>(name): the warning about a second registration changes nothing
  unfoldable pub register : ℕ → Text → AbstractFactory → AbstractFactory
  register class name f = record { factories = put (boost.to_lower_copy name) class f.factories }

  -- Create(name): the class of the new object, none for null
  unfoldable pub create : Text → AbstractFactory → Option ℕ
  create name f = get (boost.to_lower_copy name) f.factories
