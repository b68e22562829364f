-- ===== src/Context.antt =====
-- Depends/Asula/Include/Asula/ServerContext.hpp. A ServiceItf is a number, with the name that its
-- name() returns; each call holds its mutex to its end.
pub mod Laws
use mathlib.Core.Option
use socker.Prelude.{ℕ, Option, none, some, length, [], List, ◌∷◌}
use socker.Text.{Text, text_eq}
use socker.Assoc.{Assoc, get, put}

pub record ServerContext : Type 0 where
  pub services : Assoc Text ℕ
  pub conf : Assoc Text Text

abbrev pub new_context : ServerContext
new_context = record { services = []; conf = [] }

unfoldable pub service_count : ServerContext → ℕ
service_count c = length c.services

unfoldable pub get_service : Text → ServerContext → Option ℕ
get_service name c = get name c.services

unfoldable pub set_config : Text → Text → ServerContext → ServerContext
set_config name value c = record c { conf = put name value c.conf }

unfoldable pub get_config : Text → ServerContext → Text
get_config name c = Option.get_or (get name c.conf) []

-- addService(service), for a service with this name
unfoldable pub add_service : (name : Text) → (service : ℕ) → ServerContext → ServerContext
add_service name service c = record c { services = put name service c.services }
