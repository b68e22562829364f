-- ===== src/Context/Laws.antt =====
-- What a context returns is what was last set under the name.
use socker.Prelude.{
  ℕ, ◌+◌, ◌≡◌, refl, none, some, [], ◌∷◌, arith, if◌then◌else◌, ◌==◌, nat_eq, length,
}
use socker.Text.{Text, text_eq}
use socker.Assoc.{Assoc, get, put, get-put}
use socker.Context.{ServerContext, service_count, get_service, set_config, get_config, add_service}

-- A setting is read as it was last set, the other settings and the services as before.
pub get_config-set_config :
    (name other value : Text) (c : ServerContext)
    → (get_config other (set_config name value c)
        ≡ (if name == other then value else get_config other c))
      × (get_service other (set_config name value c) ≡ get_service other c)
unfolding get_config set_config get_service
get_config-set_config name other value c =
    (rw (get-put name other value c.conf) (ground arith), refl)

length-put :
    {V : Type 0} (k : Text) (v : V) (m : Assoc Text V)
    → length (put k v m) ≡ (elim (get k m) [ none ↦ length m + 1 | some w ↦ length m ])
unfolding get put
length-put k v [] = ground arith
length-put k v ((j, w) ∷ m) = ground (arith, length-put k v m)

-- An added service is found by its name, other names find what they found before, and the number of
-- services grows by one unless the name was there.
pub get_service-add_service :
    (name other : Text) (service : ℕ) (c : ServerContext)
    → (get_service other (add_service name service c)
        ≡ (if name == other then some service else get_service other c))
      × (service_count (add_service name service c)
          ≡ (elim (get_service name c) [ none ↦ service_count c + 1 | some s ↦ service_count c ]))
unfolding get_service add_service service_count
get_service-add_service name other service c =
    (get-put name other service c.services, length-put name service c.services)
