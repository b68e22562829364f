-- ===== src/Factory/Laws.antt =====
-- Names are looked up without regard to case, and the last registration counts.
use socker.Prelude.{ℕ, ◌≡◌, some, map, if◌then◌else◌, ◌==◌, nat_eq}
use socker.Text.{Text, text_eq, tolower}
use socker.Assoc.{get-put}
use socker.Boost.{Boost}
use socker.Factory.{AbstractFactory, register, create}

-- After a registration a name creates the class that was registered, if it is the same name up to
-- case, and else what it created before.
pub create-register :
    (boost : Boost) (class : ℕ) (name other : Text) (f : AbstractFactory)
    → create boost other (register boost class name f)
      ≡ (if map tolower name == map tolower other then some class else create boost other f)
unfolding create register
create-register boost class name other f =
    rw (get-put (boost.to_lower_copy name) (boost.to_lower_copy other) class f.factories)
      (rw (boost.to_lower_copy_lem name) (rw (boost.to_lower_copy_lem other)))
