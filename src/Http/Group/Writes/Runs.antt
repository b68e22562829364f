-- ===== src/Http/Group/Writes/Runs.antt =====
-- Runs of the steps of conversations, taken apart.
use socker.Prelude.{◌≡◌, refl, List, [], ◌∷◌, ◌++◌}
use socker.Boost.{Boost}
use socker.Http.Group.Writes.{Floor, Event, step, run}

module _ (boost : Boost) where
  pub run-none : (floor : Floor) → run boost [] floor ≡ floor
  unfolding run
  run-none floor = refl

  pub run-cons :
      (e : Event) (es : List Event) (floor : Floor)
      → run boost (e ∷ es) floor ≡ run boost es (step boost floor e)
  unfolding run
  run-cons e es floor = refl

  pub run-append :
      (before later : List Event) (floor : Floor)
      → run boost (before ++ later) floor ≡ run boost later (run boost before floor)
  unfolding run
  run-append [] later floor = refl
  run-append (e ∷ es) later floor = run-append es later _
