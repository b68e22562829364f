-- ===== src/Http/System/Stop.antt =====
-- What events do once stop() has stopped io_, and once a null pointer was used.
use socker.Prelude.{◌≡◌, true, false, arith, nat_eq}
use socker.Boost.{Boost}
use socker.Http.Beast.{Beast}
use socker.Http.System.{System, Event, accepts, reads, resets_registrar, stops_io, step}

module _ (boost : Boost) (beast : Beast) where
  -- Once io_ is stopped no event changes a connection or uses a null pointer.
  abbrev pub Stopped : System → System → Type 0
  Stopped new old =
      (new.crashed ≡ old.crashed) × (new.connections ≡ old.connections) × (new.running ≡ false)

  pub step-Stopped :
      (e : Event) (sys : System) → sys.running ≡ false → Stopped (step boost beast sys e) sys
  unfolding step
  step-Stopped (accepts result outcomes) sys stopped = ground arith
  step-Stopped (reads k x) sys stopped = ground arith
  step-Stopped resets_registrar sys stopped = ground arith
  step-Stopped stops_io sys stopped = ground arith

  pub step-crashed :
      (e : Event) (sys : System) → sys.crashed ≡ true → (step boost beast sys e).crashed ≡ true
  unfolding step
  step-crashed (accepts result outcomes) sys bad = ground arith
  step-crashed (reads k x) sys bad = ground arith
  step-crashed resets_registrar sys bad = bad
  step-crashed stops_io sys bad = bad
