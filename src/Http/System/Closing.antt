-- ===== src/Http/System/Closing.antt =====
-- What the events of the connections do while the registrar is null.
use socker.Prelude.{
  ℕ, ◌≡◌, ◌≢◌, ◌↔◌, refl, inl, inr, true, false, not, ◌||◌, Option, none, some, List, nat_eq,
  Option-cases, arith,
}
use socker.Text.{Text}
use socker.Assoc
use socker.Boost.{Boost}
use socker.Http.Beast.{Request, Beast}
use socker.Http.Registrar.{is_illegal}
use socker.Http.Server.{Incoming, Upgrade, read_failed, received}
use socker.Http.System.{
  System, Connection, Accept, accepted, accept_failed, accepts, reads, needs_registrar, accept_one,
  read_one, step,
}

module _ (boost : Boost) (beast : Beast) where
  -- the server runs, its registrar is null, and no null pointer was used
  abbrev pub IsClosing : System → Type 0
  IsClosing sys = (sys.running ≡ true) × (sys.registered ≡ false) × (sys.crashed ≡ false)

  pub accepts-IsClosing :
      (result : Accept) (outcomes : List (Option Text)) (sys : System)
      → IsClosing sys
      → IsClosing (step boost beast sys (accepts result outcomes))
  unfolding step accept_one
  accepts-IsClosing (accept_failed e) outcomes sys closing = ground arith
  accepts-IsClosing (accepted k) outcomes sys closing = ground arith

  pub dead-IsClosing :
      (k : ℕ) (x : Incoming) (c : Connection) (sys : System)
      → c.alive ≡ false
      → IsClosing sys
      → IsClosing (read_one boost beast k x c sys)
  unfolding read_one
  dead-IsClosing k x c sys dead closing = rw dead closing

  pub served-IsClosing :
      (k : ℕ) (x : Incoming) (c : Connection) (sys : System)
      → needs_registrar boost beast x ≡ false
      → IsClosing sys
      → IsClosing (read_one boost beast k x c sys)
  unfolding read_one
  served-IsClosing k x c sys fine closing = ground (arith, fine, closing)

  pub needy_crashed :
      (k : ℕ) (x : Incoming) (c : Connection) (sys : System)
      → c.alive ≡ true
      → needs_registrar boost beast x ≡ true
      → IsClosing sys
      → (read_one boost beast k x c sys).crashed ≡ true
  unfolding read_one
  needy_crashed k x c sys lives needs closing = ground (arith, lives, needs, closing)

  pub step_reads :
      (k : ℕ) (x : Incoming) (c : Connection) (sys : System)
      → IsClosing sys
      → Assoc.get k sys.connections ≡ some c
      → step boost beast sys (reads k x) ≡ read_one boost beast k x c sys
  unfolding step
  step_reads k x c sys (on, gone, fine) found =
      let up : (not sys.running || sys.crashed) ≡ false = ground (arith, on, fine) in
      rw (up, step) (rw (found, step) refl)

  pub step_nobody :
      (k : ℕ) (x : Incoming) (sys : System)
      → IsClosing sys
      → Assoc.get k sys.connections ≡ none
      → step boost beast sys (reads k x) ≡ sys
  unfolding step
  step_nobody k x sys (on, gone, fine) nobody =
      let up : (not sys.running || sys.crashed) ≡ false = ground (arith, on, fine) in
      rw (up, step) (rw (nobody, step) refl)

  pub failed-IsClosing :
      (k : ℕ) (sys : System)
      → IsClosing sys
      → IsClosing (step boost beast sys (reads k read_failed))
  unfolding needs_registrar
  failed-IsClosing k sys closing = elim (Option-cases (Assoc.get k sys.connections)) [
    | inl nobody ↦ rw (step_nobody k read_failed sys closing nobody) closing
    | inr (c, found) ↦
        rw (step_reads k read_failed c sys closing found)
          (served-IsClosing k read_failed c sys refl closing)
  ]

  pub needs_iff :
      (req : Request) (u : Upgrade)
      → beast.is_upgrade req ≡ false
      → (needs_registrar boost beast (received req u) ≡ true)
        ↔ ((req.method ≢ 0) × (is_illegal req.target ≡ false))
  unfolding needs_registrar
  needs_iff req u down = ground (arith, down)
