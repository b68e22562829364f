-- ===== src/Http/Whole/Closing.antt =====
-- What a server with websockets does while its registrar is null, between the two statements of stop().
use socker.Prelude.{
  ℕ, ◌≡◌, ◌≢◌, ◌⊎◌, ◌↔◌, refl, ap, ◌∙◌, inl, inr, true, false, Option, none, some, List, [], ◌∷◌,
  nat_eq, All, Bool-cases, Option-cases, arith,
}
use socker.Text.{Text}
use socker.Assoc
use socker.Boost.{Boost}
use socker.Http.Beast.{Request, Beast}
use socker.Http.Registrar.{is_illegal}
use socker.Http.Session.{Wire}
use socker.Http.Server.{read_failed, received}
use socker.Http.System
use socker.Http.System.{
  System, Connection, Accept, accepted, accept_failed, needs_registrar, accept_one, read_one,
}
use socker.Http.System.Stop.{step-crashed}
use socker.Http.System.Closing.{
  IsClosing, accepts-IsClosing, dead-IsClosing, served-IsClosing, needy_crashed, step_reads,
  step_nobody, failed-IsClosing, needs_iff,
}
use socker.Http.Whole.{
  Whole, Event, connects, requests, upgrades, hears, delivers, resets, stops, is_down, no_upgrade,
  begin_upgrade, via, read_request, end_upgrade, step, run,
}
use socker.Http.Whole.Apart.{KeepsRunning}

module _ (boost : Boost) (beast : Beast) where
  -- a request that is no upgrade, with a known method and a legal target, on an open connection
  abbrev pub AsksRegistrar : Event → Whole → Type 0
  AsksRegistrar (requests k (some req)) w =
      (beast.is_upgrade req ≡ false)
      × (req.method ≢ 0)
      × (is_illegal req.target ≡ false)
      × ((wire : Wire) × (Assoc.get k w.system.connections
            ≡ some (record { wire = wire; alive = true })))
  AsksRegistrar _ w = ⊥

  -- one of the events is such a request when it happens
  abbrev pub Asks : List Event → Whole → Type 0
  Asks [] w = ⊥
  Asks (e ∷ es) w = AsksRegistrar e w ⊎ Asks es (step boost beast w e)

  -- the event uses the null registrar, or the server goes on
  abbrev Decides : Event → Whole → System → Type 0
  Decides e w new =
      (AsksRegistrar e w × (new.crashed ≡ true))
      ⊎ ((AsksRegistrar e w → ⊥) × IsClosing boost beast new)

  reads-Decides :
      (k : ℕ) (req : Request) (w : Whole)
      → beast.is_upgrade req ≡ false
      → IsClosing boost beast w.system
      → Decides
          (requests k (some req))
          w
          (System.step boost beast w.system (System.reads k (received req no_upgrade)))
  reads-Decides k req w down closing = elim (Option-cases (Assoc.get k w.system.connections)) [
    | inl nobody ↦
        rw (step_nobody boost beast k (received req no_upgrade) w.system closing nobody)
          (inr ((λ (a, b, c, there). absurd (cc there.1)), closing))
    | inr (c, found) ↦
        rw (step_reads boost beast k (received req no_upgrade) c w.system closing found)
          (elim (Bool-cases c.alive) [
            | inr dead ↦ inr (
              (λ (a, b, c', there). absurd (ground (arith, dead, found, there.1))),
              dead-IsClosing boost beast k (received req no_upgrade) c w.system dead closing,
            )
            | inl lives ↦
                elim (Bool-cases (needs_registrar boost beast (received req no_upgrade))) [
                  | inl needs ↦
                      let (known, legal) = (needs_iff boost beast req no_upgrade down).0 needs in
                      inl (
                        (down, known, legal, (c.wire, found ∙ ap some (same_connection c lives))),
                        needy_crashed boost beast k (received req no_upgrade) c w.system lives needs
                            closing,
                      )
                  | inr fine ↦ inr (
                    (λ (a, b, c', there).
                        absurd (cc ((needs_iff boost beast req no_upgrade down).1 (b, c')))),
                    served-IsClosing boost beast k (received req no_upgrade) c w.system fine
                        closing,
                  )
                ]
          ])
  ]
    where
      same_connection :
          (d : Connection) → d.alive ≡ true → d ≡ record { wire = d.wire; alive = true }
      same_connection d lives' = rw (← lives') refl

  begins-IsClosing :
      (k : ℕ) (req : Request) (c : Connection) (w : Whole)
      → IsClosing boost beast w.system
      → IsClosing boost beast (begin_upgrade k req c w).system
  unfolding begin_upgrade
  begins-IsClosing k req c w closing = ground arith

  up-IsClosing :
      (k : ℕ) (req : Request) (w : Whole)
      → beast.is_upgrade req ≡ true
      → IsClosing boost beast w.system
      → IsClosing boost beast (read_request boost beast k (some req) w).system
  unfolding read_request
  up-IsClosing k req w up closing = rw up (elim (Bool-cases (is_down w)) [
    | inl down ↦ rw down closing
    | inr on ↦ rw on (elim (Option-cases (Assoc.get k w.system.connections)) [
      | inl nobody ↦ rw nobody closing
      | inr (c, found) ↦ rw found (begins-IsClosing k req c w closing)
    ])
  ])

  plain_request :
      (k : ℕ) (req : Request) (w : Whole)
      → beast.is_upgrade req ≡ false
      → read_request boost beast k (some req) w
        ≡ via boost beast (System.reads k (received req no_upgrade)) w
  unfolding read_request
  plain_request k req w down = rw down refl

  request-Decides :
      (k : ℕ) (req : Request) (w : Whole)
      → IsClosing boost beast w.system
      → Decides (requests k (some req)) w (read_request boost beast k (some req) w).system
  request-Decides k req w closing = elim (Bool-cases (beast.is_upgrade req)) [
    | inl up ↦ inr ((λ asks. absurd (cc asks.0)), up-IsClosing k req w up closing)
    | inr down ↦ rw (plain_request k req w down) (reads-Decides k req w down closing)
  ]

  ends-IsClosing :
      (k : ℕ) (error : Option Text) (w : Whole)
      → IsClosing boost beast w.system
      → IsClosing boost beast (end_upgrade boost beast k error w).system
  unfolding end_upgrade
  ends-IsClosing k error w closing = ground arith

  step-Decides :
      (e : Event) (w : Whole)
      → KeepsRunning e
      → IsClosing boost beast w.system
      → Decides e w (step boost beast w e).system
  unfolding step read_request
  step-Decides (connects result outcomes) w keep closing =
      inr ((λ no. no), accepts-IsClosing boost beast result outcomes w.system closing)
  step-Decides (requests k none) w keep closing =
      inr ((λ no. no), failed-IsClosing boost beast k w.system closing)
  step-Decides (requests k (some req)) w keep closing = request-Decides k req w closing
  step-Decides (upgrades k error) w keep closing = elim (Bool-cases (is_down w)) [
    | inl down ↦ rw down (inr ((λ no. no), closing))
    | inr on ↦ rw on (inr ((λ no. no), ends-IsClosing k error w closing))
  ]
  step-Decides (hears k own_open result is_open) w keep closing = elim (Bool-cases (is_down w)) [
    | inl down ↦ rw down (inr ((λ no. no), closing))
    | inr on ↦ rw on (inr ((λ no. no), closing))
  ]
  step-Decides (delivers k error is_open) w keep closing = elim (Bool-cases (is_down w)) [
    | inl down ↦ rw down (inr ((λ no. no), closing))
    | inr on ↦ rw on (inr ((λ no. no), closing))
  ]
  step-Decides resets w keep closing = absurd keep
  step-Decides stops w keep closing = absurd keep

  down-crashed : (w : Whole) → w.system.crashed ≡ true → is_down w ≡ true
  down-crashed w bad = ground (arith, bad)

  up-crashed :
      (k : ℕ) (req : Request) (w : Whole)
      → w.system.crashed ≡ true
      → (read_request boost beast k (some req) w).system.crashed ≡ true
  unfolding read_request
  up-crashed k req w bad = elim (Bool-cases (beast.is_upgrade req)) [
    | inr down ↦
        rw down (step-crashed boost beast (System.reads k (received req no_upgrade)) w.system bad)
    | inl up ↦ rw up (rw (down-crashed w bad) bad)
  ]

  crash_stays :
      (e : Event) (w : Whole)
      → w.system.crashed ≡ true
      → (step boost beast w e).system.crashed ≡ true
  unfolding step read_request
  crash_stays (connects result outcomes) w bad =
      step-crashed boost beast (System.accepts result outcomes) w.system bad
  crash_stays (requests k none) w bad =
      step-crashed boost beast (System.reads k read_failed) w.system bad
  crash_stays (requests k (some req)) w bad = up-crashed k req w bad
  crash_stays (upgrades k error) w bad = rw (down-crashed w bad) bad
  crash_stays (hears k own_open result is_open) w bad = rw (down-crashed w bad) bad
  crash_stays (delivers k error is_open) w bad = rw (down-crashed w bad) bad
  crash_stays resets w bad = step-crashed boost beast System.resets_registrar w.system bad
  crash_stays stops w bad = step-crashed boost beast System.stops_io w.system bad

  run-stays :
      (es : List Event) (w : Whole)
      → w.system.crashed ≡ true
      → (run boost beast es w).system.crashed ≡ true
  unfolding run
  run-stays [] w bad = bad
  run-stays (e ∷ es) w bad = run-stays es (step boost beast w e) (crash_stays e w bad)

  -- While the registrar is null, a null pointer is used exactly if a request asks for the registrar.
  pub run-crashed :
      (es : List Event) (w : Whole)
      → All KeepsRunning es
      → IsClosing boost beast w.system
      → ((run boost beast es w).system.crashed ≡ true) ↔ Asks es w
  unfolding run
  run-crashed [] w keeps closing = ((λ bad. cc), (λ asks. absurd asks))
  run-crashed (e ∷ es) w (keep, keeps) closing = elim (step-Decides e w keep closing) [
    | inl (asks, bad) ↦ ((λ crashed. inl asks), (λ any. run-stays es (step boost beast w e) bad))
    | inr (quiet, still) ↦
        let later = run-crashed es (step boost beast w e) keeps still in
        (
          (λ crashed. inr (later.0 crashed)),
          (λ any. elim any [ inl asks ↦ absurd (quiet asks) | inr behind ↦ later.1 behind ]),
        )
  ]
