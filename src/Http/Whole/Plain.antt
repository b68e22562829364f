-- ===== src/Http/Whole/Plain.antt =====
-- The connections of a running server, without its websockets.
use socker.Prelude.{
  ℕ, ◌≡◌, refl, ap, inl, inr, true, false, not, ◌&&◌, ◌||◌, Option, none, some, List, [], ◌∷◌, ◌∙◌,
  ◌++◌, sym, if◌then◌else◌, nat_eq, Bool-cases, Option-cases,
}
use socker.Text.{Text}
use socker.Assoc
use socker.Boost.{Boost}
use socker.Http.Beast.{Request, Beast}
use socker.Http.Session.{Wire}
use socker.Http.Server.{Server, Incoming, read_failed, received}
use socker.Http.Group.{handle}
use socker.Http.System
use socker.Http.System.{
  System, Connection, Accept, accepted, accept_failed, needs_registrar, serve_one, accept_one,
  read_one,
}
use socker.Http.System.Live.{run-append}
use socker.Http.System.Rounds.{process_request-same}
use socker.Http.Whole.{
  Whole, Event, connects, requests, upgrades, hears, delivers, resets, stops, is_down, no_upgrade,
  begin_upgrade, read_request, end_upgrade, step, run,
}

-- what the event is for the server without its websockets
unfoldable pub plain : Event → List System.Event
plain (connects result outcomes) = System.accepts result outcomes ∷ []
plain (requests socket none) = System.reads socket read_failed ∷ []
plain (requests socket (some req)) = System.reads socket (received req no_upgrade) ∷ []
plain resets = System.resets_registrar ∷ []
plain stops = System.stops_io ∷ []
plain _ = []

unfoldable pub plains : List Event → List System.Event
plains [] = []
plains (e ∷ es) = plain e ++ plains es

abbrev pub bare_server : Server → Server
bare_server s = record s { clients = [] }

abbrev pub bare : System → System
bare sys = record sys { server = bare_server sys.server }

-- reads that change no clients
abbrev IsPlain : Incoming → Type 0
IsPlain read_failed = Unit
IsPlain (received req u) = u ≡ no_upgrade

module _ (boost : Boost) (beast : Beast) where
  serve_one-bare :
      (s : Server) (wire : Wire) (x : Incoming)
      → IsPlain x
      → serve_one boost beast (bare_server s) wire x
        ≡ (let (after, w, alive) = serve_one boost beast s wire x in (bare_server after, w, alive))
  unfolding serve_one handle
  serve_one-bare s wire read_failed p = refl
  serve_one-bare s wire (received req u) p = rw p (elim (Bool-cases (beast.is_upgrade req)) [
    | inl up ↦ rw up refl
    | inr down ↦
        rw down (rw (process_request-same boost beast (bare_server s) s req wire (refl, refl)) refl)
  ])

  read_one-bare :
      (k : ℕ) (x : Incoming) (c : Connection) (sys : System)
      → IsPlain x
      → bare (read_one boost beast k x c sys) ≡ read_one boost beast k x c (bare sys)
  unfolding read_one
  read_one-bare k x c sys p = elim (Bool-cases c.alive) [
    | inr dead ↦ rw dead refl
    | inl lives ↦
        rw lives (elim (Bool-cases (not sys.registered && needs_registrar boost beast x)) [
          | inl crash ↦ rw crash refl
          | inr fine ↦ rw fine (rw (serve_one-bare sys.server c.wire x p) refl)
        ])
  ]

  step_reads-bare :
      (k : ℕ) (x : Incoming) (sys : System)
      → IsPlain x
      → bare (System.step boost beast sys (System.reads k x))
        ≡ System.step boost beast (bare sys) (System.reads k x)
  unfolding System.step
  step_reads-bare k x sys p = elim (Bool-cases (not sys.running || sys.crashed)) [
    | inl down ↦ rw down refl
    | inr up ↦ rw up (elim (Option-cases (Assoc.get k sys.connections)) [
      | inl nobody ↦ rw nobody refl
      | inr (c, found) ↦ rw found (read_one-bare k x c sys p)
    ])
  ]

  accept_one-bare :
      (k : ℕ) (outcomes : List (Option Text)) (sys : System)
      → bare (accept_one boost beast k outcomes sys) ≡ accept_one boost beast k outcomes (bare sys)
  unfolding accept_one
  accept_one-bare k outcomes sys = elim (Option-cases (Assoc.get k sys.connections)) [
    | inl nobody ↦ rw (nobody, accept_one) refl
    | inr (c, found) ↦ rw (found, accept_one) refl
  ]

  step_accepts-bare :
      (result : Accept) (outcomes : List (Option Text)) (sys : System)
      → bare (System.step boost beast sys (System.accepts result outcomes))
        ≡ System.step boost beast (bare sys) (System.accepts result outcomes)
  unfolding System.step
  step_accepts-bare (accept_failed e) outcomes sys =
      elim (Bool-cases (not sys.running || sys.crashed || not sys.listening)) [
        | inl down ↦ rw down refl
        | inr up ↦ rw up refl
      ]
  step_accepts-bare (accepted k) outcomes sys =
      elim (Bool-cases (not sys.running || sys.crashed || not sys.listening)) [
        | inl down ↦ rw down refl
        | inr up ↦ rw up (accept_one-bare k outcomes sys)
      ]

  -- the start of a websocket, for the connections
  begin_upgrade-bare :
      (k : ℕ) (req : Request) (c : Connection) (w : Whole)
      → beast.is_upgrade req ≡ true
      → bare (begin_upgrade k req c w).system
        ≡ read_one boost beast k (received req no_upgrade) c (bare w.system)
  unfolding begin_upgrade read_one needs_registrar serve_one handle
  begin_upgrade-bare k req c w up = elim (Bool-cases c.alive) [
    | inr dead ↦ rw dead refl
    | inl lives ↦
        rw lives
          (rw up (elim (Bool-cases w.system.registered) [ inl a ↦ rw a refl | inr b ↦ rw b refl ]))
  ]

  abbrev ReadsAs : (k : ℕ) (req : Request) (w : Whole) → Type 0
  ReadsAs k req w =
      bare (read_request boost beast k (some req) w).system
      ≡ System.step boost beast (bare w.system) (System.reads k (received req no_upgrade))

  upgrade-bare : (k : ℕ) (req : Request) (w : Whole) → beast.is_upgrade req ≡ true → ReadsAs k req w
  unfolding read_request System.step
  upgrade-bare k req w up = rw up (elim (Bool-cases (is_down w)) [
    | inl down ↦ rw down refl
    | inr on ↦ rw on (elim (Option-cases (Assoc.get k w.system.connections)) [
      | inl nobody ↦ rw nobody refl
      | inr (c, found) ↦ rw found (begin_upgrade-bare k req c w up)
    ])
  ])

  request-bare :
      (k : ℕ) (req : Request) (w : Whole) → beast.is_upgrade req ≡ false → ReadsAs k req w
  unfolding read_request
  request-bare k req w plain_ =
      rw plain_ (step_reads-bare k (received req no_upgrade) w.system refl)

  end_upgrade-bare :
      (k : ℕ) (error : Option Text) (w : Whole)
      → bare (end_upgrade boost beast k error w).system ≡ bare w.system
  unfolding end_upgrade
  end_upgrade-bare k none w = elim (Option-cases (Assoc.get k w.upgrades)) [
    | inl nobody ↦ rw (nobody, end_upgrade) refl
    | inr (target, found) ↦ rw (found, end_upgrade) refl
  ]
  end_upgrade-bare k (some e) w = elim (Option-cases (Assoc.get k w.upgrades)) [
    | inl nobody ↦ rw (nobody, end_upgrade) refl
    | inr (target, found) ↦ rw (found, end_upgrade) refl
  ]

  unless_down :
      (w v : Whole)
      → bare v.system ≡ bare w.system
      → bare (if is_down w then w else v).system ≡ bare w.system
  unless_down w v same = elim (Bool-cases (is_down w)) [
    | inl down ↦ rw down refl
    | inr up ↦ rw up same
  ]

  failed_read-bare :
      (k : ℕ) (w : Whole)
      → bare (read_request boost beast k none w).system
        ≡ System.step boost beast (bare w.system) (System.reads k read_failed)
  unfolding read_request
  failed_read-bare k w = step_reads-bare k read_failed w.system tt

  resets-bare :
      (sys : System)
      → bare (System.step boost beast sys System.resets_registrar)
        ≡ System.step boost beast (bare sys) System.resets_registrar
  unfolding System.step
  resets-bare sys = refl

  stops-bare :
      (sys : System)
      → bare (System.step boost beast sys System.stops_io)
        ≡ System.step boost beast (bare sys) System.stops_io
  unfolding System.step
  stops-bare sys = refl

  run-nil : (sys : System) → System.run boost beast [] sys ≡ sys
  unfolding System.run
  run-nil sys = refl

  pub step-plain :
      (e : Event) (w : Whole)
      → bare (step boost beast w e).system ≡ System.run boost beast (plain e) (bare w.system)
  unfolding step plain System.run
  step-plain (connects result outcomes) w = step_accepts-bare result outcomes w.system
  step-plain (requests k none) w = failed_read-bare k w
  step-plain (requests k (some req)) w = elim (Bool-cases (beast.is_upgrade req)) [
    | inl up ↦ upgrade-bare k req w up
    | inr down ↦ request-bare k req w down
  ]
  step-plain (upgrades k error) w = unless_down w _ (end_upgrade-bare k error w)
  step-plain (hears k own_open result is_open) w = unless_down w _ refl
  step-plain (delivers k error is_open) w = unless_down w _ refl
  step-plain resets w = resets-bare w.system
  step-plain stops w = stops-bare w.system

  -- The connections of a running server are those of a server without websockets.
  pub run-plains :
      (es : List Event) (w : Whole)
      → bare (run boost beast es w).system ≡ System.run boost beast (plains es) (bare w.system)
  unfolding run plains
  run-plains [] w = sym (run-nil (bare w.system))
  run-plains (e ∷ es) w =
      run-plains es (step boost beast w e)
      ∙ ap (System.run boost beast (plains es)) (step-plain e w)
      ∙ sym (run-append boost beast w.system.server (plain e) (plains es) (bare w.system))
