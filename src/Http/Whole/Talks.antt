-- ===== src/Http/Whole/Talks.antt =====
-- The websockets of a running server are conversations of Group/Writes.
use socker.Prelude.{
  ℕ, ◌<◌, ◌≡◌, refl, sym, ap, ◌∙◌, inl, inr, true, false, Option, none, some, List, [], ◌∷◌, ◌++◌,
  nat_eq, All, Bool-cases, Option-cases,
}
use mathlib.Core.Path.{subst}
use socker.Text.{Text}
use socker.Assoc
use socker.Boost.{Boost}
use socker.Http.Beast.{Request, Beast}
use socker.Http.Server.{Server, read_failed, received}
use socker.Http.Group.Writes
use socker.Http.Group.Writes.{Floor}
use socker.Http.Group.Writes.Runs
use socker.Http.System
use socker.Http.System.{Acceptor, is_listening, Connection}
use socker.Http.System.Live.{IsLive, run-IsLive, start-IsLive}
use socker.Http.Whole.{
  Whole, Event, connects, requests, upgrades, hears, delivers, resets, stops, floor_of, begin,
  is_down, no_upgrade, begin_upgrade, via, read_request, end_upgrade, step, run,
}
use socker.Http.Whole.Plain.{plain, bare_server, bare, step-plain}
use socker.Http.Whole.Apart.{KeepsRunning, plain-KeepsRunning, start-bare}
use socker.Http.Whole.Ended.{IsHttp, step-server}

-- the accept of a websocket, by the target that its connection waits with
abbrev pub accept_events : ℕ → Option Text → Option Text → List Writes.Event
accept_events socket error none = []
accept_events socket error (some target) = Writes.accepts socket target error ∷ []

-- what an event is for the conversations
abbrev pub talk_events : Whole → Event → List Writes.Event
talk_events w (upgrades socket error) = accept_events socket error (Assoc.get socket w.upgrades)
talk_events w (hears socket own_open result is_open) =
    Writes.reads socket own_open result is_open ∷ []
talk_events w (delivers socket error is_open) = Writes.writes socket error is_open ∷ []
talk_events w _ = []

module _ (boost : Boost) (beast : Beast) where
  -- what the events of a run are for them
  unfoldable pub talks : Whole → List Event → List Writes.Event
  talks w [] = []
  talks w (e ∷ es) = talk_events w e ++ talks (step boost beast w e) es

  abbrev floor_after : Whole → List Writes.Event → Floor
  floor_after w es = Writes.run boost es (floor_of w)

  via-floor :
      (e : System.Event) (w : Whole)
      → IsHttp boost beast e
      → floor_of (via boost beast e w) ≡ floor_of w
  via-floor e w http = rw (step-server boost beast e w.system http) refl

  begins-floor :
      (k : ℕ) (req : Request) (c : Connection) (w : Whole)
      → floor_of (begin_upgrade k req c w) ≡ floor_of w
  unfolding begin_upgrade
  begins-floor k req c w = elim (Bool-cases c.alive) [
    | inl lives ↦ rw lives refl
    | inr dead ↦ rw dead refl
  ]

  request-floor :
      (k : ℕ) (request : Option Request) (w : Whole)
      → floor_of (read_request boost beast k request w) ≡ floor_of w
  unfolding read_request
  request-floor k none w = via-floor (System.reads k read_failed) w tt
  request-floor k (some req) w = elim (Bool-cases (beast.is_upgrade req)) [
    | inr down ↦ rw down (via-floor (System.reads k (received req no_upgrade)) w down)
    | inl up ↦ rw up (elim (Bool-cases (is_down w)) [
      | inl down ↦ rw down refl
      | inr on ↦ rw on (elim (Option-cases (Assoc.get k w.system.connections)) [
        | inl nobody ↦ rw nobody refl
        | inr (c, found) ↦ rw found (begins-floor k req c w)
      ])
    ])
  ]

  upgrade-floor :
      (k : ℕ) (error : Option Text) (w : Whole)
      → floor_of (end_upgrade boost beast k error w)
        ≡ floor_after w (accept_events k error (Assoc.get k w.upgrades))
  unfolding end_upgrade Writes.run Writes.step
  upgrade-floor k none w = elim (Option-cases (Assoc.get k w.upgrades)) [
    | inl nobody ↦ rw (nobody, end_upgrade) refl
    | inr (target, found) ↦ rw (found, end_upgrade) refl
  ]
  upgrade-floor k (some e) w = elim (Option-cases (Assoc.get k w.upgrades)) [
    | inl nobody ↦ rw (nobody, end_upgrade) refl
    | inr (target, found) ↦ rw (found, end_upgrade) refl
  ]

  step-floor :
      (e : Event) (w : Whole)
      → KeepsRunning e
      → is_down w ≡ false
      → floor_of (step boost beast w e) ≡ floor_after w (talk_events w e)
  unfolding step Writes.run
  step-floor (connects result outcomes) w keep up = via-floor (System.accepts result outcomes) w tt
  step-floor (requests k request) w keep up = request-floor k request w
  step-floor (upgrades k error) w keep up = rw up (upgrade-floor k error w)
  step-floor (hears k own_open result is_open) w keep up = rw up refl
  step-floor (delivers k error is_open) w keep up = rw up refl
  step-floor resets w keep up = absurd keep
  step-floor stops w keep up = absurd keep

  module _ (server : Server) where
    -- the server runs, with the hooks that it was started with
    abbrev pub IsUp : Whole → Type 0
    IsUp w = IsLive boost beast server (bare w.system)

    IsUp-down : (w : Whole) → IsUp w → is_down w ≡ false
    IsUp-down w (running, registered, fine, listening, same) = rw (running, fine) refl

    step-IsUp : (e : Event) (w : Whole) → KeepsRunning e → IsUp w → IsUp (step boost beast w e)
    step-IsUp e w keep up =
        subst (IsLive boost beast server) (sym (step-plain boost beast e w))
          (run-IsLive boost beast server (plain e) (bare w.system) (plain-KeepsRunning e keep) up)

    pub run-IsUp :
        (es : List Event) (w : Whole) → All KeepsRunning es → IsUp w → IsUp (run boost beast es w)
    unfolding run
    run-IsUp [] w keeps up = up
    run-IsUp (e ∷ es) w (keep, keeps) up =
        run-IsUp es (step boost beast w e) keeps (step-IsUp e w keep up)

    -- Over any events of a server that runs, but those of stop(), its websockets do what the
    -- conversations do over theirs of these events.
    pub run-talks :
        (es : List Event) (w : Whole)
        → All KeepsRunning es
        → IsUp w
        → floor_of (run boost beast es w) ≡ Writes.run boost (talks w es) (floor_of w)
    unfolding run talks
    run-talks [] w keeps up = sym (Runs.run-none boost (floor_of w))
    run-talks (e ∷ es) w (keep, keeps) up =
        run-talks es (step boost beast w e) keeps (step-IsUp e w keep up)
        ∙ ap (Writes.run boost (talks (step boost beast w e) es))
            (step-floor e w keep (IsUp-down w up))
        ∙ sym
            (Runs.run-append boost (talk_events w e) (talks (step boost beast w e) es) (floor_of w))

  pub begin-IsUp :
      (acceptor : Acceptor) (port : Option ℕ) (server : Server)
      → is_listening acceptor ≡ true
      → 0 < server.thread_count
      → IsUp (bare_server server) (begin acceptor port server)
  begin-IsUp acceptor port server on threads =
      subst (IsLive boost beast (bare_server server)) (sym (start-bare acceptor port server))
        (start-IsLive boost beast (bare_server server) acceptor port on threads)
