-- ===== src/Http/System/Live.antt =====
-- A server that runs, with the hooks that it was started with; no event but those of stop() ends that.
use socker.Prelude.{
  ℕ, ◌<◌, ◌≡◌, refl, inl, inr, true, false, Option, none, some, List, [], ◌∷◌, ◌++◌, arith, nat_eq,
  Option-cases, All,
}
use socker.Text.{Text}
use socker.Assoc
use socker.Assoc.{Assoc, get-put, get-put_self}
use socker.Boost.{Boost}
use socker.Http.Beast.{Beast}
use socker.Http.Server.{Server, Incoming, listen_port}
use socker.Http.System.{
  Connection, System, Acceptor, is_listening, start, accepted, accept_failed, Event, accepts, reads,
  resets_registrar, stops_io, accept_one, read_one, step, run,
}
use socker.Http.System.Rounds.{SameHooks, serve_one-SameHooks}

-- the event is no part of stop()
abbrev pub KeepsRunning : Event → Type 0
KeepsRunning resets_registrar = ⊥
KeepsRunning stops_io = ⊥
KeepsRunning _ = Unit

module _ (boost : Boost) (beast : Beast) (server : Server) where
  -- the server runs, with the hooks that it was started with
  abbrev pub IsLive : System → Type 0
  IsLive sys =
      (sys.running ≡ true)
      × (sys.registered ≡ true)
      × (sys.crashed ≡ false)
      × (sys.listening ≡ true)
      × SameHooks sys.server server

  accept_one-IsLive :
      (j : ℕ) (outcomes : List (Option Text)) (sys : System)
      → IsLive sys
      → IsLive (accept_one boost beast j outcomes sys)
  unfolding accept_one
  accept_one-IsLive j outcomes sys live = ground arith

  read_one-IsLive :
      (j : ℕ) (x : Incoming) (c : Connection) (sys : System)
      → IsLive sys
      → IsLive (read_one boost beast j x c sys)
  unfolding read_one
  read_one-IsLive j x c sys live =
      ground (arith, serve_one-SameHooks boost beast sys.server c.wire x)

  pub step-IsLive :
      (e : Event) (sys : System) → KeepsRunning e → IsLive sys → IsLive (step boost beast sys e)
  unfolding step
  step-IsLive (accepts (accept_failed e) outcomes) sys keep live = ground arith
  step-IsLive (accepts (accepted j) outcomes) sys keep live =
      ground (arith, accept_one-IsLive j outcomes sys live)
  step-IsLive (reads j x) sys keep live = elim (Option-cases (Assoc.get j sys.connections)) [
    | inl none' ↦ ground (arith, none')
    | inr (c, found) ↦ ground (arith, found, read_one-IsLive j x c sys live)
  ]
  step-IsLive resets_registrar sys keep live = absurd keep
  step-IsLive stops_io sys keep live = absurd keep

  pub step-accepts :
      (j : ℕ) (outcomes : List (Option Text)) (sys : System)
      → IsLive sys
      → step boost beast sys (accepts (accepted j) outcomes) ≡ accept_one boost beast j outcomes sys
  unfolding step
  step-accepts j outcomes sys live = ground arith

  pub step-accept_failed :
      (e : Text) (outcomes : List (Option Text)) (sys : System)
      → IsLive sys
      → step boost beast sys (accepts (accept_failed e) outcomes) ≡ sys
  unfolding step
  step-accept_failed e outcomes sys live = ground arith

  pub step-reads :
      (j : ℕ) (x : Incoming) (c : Connection) (sys : System)
      → IsLive sys
      → Assoc.get j sys.connections ≡ some c
      → step boost beast sys (reads j x) ≡ read_one boost beast j x c sys
  unfolding step
  step-reads j x c sys live found = ground (arith, found)

  pub step-reads_nobody :
      (j : ℕ) (x : Incoming) (sys : System)
      → IsLive sys
      → Assoc.get j sys.connections ≡ none
      → step boost beast sys (reads j x) ≡ sys
  unfolding step
  step-reads_nobody j x sys live nobody = ground (arith, nobody)

  pub run-IsLive :
      (es : List Event) (sys : System)
      → All KeepsRunning es
      → IsLive sys
      → IsLive (run boost beast es sys)
  unfolding run
  run-IsLive [] sys keep live = live
  run-IsLive (e ∷ es) sys (keep, keeps) live = run-IsLive es _ keeps (step-IsLive e sys keep live)

  pub run-append :
      (before later : List Event) (sys : System)
      → run boost beast (before ++ later) sys ≡ run boost beast later (run boost beast before sys)
  unfolding run
  run-append [] later sys = refl
  run-append (e ∷ es) later sys = run-append es later _

  listen_port-SameHooks : (port : Option ℕ) → SameHooks (listen_port port server) server
  unfolding listen_port
  listen_port-SameHooks none = (refl, refl)
  listen_port-SameHooks (some p) = ground arith

  start-thread_count :
      (port : Option ℕ) → (listen_port port server).thread_count ≡ server.thread_count
  unfolding listen_port
  start-thread_count none = refl
  start-thread_count (some p) = ground arith

  pub start-IsLive :
      (acceptor : Acceptor) (port : Option ℕ)
      → is_listening acceptor ≡ true
      → 0 < server.thread_count
      → IsLive (start acceptor port server)
  unfolding start
  start-IsLive acceptor port listening threads =
      (ground (arith, start-thread_count port), refl, refl, listening, listen_port-SameHooks port)
