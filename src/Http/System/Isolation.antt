-- ===== src/Http/System/Isolation.antt =====
-- A connection is served as if it was alone.
use socker.Prelude.{
  ℕ, ◌<◌, ◌≡◌, refl, sym, ap, inl, inr, Bool, true, Option, none, some, List, [], ◌∷◌, ◌++◌, ◌==◌,
  nat_eq, Bool-cases, All,
}
use mathlib.Core.List.{foldl}
use mathlib.Core.Option
use socker.Text.{Text}
use socker.Assoc
use socker.Assoc.{Assoc, get-put, get-put_self}
use socker.Boost.{Boost}
use socker.Http.Beast.{Beast}
use socker.Http.Session.{Wire}
use socker.Http.Server.{Server, do_connection}
use socker.Http.System.{
  System, Acceptor, is_listening, start, accepted, new_wire, Event, accepts, reads,
  resets_registrar, stops_io, step, run,
}
use socker.Http.System.Live.{
  KeepsRunning, IsLive, step-IsLive, run-IsLive, run-append, start-IsLive,
}
use socker.Http.System.Rounds.{round, serve_connection-rounds}
use socker.Http.System.Single.{reads_of, At, step-At, new-At}

module _ (boost : Boost) (beast : Beast) (server : Server) where
  reads_of-nil : (k : ℕ) → reads_of k [] ≡ []
  unfolding reads_of
  reads_of-nil k = refl

  reads_of-cons :
      (k : ℕ) (e : Event) (es : List Event) (w : Wire × Bool)
      → foldl (round boost beast server) w (reads_of k (e ∷ es))
        ≡ foldl
            (round boost beast server)
            (foldl (round boost beast server) w (reads_of k (e ∷ [])))
            (reads_of k es)
  unfolding reads_of
  reads_of-cons k (accepts result outcomes) es w = refl
  reads_of-cons k (reads j x) es w = elim (Bool-cases (j == k)) [
    | inl self ↦ rw self refl
    | inr other ↦ rw other refl
  ]
  reads_of-cons k resets_registrar es w = refl
  reads_of-cons k stops_io es w = refl

  run-At :
      (k : ℕ) (es : List Event) (sys : System) (w : Wire × Bool)
      → All KeepsRunning es
      → IsLive boost beast server sys
      → At boost beast server k sys w
      → At boost beast server k
          (run boost beast es sys)
          (foldl (round boost beast server) w (reads_of k es))
  unfolding run
  run-At k [] sys w keep live at_k = rw (reads_of-nil k) at_k
  run-At k (e ∷ es) sys w (keep, keeps) live at_k = rw (reads_of-cons k e es w) (
      run-At k es (step boost beast sys e) _ keeps (step-IsLive boost beast server e sys keep live)
        (step-At boost beast server k e sys w keep live at_k))

  run-accepted :
      (acceptor : Acceptor) (port : Option ℕ) (k : ℕ) (outcomes : List (Option Text))
      (before later : List Event)
      → is_listening acceptor ≡ true
      → 0 < server.thread_count
      → All KeepsRunning before
      → All KeepsRunning later
      → Assoc.get k (run boost beast before (start acceptor port server)).connections ≡ none
      → At boost beast server k
          (run boost beast
            (before ++ accepts (accepted k) outcomes ∷ later)
            (start acceptor port server))
          (foldl (round boost beast server) (new_wire outcomes, true) (reads_of k later))
  unfolding run
  run-accepted acceptor port k outcomes before later on threads keep keeps fresh =
      let live =
        run-IsLive boost beast server before _ keep
          (start-IsLive boost beast server acceptor port on threads) in
      rw
        (run-append boost beast server before (accepts (accepted k) outcomes ∷ later)
          (start acceptor port server))
        (run-At k later _ _ keeps
          (step-IsLive boost beast server (accepts (accepted k) outcomes) _ tt live)
          (new-At boost beast server k outcomes _ live fresh))

  -- Let a server with threads be started, its acceptor be set up without an error, and let a
  -- connection k be accepted, for the first time, with any
  -- events of accepts and reads before and after that. What is written on k is what doConnection,
  -- run alone on a server with the hooks and the directory that were there at the start, writes
  -- for the reads of k after its accept: it depends neither on the other connections nor on the
  -- order in which the events of the connections come.
  pub run-alone :
      (acceptor : Acceptor) (port : Option ℕ) (k : ℕ) (outcomes : List (Option Text))
      (before later : List Event)
      → is_listening acceptor ≡ true
      → 0 < server.thread_count
      → All KeepsRunning before
      → All KeepsRunning later
      → Assoc.get k (run boost beast before (start acceptor port server)).connections ≡ none
      → Option.map
          (λ c. c.wire)
          (Assoc.get k
            (run boost beast
              (before ++ accepts (accepted k) outcomes ∷ later)
              (start acceptor port server)).connections)
        ≡ some (do_connection boost beast (reads_of k later) server outcomes).wire
  unfolding do_connection
  run-alone acceptor port k outcomes before later on threads keep keeps fresh =
      rw (run-accepted acceptor port k outcomes before later on threads keep keeps fresh) (
        ap some
          (sym (serve_connection-rounds boost beast server (reads_of k later) (new_wire outcomes))))
