-- ===== src/Http/Whole/Stop.antt =====
-- What stop() does to a running server with websockets.
use socker.Prelude.{
  ℕ, ◌<◌, ◌≡◌, sym, append-nil, append_assoc, ◌↔◌, refl, ap, ◌∙◌, inl, inr, true, false, Option,
  none, some, List, [], ◌∷◌, ◌++◌, nat_eq, All, Bool-cases,
}
use socker.Boost.{Boost}
use socker.Http.Beast.{Request, Beast}
use socker.Http.Server.{Server, read_failed, received}
use socker.Http.System
use socker.Http.System.{
  System, Connection, Accept, accepted, accept_failed, Acceptor, is_listening, needs_registrar,
  accept_one, read_one,
}
use socker.Http.System.Stop.{Stopped, step-Stopped}
use socker.Http.Whole.{
  Whole, Event, connects, requests, upgrades, hears, delivers, resets, stops, begin, stop, is_down,
  no_upgrade, via, read_request, step, run,
}
use socker.Http.System.Closing.{IsClosing}
use socker.Http.Whole.Closing.{Asks, run-crashed}
use socker.Http.Whole.Talks.{run-IsUp, begin-IsUp}
use socker.Http.Whole.Plain.{bare_server}
use socker.Http.Whole.Apart.{KeepsRunning}

module _ (boost : Boost) (beast : Beast) where
  -- once io_ is stopped nothing is sent, no connection changes, and no null pointer is used
  abbrev Silent : Whole → Whole → Type 0
  Silent new old = (new.sent ≡ old.sent) × Stopped boost beast new.system old.system

  via-Silent :
      (e : System.Event) (w : Whole) → w.system.running ≡ false → Silent (via boost beast e w) w
  via-Silent e w stopped = (refl, step-Stopped boost beast e w.system stopped)

  is_down-stopped : (w : Whole) → w.system.running ≡ false → is_down w ≡ true
  is_down-stopped w stopped = rw stopped refl

  read_request-Silent :
      (k : ℕ) (request : Option Request) (w : Whole)
      → w.system.running ≡ false
      → Silent (read_request boost beast k request w) w
  unfolding read_request
  read_request-Silent k none w stopped = via-Silent (System.reads k read_failed) w stopped
  read_request-Silent k (some req) w stopped = elim (Bool-cases (beast.is_upgrade req)) [
    | inr down ↦ rw down (via-Silent (System.reads k (received req no_upgrade)) w stopped)
    | inl up ↦ rw up (rw (is_down-stopped w stopped) (refl, (refl, refl, stopped)))
  ]

  step-Silent : (e : Event) (w : Whole) → w.system.running ≡ false → Silent (step boost beast w e) w
  unfolding step
  step-Silent (connects result outcomes) w stopped =
      via-Silent (System.accepts result outcomes) w stopped
  step-Silent (requests k request) w stopped = read_request-Silent k request w stopped
  step-Silent (upgrades k error) w stopped =
      rw (is_down-stopped w stopped) (refl, (refl, refl, stopped))
  step-Silent (hears k own_open result is_open) w stopped =
      rw (is_down-stopped w stopped) (refl, (refl, refl, stopped))
  step-Silent (delivers k error is_open) w stopped =
      rw (is_down-stopped w stopped) (refl, (refl, refl, stopped))
  step-Silent resets w stopped = via-Silent System.resets_registrar w stopped
  step-Silent stops w stopped = via-Silent System.stops_io w stopped

  run-Silent :
      (es : List Event) (w : Whole) → w.system.running ≡ false → Silent (run boost beast es w) w
  unfolding run
  run-Silent [] w stopped = (refl, (refl, refl, stopped))
  run-Silent (e ∷ es) w stopped =
      let (same, (crash, table, still)) = step-Silent e w stopped in
      let (sames, (crashes, tables, stills)) = run-Silent es (step boost beast w e) still in
      (sames ∙ same, (crashes ∙ crash, tables ∙ table, stills))

  pub run-append :
      (before later : List Event) (w : Whole)
      → run boost beast (before ++ later) w ≡ run boost beast later (run boost beast before w)
  unfolding run
  run-append [] later w = refl
  run-append (e ∷ es) later w = run-append es later (step boost beast w e)

  -- a run through stop() and the events behind it
  run_to_the_end :
      (between after : List Event) (w : Whole)
      → run boost beast (stop between ++ after) w
        ≡ run boost beast (stops ∷ after) (run boost beast between (step boost beast w resets))
  unfolding stop run
  run_to_the_end between after w =
      ap (λ es. run boost beast es (step boost beast w resets))
        (append_assoc between (stops ∷ []) after)
      ∙ run-append between (stops ∷ after) (step boost beast w resets)

  ends_silent :
      (after : List Event) (w : Whole)
      → let v = run boost beast (stops ∷ after) w in
        (v.sent ≡ w.sent)
        × (v.system.crashed ≡ w.system.crashed)
        × (v.system.connections ≡ w.system.connections)
  unfolding run step System.step
  ends_silent after w =
      let (same, (crash, table, still)) =
        run-Silent after (record w { system = record w.system { running = false } }) refl in
      (same, crash, table)

  resets-IsClosing :
      (w : Whole)
      → w.system.running ≡ true
      → w.system.crashed ≡ false
      → IsClosing boost beast (step boost beast w resets).system
  unfolding step System.step
  resets-IsClosing w on fine = (on, refl, fine)

  -- Let a server with threads be started, its acceptor be set up without an error, and any events but
  -- those of stop() happen, those of websockets included. No null pointer was used. Let stop() run,
  -- with any events between its two statements, and any events behind it. A null pointer is used
  -- exactly if one of the events between is a request that is no upgrade, has a known method and a
  -- legal target, and comes on a connection that is open then. What was sent to websockets when stop()
  -- returns, and what was written on the connections, is all that ever is.
  pub run-stop :
      (server : Server) (acceptor : Acceptor) (port : Option ℕ) (before between after : List Event)
      → is_listening acceptor ≡ true
      → 0 < server.thread_count
      → All KeepsRunning before
      → All KeepsRunning between
      → let w = run boost beast before (begin acceptor port server) in
        let stopped = run boost beast (stop between) w in
        let v = run boost beast (stop between ++ after) w in
        (w.system.crashed ≡ false)
        × ((v.system.crashed ≡ true) ↔ Asks boost beast between (step boost beast w resets))
        × (v.sent ≡ stopped.sent)
        × (v.system.connections ≡ stopped.system.connections)
  run-stop server acceptor port before between after on_air threads keep keeps =
      let w = run boost beast before (begin acceptor port server) in
      let (on, reg, fine, listens, same) =
        run-IsUp boost beast (bare_server server) before (begin acceptor port server) keep
          (begin-IsUp boost beast acceptor port server on_air threads) in
      let u = run boost beast between (step boost beast w resets) in
      let closing = resets-IsClosing w on fine in
      let (sent, crash, table) = ends_silent after u in
      let (sent', crash', table') = ends_silent [] u in
      let whole = run_to_the_end between after w in
      let first =
        ap (λ es. run boost beast es w) (sym (append-nil (stop between)))
        ∙ run_to_the_end between [] w in
      (
        fine,
        (rw whole
            (rw crash (run-crashed boost beast between (step boost beast w resets) keeps closing))),
        ap (λ x. x.sent) whole ∙ sent ∙ sym (ap (λ x. x.sent) first ∙ sent'),
        ap (λ x. x.system.connections) whole
            ∙ table
            ∙ sym (ap (λ x. x.system.connections) first ∙ table'),
      )
