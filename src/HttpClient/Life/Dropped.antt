-- ===== src/HttpClient/Life/Dropped.antt =====
-- A client after drop.
use socker.Prelude.{
  ℕ, zero, suc, ◌≡◌, refl, ◌∙◌, true, false, Option, List, [], ◌∷◌, nat_eq, arith, All,
}
use socker.Text.{Text}
use socker.HttpClient.Life.{
  Client, new_client, set_timeout, threads, send, join_all, drop, run_waiting, Event, sends, runs,
  sets_timeout, drops, step, run,
}

-- the event is no drop
abbrev pub IsNoDrop : Event → Type 0
IsNoDrop drops = ⊥
IsNoDrop _ = Unit

join_all-threads : (n : ℕ) → (join_all (threads n)).1 ≡ false
unfolding join_all
join_all-threads zero = refl
join_all-threads (suc n) = join_all-threads n

module _ (user_agent : Text) (decimal : ℕ → Text) where
  step-stopped :
      (e : Event) (c : Client)
      → c.stopped ≡ true
      → ((step user_agent decimal c e).stopped ≡ true)
        × ((step user_agent decimal c e).calls ≡ c.calls)
  unfolding step send set_timeout drop run_waiting
  step-stopped (sends w) c h = (h, refl)
  step-stopped (runs k net) c h = ground arith
  step-stopped (sets_timeout seconds) c h = (h, refl)
  step-stopped drops c h = (refl, refl)

  run-stopped :
      (es : List Event) (c : Client)
      → c.stopped ≡ true
      → (run user_agent decimal es c).calls ≡ c.calls
  unfolding run
  run-stopped [] c h = refl
  run-stopped (e ∷ es) c h =
      let (still, same) = step-stopped e c h in
      run-stopped es (step user_agent decimal c e) still ∙ same

  step-undropped :
      (e : Event) (c : Client)
      → IsNoDrop e
      → ((step user_agent decimal c e).workers ≡ c.workers)
        × ((step user_agent decimal c e).thrown ≡ c.thrown)
  unfolding step send set_timeout run_waiting
  step-undropped (sends w) c h = (refl, refl)
  step-undropped (runs k net) c h = ground arith
  step-undropped (sets_timeout seconds) c h = (refl, refl)
  step-undropped drops c h = absurd h

  run-undropped :
      (es : List Event) (c : Client)
      → All IsNoDrop es
      → ((run user_agent decimal es c).workers ≡ c.workers)
        × ((run user_agent decimal es c).thrown ≡ c.thrown)
  unfolding run
  run-undropped [] c h = (refl, refl)
  run-undropped (e ∷ es) c (h, hs) =
      let (workers, thrown) = step-undropped e c h in
      let (all_workers, all_thrown) = run-undropped es (step user_agent decimal c e) hs in
      (all_workers ∙ workers, all_thrown ∙ thrown)

  drop-twice :
      (n : ℕ) (c : Client)
      → c.workers ≡ threads (suc n)
      → c.thrown ≡ false
      → ((drop c).thrown ≡ false) × ((drop (drop c)).thrown ≡ true)
  unfolding drop join_all
  drop-twice n c ws ok = rw ws (rw ok (ground (arith, join_all-threads n)))

  drop-stopped : (c : Client) → ((drop c).stopped ≡ true) × ((drop c).calls ≡ c.calls)
  unfolding drop
  drop-stopped c = (refl, refl)

  -- Let a client be made with at least one thread, and let anything but a drop happen to it. Then a
  -- drop does not throw, and after it no handler is called any more, whatever happens, not even
  -- those of the sends that still wait. A second drop, as the one that the destructor makes after a
  -- call of drop, throws.
  pub drop-drop :
      (thread_count : ℕ) (timeout : Option ℕ) (before later : List Event)
      → All IsNoDrop before
      → let c = run user_agent decimal before (new_client (suc thread_count) timeout) in
        ((drop c).thrown ≡ false)
        × ((run user_agent decimal later (drop c)).calls ≡ c.calls)
        × ((drop (drop c)).thrown ≡ true)
  unfolding new_client
  drop-drop thread_count timeout before later h =
      let c = run user_agent decimal before (new_client (suc thread_count) timeout) in
      let (workers, thrown) = run-undropped before (new_client (suc thread_count) timeout) h in
      let (ok, twice) = drop-twice thread_count c workers thrown in
      let (stopped, same) = drop-stopped c in (ok, run-stopped later (drop c) stopped ∙ same, twice)
