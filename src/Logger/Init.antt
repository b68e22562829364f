-- ===== src/Logger/Init.antt =====
-- What Logger::init leaves behind, on each of its ways.
use socker.Prelude.{
  ℕ, ◌≡◌, refl, sym, ap, ◌∙◌, ◌*◌, Bool, true, false, Option, none, some, List, inl, inr,
  Option-cases, Bool-cases,
}
use socker.Text.{Text}
use socker.Logger.{
  Sink, Spdlog, sinks_of, State, logger, set_level, all_open, make_logger, init, drop, Macro,
  level_of, log_line,
}

module _ (spdlog : Spdlog) where
  -- The default logger of this registry has the name, the sinks and the level.
  abbrev Made : Text → List Sink → ℕ → spdlog.Registry → Type 0
  Made name sinks v r =
      let log = spdlog.async_logger name sinks in
      (spdlog.get name r ≡ some log) × (spdlog.level log r ≡ v)

  finish-Made :
      (name level : Text) (sinks : List Sink) (r : spdlog.Registry)
      → Made name sinks (spdlog.from_str level) (
          spdlog.flush_on 2 (
            spdlog.flush_every 1 (
              set_level spdlog level
                (spdlog.set_default_logger (spdlog.async_logger name sinks) r))))
  unfolding set_level
  finish-Made name level sinks r =
      let log = spdlog.async_logger name sinks in
      let v = spdlog.from_str level in
      let r1 = spdlog.set_default_logger log r in
      let r2 = spdlog.set_level v r1 in
      let registered : spdlog.get name r1 ≡ some log =
        ap (λ n. spdlog.get n r1) (sym (spdlog.async_logger-name name sinks))
        ∙ spdlog.get-set_default_logger log r in
      (
        spdlog.get-flush_on name 2 (spdlog.flush_every 1 r2)
            ∙ spdlog.get-flush_every name 1 r2
            ∙ spdlog.get-set_level name v r1
            ∙ registered,
        spdlog.level-flush_on log 2 (spdlog.flush_every 1 r2)
            ∙ spdlog.level-flush_every log 1 r2
            ∙ spdlog.level-set_level name log v r1 registered,
      )

  pub make_logger-Made :
      (name level ts : Text) (mode : ℕ) (r : spdlog.Registry)
      → spdlog.get name r ≡ none
      → all_open spdlog (sinks_of name ts mode) ≡ true
      → Made name
          (sinks_of name ts mode)
          (spdlog.from_str level)
          (make_logger spdlog name level ts mode r)
  unfolding make_logger
  make_logger-Made name level ts mode r fresh opens =
      let sinks = sinks_of name ts mode in
      let log = spdlog.async_logger name sinks in
      let pooled = spdlog.init_thread_pool (1024 * 9) 1 r in
      elim (Option-cases (spdlog.register_logger log pooled)) [
        | inl throws ↦ absurd (
            spdlog.register_logger_free log pooled
              (ap (λ n. spdlog.get n pooled) (spdlog.async_logger-name name sinks)
                ∙ spdlog.get-init_thread_pool name (1024 * 9) 1 r
                ∙ fresh)
              throws)
        | inr (r', registered) ↦ rw opens (rw registered (finish-Made name level sinks r'))
      ]

  make_logger_throws :
      (name level ts : Text) (mode : ℕ) (r : spdlog.Registry)
      → all_open spdlog (sinks_of name ts mode) ≡ false
      → spdlog.get name (make_logger spdlog name level ts mode r) ≡ spdlog.get name r
  unfolding make_logger
  make_logger_throws name level ts mode r shut =
      rw shut (spdlog.get-init_thread_pool name (1024 * 9) 1 r)

  pub init-fresh :
      (name level ts : Text) (mode : ℕ) (s : State spdlog)
      → spdlog.get name s.registry ≡ none
      → init spdlog name level ts mode s
        ≡ record { log_name = name; registry = make_logger spdlog name level ts mode s.registry }
  unfolding init
  init-fresh name level ts mode s fresh = rw fresh refl

  init-taken :
      (name level ts : Text) (mode : ℕ) (log : spdlog.Log) (s : State spdlog)
      → spdlog.get name s.registry ≡ some log
      → init spdlog name level ts mode s ≡ record { log_name = name; registry = s.registry }
  unfolding init
  init-taken name level ts mode log s taken = rw taken refl

  -- the logger that init leaves for its name: the one there was, or the new one if its sinks open
  abbrev pub chosen : Option spdlog.Log → Bool → spdlog.Log → Option spdlog.Log
  chosen (some old) opens new = some old
  chosen none true new = some new
  chosen none false new = none

  pub logger-init_fresh :
      (name level ts : Text) (mode : ℕ) (s : State spdlog)
      → spdlog.get name s.registry ≡ none
      → logger spdlog (init spdlog name level ts mode s)
        ≡ chosen none
            (all_open spdlog (sinks_of name ts mode))
            (spdlog.async_logger name (sinks_of name ts mode))
  unfolding logger
  logger-init_fresh name level ts mode s fresh =
      rw (init-fresh name level ts mode s fresh)
        (elim (Bool-cases (all_open spdlog (sinks_of name ts mode))) [
          | inl opens ↦ rw opens (make_logger-Made name level ts mode s.registry fresh opens).0
          | inr shut ↦ rw shut (make_logger_throws name level ts mode s.registry shut ∙ fresh)
        ])

  pub logger-init_taken :
      (name level ts : Text) (mode : ℕ) (log : spdlog.Log) (s : State spdlog)
      → spdlog.get name s.registry ≡ some log
      → logger spdlog (init spdlog name level ts mode s) ≡ some log
  unfolding logger
  logger-init_taken name level ts mode log s taken =
      rw (init-taken name level ts mode log s taken) taken

  pub logger-drop : (s : State spdlog) → logger spdlog (drop spdlog s) ≡ none
  unfolding logger drop
  logger-drop s = spdlog.get-shutdown s.log_name s.registry

  log_line-logger :
      (m : Macro) (v : ℕ) (log : spdlog.Log) (s : State spdlog)
      → logger spdlog s ≡ some log
      → level_of m ≡ some v
      → log_line spdlog m s ≡ some (log, v)
  unfolding log_line
  log_line-logger m v log s found named = rw (found, log_line) (rw named refl)

  -- When the name is free and the sinks open, init makes a logger of the sinks that the mode asks
  -- for, at the level of its argument; every macro but LOG_TRACE logs to it, and a second call with
  -- any level and mode changes nothing.
  pub log_line-init :
      (name level ts : Text) (mode v : ℕ) (m : Macro) (level' ts' : Text) (mode' : ℕ)
      (s : State spdlog)
      → spdlog.get name s.registry ≡ none
      → all_open spdlog (sinks_of name ts mode) ≡ true
      → level_of m ≡ some v
      → let log = spdlog.async_logger name (sinks_of name ts mode) in
        (log_line spdlog m (init spdlog name level ts mode s) ≡ some (log, v))
        × (spdlog.sinks log ≡ sinks_of name ts mode)
        × (spdlog.level log (init spdlog name level ts mode s).registry ≡ spdlog.from_str level)
        × (init spdlog name level' ts' mode' (init spdlog name level ts mode s)
            ≡ init spdlog name level ts mode s)
  log_line-init name level ts mode v m level' ts' mode' s fresh opens named =
      let (found, leveled) = make_logger-Made name level ts mode s.registry fresh opens in
      let log = spdlog.async_logger name (sinks_of name ts mode) in
      let made = init-fresh name level ts mode s fresh in
      (
        log_line-logger m v log _
            (logger-init_fresh name level ts mode s fresh ∙ ap (λ b. chosen none b log) opens)
            named,
        spdlog.async_logger-sinks name _,
        rw made leveled,
        rw made (init-taken name level' ts' mode' log _ found),
      )
