-- ===== src/Logger.antt =====
-- Depends/Logger: Src/Logger.cpp, and the macros of Include/Logger/Logger.h in a build without
-- DISABLE_LOGGER. spdlog is an interface with the laws that its documentation states. LOG_WARN, whose
-- expansion lacks a parenthesis, is no macro that code can use, and has no model.
pub mod Init
pub mod Sinks
use socker.Prelude.{
  ℕ, ◌≡◌, ◌≢◌, ◌+◌, ◌*◌, ◌%◌, ◌<◌, Bool, true, false, ◌&&◌, Option, none, some, List, [], ◌∷◌, ◌++◌,
  if◌then◌else◌, ◌==◌, nat_eq, ltb,
}
use socker.Text.{Text, bytes}

pub data Sink : Type 0 where
  -- stdout_color_sink_mt
  console : Sink
  -- rotating_file_sink_mt
  rotating_file : (path : Text) → (max_size max_files : ℕ) → (rotate_on_open : Bool) → Sink

-- What Logger uses of spdlog. A Registry is spdlog's state, and a Log a shared_ptr<logger>; levels
-- are numbers, from 0 for trace on.
pub record Spdlog : Type 1 where
  pub Registry : Type 0
  pub Log : Type 0
  pub name : Log → Text
  pub sinks : Log → List Sink
  pub level : Log → Registry → ℕ
  -- none for a null pointer
  pub get : Text → Registry → Option Log
  -- whether the sink's constructor returns
  pub opens : Sink → Bool
  pub init_thread_pool : (size threads : ℕ) → Registry → Registry
  -- a logger of these sinks, with its pattern set
  pub async_logger : Text → List Sink → Log
  -- none when it throws
  pub register_logger : Log → Registry → Option Registry
  pub set_default_logger : Log → Registry → Registry
  pub set_level : ℕ → Registry → Registry
  pub from_str : Text → ℕ
  pub flush_every : (seconds : ℕ) → Registry → Registry
  pub flush_on : (level : ℕ) → Registry → Registry
  pub shutdown : Registry → Registry
  pub async_logger-name : (n : Text) (ss : List Sink) → name (async_logger n ss) ≡ n
  pub async_logger-sinks : (n : Text) (ss : List Sink) → sinks (async_logger n ss) ≡ ss
  -- it throws only for a name that is taken
  pub register_logger_free :
      (l : Log) (r : Registry) → get (name l) r ≡ none → register_logger l r ≢ none
  pub get-set_default_logger :
      (l : Log) (r : Registry) → get (name l) (set_default_logger l r) ≡ some l
  pub get-init_thread_pool :
      (n : Text) (size threads : ℕ) (r : Registry)
      → get n (init_thread_pool size threads r) ≡ get n r
  pub get-set_level : (n : Text) (v : ℕ) (r : Registry) → get n (set_level v r) ≡ get n r
  pub get-flush_every : (n : Text) (t : ℕ) (r : Registry) → get n (flush_every t r) ≡ get n r
  pub get-flush_on : (n : Text) (v : ℕ) (r : Registry) → get n (flush_on v r) ≡ get n r
  pub get-shutdown : (n : Text) (r : Registry) → get n (shutdown r) ≡ none
  -- the level of every registered logger
  pub level-set_level :
      (n : Text) (l : Log) (v : ℕ) (r : Registry) → get n r ≡ some l → level l (set_level v r) ≡ v
  pub level-flush_every : (l : Log) (t : ℕ) (r : Registry) → level l (flush_every t r) ≡ level l r
  pub level-flush_on : (l : Log) (v : ℕ) (r : Registry) → level l (flush_on v r) ≡ level l r

-- fmt::format("./logs/{}_{}.log", name, ts)
abbrev pub log_path : (name ts : Text) → Text
log_path name ts = bytes "./logs/" ++ name ++ bytes "_" ++ ts ++ bytes ".log"

-- The sinks of a new logger. A mode is an int, as its 32 bits; ts is the time of the call.
unfoldable pub sinks_of : (name ts : Text) → (mode : ℕ) → List Sink
sinks_of name ts mode =
    (if ltb (mode % 8) 4 then console ∷ [] else [])
    ++ (if mode % 4 == 0
        then []
        else rotating_file (log_path name ts) (100 * 1024 * 1024) 10 (mode % 4 == 1) ∷ [])

module _ (spdlog : Spdlog) where
  -- logName_, and the state of spdlog
  pub record State : Type 0 where
    pub log_name : Text
    pub registry : spdlog.Registry

  -- Logger::logger()
  unfoldable pub logger : State → Option spdlog.Log
  logger s = spdlog.get s.log_name s.registry

  -- setLevel(level), on the state of spdlog
  unfoldable pub set_level : Text → spdlog.Registry → spdlog.Registry
  set_level level r = spdlog.set_level (spdlog.from_str level) r

  unfoldable pub all_open : List Sink → Bool
  all_open [] = true
  all_open (sink ∷ sinks) = spdlog.opens sink && all_open sinks

  -- the body of the try block behind its test: an exception leaves the state of spdlog as it is then
  unfoldable pub make_logger : (name level ts : Text) → ℕ → spdlog.Registry → spdlog.Registry
  make_logger name level ts mode registry =
      let pooled = spdlog.init_thread_pool (1024 * 9) 1 registry in
      let sinks = sinks_of name ts mode in
      let log = spdlog.async_logger name sinks in
      if all_open sinks
      then elim (spdlog.register_logger log pooled) [
        | none ↦ pooled
        | some r ↦
            spdlog.flush_on 2
              (spdlog.flush_every 1 (set_level level (spdlog.set_default_logger log r)))
      ]
      else pooled

  -- Logger::init(name, level, logFileMode)
  unfoldable pub init : (name level ts : Text) → (mode : ℕ) → State → State
  init name level ts mode s = record {
    log_name = name;
    registry = elim (spdlog.get name s.registry) [
      | none ↦ make_logger name level ts mode s.registry
      | some log ↦ s.registry
    ];
  }

  -- Logger::drop()
  unfoldable pub drop : State → State
  drop s = record s { registry = spdlog.shutdown s.registry }

-- the macros
pub data Macro : Type 0 where
  log_result : (ok : Bool) → Macro
  log_trace : Macro
  log_debug : Macro
  log_info : Macro
  log_fatal : Macro

-- the level that a line is logged at: LOG_TRACE is empty, since SPDLOG_ACTIVE_LEVEL is debug
unfoldable pub level_of : Macro → Option ℕ
level_of (log_result ok) = some (if ok then 2 else 4)
level_of log_trace = none
level_of log_debug = some 1
level_of log_info = some 2
level_of log_fatal = some 5

module _ (spdlog : Spdlog) where
  -- the logger that a use of the macro calls, and the level
  unfoldable pub log_line : Macro → State spdlog → Option (spdlog.Log × ℕ)
  log_line m s = elim (logger spdlog s) [
    | none ↦ none
    | some log ↦ elim (level_of m) [ none ↦ none | some level ↦ some (log, level) ]
  ]
