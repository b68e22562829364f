-- ===== src/Tests/Lives.antt =====
-- Tests of the coroutines of a websocket client and of an HTTP client, and of the logger.
use socker.Prelude.{
  ℕ, ◌+◌, ◌*◌, ◌-◌, ◌≡◌, refl, true, false, Option, none, some, List, [], ◌∷◌, ◌==◌, nat_eq, ◌≢◌,
  if◌then◌else◌,
}
use socker.Assoc
use socker.Assoc.{Assoc, get-put_self}
use socker.Text.{Text, bytes, text_eq}
use socker.WebSocketClient as Ws
use socker.WebSocketClient.Draining.{begins_in, reads_in, on_message-drains}
use socker.HttpClient.Life.{Waiting, sends, runs, new_client, drop, run}
use socker.HttpClient.Life.Once.{called, waiting_in, sent, calls-once}
use socker.HttpClient.Life.Dropped.{drop-drop}
use socker.Logger.{
  Sink, console, rotating_file, Spdlog, State, sinks_of, logger, init, all_open, log_info, level_of,
  log_line,
}
use socker.Logger as Logger
use socker.Logger.Sinks.{Left, wanted, no_file, logger-init}
use socker.Tests.Network.{request, exchange}

-- two coroutines, one of which has begun
abbrev client : Ws.Client
client = record Ws.new_client { starting = 1; waiting = 1; handler = some 4 }

abbrev ends : List Ws.Event
ends = Ws.begins ∷ Ws.reads (some (bytes "x")) ∷ []

on_message-drains_example :
    ((Ws.run (λ t. some 80) ends (Ws.on_message none client)).starting
      ≡ client.starting - begins_in ends)
    × ((Ws.run (λ t. some 80) ends (Ws.on_message none client)).waiting
        ≡ client.waiting - reads_in ends)
on_message-drains_example = on_message-drains (λ t. some 80) ends client (tt, (tt, tt))

abbrev get_page : Waiting
get_page = record { number = 7; verb = 2; request = request; has_handler = true }

calls-once_example :
    called 7
        (run
          (bytes "Beast")
          (λ n. [])
          (sends get_page ∷ runs 7 exchange ∷ [])
          (new_client 1 none)).calls
      + waiting_in 7
          (run
            (bytes "Beast")
            (λ n. [])
            (sends get_page ∷ runs 7 exchange ∷ [])
            (new_client 1 none)).waiting
    ≡ sent 7 (sends get_page ∷ runs 7 exchange ∷ [])
calls-once_example =
    calls-once (bytes "Beast") (λ n. []) 7 1 none (sends get_page ∷ runs 7 exchange ∷ [])

drop-drop_example :
    ((drop (run (bytes "Beast") (λ n. []) (sends get_page ∷ []) (new_client 1 none))).thrown
      ≡ false)
    × ((run
          (bytes "Beast")
          (λ n. [])
          (runs 7 exchange ∷ [])
          (drop (run (bytes "Beast") (λ n. []) (sends get_page ∷ []) (new_client 1 none)))).calls
        ≡ (run (bytes "Beast") (λ n. []) (sends get_page ∷ []) (new_client 1 none)).calls)
    × ((drop
          (drop (run (bytes "Beast") (λ n. []) (sends get_page ∷ []) (new_client 1 none)))).thrown
        ≡ true)
drop-drop_example =
    drop-drop (bytes "Beast") (λ n. []) 0 none (sends get_page ∷ []) (runs 7 exchange ∷ []) (tt, tt)

-- spdlog as its loggers by name, and one level for all
record Loggers : Type 0 where
  by_name : Assoc Text (Text × List Sink)
  level : ℕ

abbrev registered : Text × List Sink → Loggers → Option Loggers
registered l r = elim (Assoc.get l.0 r.by_name) [
  | none ↦ some (record r { by_name = Assoc.put l.0 l r.by_name })
  | some old ↦ none
]

free_name :
    (l : Text × List Sink) (r : Loggers) → Assoc.get l.0 r.by_name ≡ none → registered l r ≢ none
free_name l r free e = cc (rw (free, registered) at e)

no_loggers : (n : Text) → Assoc.get {V = Text × List Sink} n [] ≡ none
unfolding Assoc.get
no_loggers n = refl

abbrev spdlog : Spdlog
spdlog = record {
  Registry = Loggers;
  Log = Text × List Sink;
  name = λ l. l.0;
  sinks = λ l. l.1;
  level = λ l r. r.level;
  get = λ n r. Assoc.get n r.by_name;
  opens = λ s. elim s [ console ↦ true | rotating_file path max_size max_files rotate ↦ false ];
  init_thread_pool = λ size threads r. r;
  async_logger = λ n ss. (n, ss);
  register_logger = registered;
  set_default_logger = λ l r. record r { by_name = Assoc.put l.0 l r.by_name };
  set_level = λ v r. record r { level = v };
  from_str = λ t. if t == bytes "info" then 2 else 6;
  flush_every = λ seconds r. r;
  flush_on = λ v r. r;
  shutdown = λ r. record r { by_name = [] };
  async_logger-name = λ n ss. refl;
  async_logger-sinks = λ n ss. refl;
  register_logger_free = λ l r free. free_name l r free;
  get-set_default_logger = λ l r. get-put_self l.0 l r.by_name;
  get-init_thread_pool = λ n size threads r. refl;
  get-set_level = λ n v r. refl;
  get-flush_every = λ n t r. refl;
  get-flush_on = λ n v r. refl;
  get-shutdown = λ n r. no_loggers n;
  level-set_level = λ n l v r has. refl;
  level-flush_every = λ l t r. refl;
  level-flush_on = λ l v r. refl;
}

abbrev silent : State spdlog
silent = record { log_name = []; registry = record { by_name = []; level = 0 } }

logger-init_example :
    Left spdlog
      (bytes "a")
      (bytes "info")
      (bytes "1")
      (wanted (bytes "a") (bytes "1") true no_file)
      silent
      (init spdlog (bytes "a") (bytes "info") (bytes "1") (8 * 1 + 4 + 0) silent)
    × (logger spdlog (
          Logger.drop spdlog
            (init spdlog (bytes "a") (bytes "info") (bytes "1") (8 * 1 + 4 + 0) silent))
        ≡ none)
logger-init_example =
    logger-init spdlog (bytes "a") (bytes "info") (bytes "1") true no_file 1 silent
