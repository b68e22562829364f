-- ===== src/HttpClient/Life.antt =====
-- The life of a Client of Depends/Asula/Include/Asula/HttpClient.hpp: its worker threads, send,
-- setTimeout and drop. A coroutine of doSend that was spawned is waiting until it has run, which is
-- one event that ends with its call of the handler. A send has a number, by which its end and the
-- calls of its handler are told.
pub mod Dropped
pub mod Once
use socker.Prelude.{
  ℕ, zero, suc, Bool, true, false, not, ◌&&◌, ◌||◌, Option, none, some, List, [], ◌∷◌, ◌++◌, map,
  if◌then◌else◌, ◌==◌, nat_eq, is_empty,
}
use socker.Text.{Text}
use socker.HttpClient.Request.{Request}
use socker.HttpClient.Sending.{Reply, Exchange, do_send}

-- a coroutine that was spawned, by the arguments of its send
pub record Waiting : Type 0 where
  pub number : ℕ
  pub verb : ℕ
  pub request : Request
  pub has_handler : Bool

-- `workers` has for each thread whether it can be joined; `stopped` is that of io_; `calls` has the
-- calls of the handlers, the first one first. `thrown` tells that a join threw, which ends the
-- program when the destructor makes it.
pub record Client : Type 0 where
  pub timeout : Option ℕ
  pub workers : List Bool
  pub stopped : Bool
  pub waiting : List Waiting
  pub calls : List (ℕ × Reply)
  pub thrown : Bool

abbrev pub threads : ℕ → List Bool
threads zero = []
threads (suc n) = true ∷ threads n

-- Client(threadCount, timeout)
unfoldable pub new_client : ℕ → Option ℕ → Client
new_client thread_count timeout = record {
  timeout = timeout;
  workers = threads thread_count;
  stopped = false;
  waiting = [];
  calls = [];
  thrown = false;
}

-- setTimeout(seconds)
unfoldable pub set_timeout : Option ℕ → Client → Client
set_timeout seconds c = record c { timeout = seconds }

-- send(verb, req, func)
unfoldable pub send : Waiting → Client → Client
send w c = record c { waiting = c.waiting ++ w ∷ [] }

-- The joins of the workers: what they leave, and whether one throws. A thread is joined once; the
-- join of one that cannot be joined throws, and those behind it are not reached.
unfoldable pub join_all : List Bool → List Bool × Bool
join_all [] = ([], false)
join_all (joinable ∷ ws) =
    let (left, thrown) = join_all ws in
    if joinable then (false ∷ left, thrown) else (false ∷ ws, true)

-- drop()
unfoldable pub drop : Client → Client
drop c =
    let (left, thrown) = join_all c.workers in
    record c { stopped = true; workers = left; thrown = c.thrown || thrown }

-- the first coroutine of a number, and the others
unfoldable pub take_number : ℕ → List Waiting → Option (Waiting × List Waiting)
take_number n [] = none
take_number n (w ∷ ws) =
    let rest = take_number n ws in
    if w.number == n then some (w, ws) else elim rest [ none ↦ none | some r ↦ some (r.0, w ∷ r.1) ]

-- what happens to a client
pub data Event : Type 0 where
  sends : Waiting → Event
  runs : (number : ℕ) → Exchange → Event
  sets_timeout : Option ℕ → Event
  drops : Event

module _ (user_agent : Text) (decimal : ℕ → Text) where
  -- the calls of the handler that a run of doSend makes
  abbrev pub calls_of : Option ℕ → Waiting → Exchange → List (ℕ × Reply)
  calls_of timeout w net =
      map (λ r. (w.number, r))
        (do_send timeout user_agent decimal w.has_handler w.verb w.request net).replies

  -- A coroutine runs, when a worker runs io_.
  unfoldable pub run_waiting : ℕ → Exchange → Client → Client
  run_waiting n net c =
      if c.stopped || is_empty c.workers then c else elim (take_number n c.waiting) [
        | none ↦ c
        | some (w, ws) ↦ record c { waiting = ws; calls = c.calls ++ calls_of c.timeout w net }
      ]

  unfoldable pub step : Client → Event → Client
  step c (sends w) = send w c
  step c (runs n net) = run_waiting n net c
  step c (sets_timeout seconds) = set_timeout seconds c
  step c drops = drop c

  unfoldable pub run : List Event → Client → Client
  run [] c = c
  run (e ∷ es) c = run es (step c e)
