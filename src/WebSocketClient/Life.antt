-- ===== src/WebSocketClient/Life.antt =====
-- The threads of a Client of Depends/Asula/Include/Asula/WebSocketClient.hpp, from its constructor to
-- its destructor. A coroutine goes on only while a thread runs io_. A send or a close is spawned as a
-- coroutine, which is one event when it runs.
use socker.Prelude.{
  ℕ, ◌≡◌, refl, ◌∙◌, Bool, true, false, not, ◌||◌, Option, List, [], ◌∷◌, ◌++◌, arith,
  if◌then◌else◌, ltb,
}
use socker.Text.{Text}
use socker.WebSocketClient.{
  Client, new_client, Opening, open_url, on_message, do_send, do_close, begin_receive, end_read,
  stop_receiver, start_receiver,
}

-- A client, the threads that run io_, and whether io_ was stopped; `spawned` are the coroutines of
-- send and close that have not run, the first one first.
pub data Spawned : Type 0 where
  sending : Text → Spawned
  closing : Spawned

pub record Life : Type 0 where
  pub client : Client
  pub workers : ℕ
  pub stopped : Bool
  pub spawned : List Spawned

-- Client(threadCount)
unfoldable pub construct : ℕ → Life
construct thread_count = record {
  client = new_client;
  workers = thread_count;
  stopped = false;
  spawned = [];
}

-- ~Client()
unfoldable pub destroy : Life → Life
destroy l = record l { client = stop_receiver l.client; stopped = true; workers = 0 }

-- what happens in a life: calls, and coroutines that go on
pub data Event : Type 0 where
  opens : Text → Opening → Event
  sets_handler : Option ℕ → Event
  sends : Text → Event
  closes : Event
  -- the first coroutine of send and close runs, with what is_open returns after a close
  runs : (is_open_after : Bool) → Event
  begins : Event
  reads : Option Text → Event

-- a coroutine of send or close runs
unfoldable pub run_spawned : Bool → List Spawned → Life → Life
run_spawned after [] l = l
run_spawned after (sending message ∷ ws) l = record l {
  client = do_send message l.client;
  spawned = ws;
}
run_spawned after (closing ∷ ws) l = record l { client = do_close after l.client; spawned = ws }

-- no thread runs io_
abbrev pub is_idle : Life → Bool
is_idle l = l.stopped || not (ltb 0 l.workers)

unfoldable pub step : (Text → Option ℕ) → Life → Event → Life
step cast l (opens url net) = record l { client = (open_url cast url net l.client).0 }
step cast l (sets_handler h) = record l { client = on_message h l.client }
step cast l (sends message) = record l { spawned = l.spawned ++ sending message ∷ [] }
step cast l closes = record l { spawned = l.spawned ++ closing ∷ [] }
step cast l (runs after) = if is_idle l then l else run_spawned after l.spawned l
step cast l begins = if is_idle l then l else record l { client = begin_receive l.client }
step cast l (reads result) = if is_idle l then l else record l { client = end_read result l.client }

unfoldable pub run : (Text → Option ℕ) → List Event → Life → Life
run cast [] l = l
run cast (e ∷ es) l = run cast es (step cast l e)

-- what a client shows to others: what it wrote and which handlers it called
abbrev pub SameTraffic : Life → Life → Type 0
SameTraffic new old =
    (new.client.written ≡ old.client.written) × (new.client.handled ≡ old.client.handled)

open_url-traffic :
    (cast : Text → Option ℕ) (url : Text) (net : Opening) (c : Client)
    → ((open_url cast url net c).0.written ≡ c.written)
      × ((open_url cast url net c).0.handled ≡ c.handled)
unfolding open_url
open_url-traffic cast url net c = ground arith

on_message-traffic :
    (h : Option ℕ) (c : Client)
    → ((on_message h c).written ≡ c.written) × ((on_message h c).handled ≡ c.handled)
unfolding on_message start_receiver stop_receiver
on_message-traffic h c = ground arith

module _ (cast : Text → Option ℕ) where
  step-idle :
      (e : Event) (l : Life)
      → is_idle l ≡ true
      → (is_idle (step cast l e) ≡ true) × SameTraffic (step cast l e) l
  unfolding step
  step-idle (opens url net) l idle = (idle, open_url-traffic cast url net l.client)
  step-idle (sets_handler h) l idle = (idle, on_message-traffic h l.client)
  step-idle (sends message) l idle = (idle, (refl, refl))
  step-idle closes l idle = (idle, (refl, refl))
  step-idle (runs after) l idle = rw idle (idle, (refl, refl))
  step-idle begins l idle = rw idle (idle, (refl, refl))
  step-idle (reads result) l idle = rw idle (idle, (refl, refl))

  run-idle : (es : List Event) (l : Life) → is_idle l ≡ true → SameTraffic (run cast es l) l
  unfolding run
  run-idle [] l idle = (refl, refl)
  run-idle (e ∷ es) l idle =
      let (still, (wrote, handled)) = step-idle e l idle in
      let (writes, calls) = run-idle es (step cast l e) still in (writes ∙ wrote, calls ∙ handled)

  destroy-idle : (l : Life) → (is_idle (destroy l) ≡ true) × SameTraffic (destroy l) l
  unfolding destroy stop_receiver
  destroy-idle l = (refl, (refl, refl))

  -- Once a client is destroyed nothing more is written and no handler is called, whatever it was
  -- asked before; and neither ever is for a client that is made with no threads.
  pub run-silent :
      (l : Life) (es : List Event)
      → SameTraffic (run cast es (destroy l)) l
        × SameTraffic (run cast es (construct 0)) (construct 0)
  unfolding construct
  run-silent l es =
      let (idle, (wrote, handled)) = destroy-idle l in
      let (writes, calls) = run-idle es (destroy l) idle in
      ((writes ∙ wrote, calls ∙ handled), run-idle es (construct 0) refl)
