-- ===== src/Multicast.antt =====
-- Depends/Asula/Include/Asula/MulticastReceiver.hpp. How the calls of the network end is an argument,
-- and so is the address that IpUtil guesses. A message handler is a number. Assertions are compiled
-- out, and a message handler throws nothing but exceptions derived from std::exception.
pub mod Restart
pub mod Life
pub mod Counting
use socker.Prelude.{
  ℕ, suc, ◌%◌, ◌^◌, ◌≡◌, Bool, true, false, not, ◌&&◌, ◌||◌, Option, none, some, List, [], ◌∷◌,
  ◌++◌, if◌then◌else◌, ltb, leb, is_empty,
}
use socker.Text.{Text}

-- err_: empty, or which of the messages stands there
pub data Error : Type 0 where
  no_error invalid_handler invalid_settings duplicate_open : Error
  join_failed run_failed : Text → Error

-- `msg_count` are the bits of an atomic<int>,
-- `running` is whether io_ was not stopped, `joinable` is about worker_, and `receiving` tells
-- whether async_receive_from is pending. `handled` has the calls of handlers, the first one first.
pub record MulticastReceiver : Type 0 where
  pub running : Bool
  pub is_open : Bool
  pub joinable : Bool
  pub receiving : Bool
  pub local_ip : Text
  pub dest_ip : Text
  pub port : ℕ
  pub handler : Option ℕ
  pub msg_count : ℕ
  pub err : Error
  pub handled : List (ℕ × Text)

-- error()
abbrev pub error : MulticastReceiver → Error
error r = r.err

-- MulticastReceiver(localIp, destIp, port, handler)
abbrev pub new_receiver : Text → Text → ℕ → Option ℕ → MulticastReceiver
new_receiver local_ip dest_ip port handler = record {
  running = true;
  is_open = false;
  joinable = false;
  receiving = false;
  local_ip = local_ip;
  dest_ip = dest_ip;
  port = port % 2 ^ 16;
  handler = handler;
  msg_count = 0;
  err = no_error;
  handled = [];
}

-- MulticastReceiver()
abbrev pub default_receiver : MulticastReceiver
default_receiver = new_receiver [] [] 0 none

unfoldable pub set_local_ip : Text → MulticastReceiver → MulticastReceiver
set_local_ip ip r = record r { local_ip = ip }

unfoldable pub set_dest_ip : Text → MulticastReceiver → MulticastReceiver
set_dest_ip ip r = record r { dest_ip = ip }

-- setPort(port): an int by its two's complement, of which port_ keeps sixteen bits
unfoldable pub set_port : ℕ → MulticastReceiver → MulticastReceiver
set_port port r = record r { port = port % 2 ^ 16 }

unfoldable pub set_message_handler : Option ℕ → MulticastReceiver → MulticastReceiver
set_message_handler handler r = record r { handler = handler }

-- How the calls in the try block of start end: all well, or a system_error before the socket was
-- opened or behind that, with its what().
pub data Setup : Type 0 where
  joined : Setup
  failed_before_open failed_after_open : Text → Setup

abbrev pub has_handler : MulticastReceiver → Bool
has_handler r = elim r.handler [ none ↦ false | some h ↦ true ]

-- the try block of start: `guessed` is what IpUtil::getSpeculativeIpV4 returns. The body of the
-- worker that it begins is do_receive, for each receive that ends, and worker_fails.
unfoldable pub join_group : (guessed : Text) → Setup → MulticastReceiver → MulticastReceiver × Bool
join_group guessed setup r =
    let r' : MulticastReceiver = record r {
      local_ip = (if is_empty r.local_ip then guessed else r.local_ip);
    } in
    elim setup [
      | joined ↦ (record r' { is_open = true; joinable = true; receiving = true }, true)
      | failed_before_open what ↦ (record r' { err = join_failed what }, false)
      | failed_after_open what ↦ (record r' { is_open = true; err = join_failed what }, false)
    ]

-- start()
unfoldable pub start : (guessed : Text) → Setup → MulticastReceiver → MulticastReceiver × Bool
start guessed setup r =
    let r' : MulticastReceiver = record r { err = no_error } in
    if not (has_handler r)
    then (record r { err = invalid_handler }, false)
    else if is_empty r.dest_ip || leb r.port 0
    then (record r { err = invalid_settings }, false)
    else if r.is_open
    then (record r { err = duplicate_open }, false)
    else join_group guessed setup r'

-- stop()
unfoldable pub stop : MulticastReceiver → MulticastReceiver
stop r =
    let r' : MulticastReceiver = record r { err = no_error } in
    if not r.running then r' else record r' { running = false; joinable = false }

-- ~MulticastReceiver(): the members after its stop(), and whether worker_ is joinable when it is
-- destroyed, which ends the program
unfoldable pub destroy : MulticastReceiver → MulticastReceiver × Bool
unfolding stop
destroy r = let r' : MulticastReceiver = stop r in (r', r'.joinable)

abbrev pub is_running : MulticastReceiver → Bool
is_running r = r.running

-- How a receive ends: with an error, or with a message, and then how the handler that is called
-- with it ends, by a return or by an exception with its what().
pub data Received : Type 0 where
  receive_failed : Received
  received : (message : Text) → (thrown : Option Text) → Received

-- the catch block of the worker: io_.run() was left by an exception, and the worker ends, while io_ is
-- not stopped
unfoldable pub worker_fails : Text → MulticastReceiver → MulticastReceiver
worker_fails what r = record r { err = run_failed what }

-- The pending receive ends. After an exception of the handler no other receive is begun.
unfoldable pub do_receive : Received → MulticastReceiver → MulticastReceiver
do_receive result r = if not (r.running && r.joinable && r.receiving) then r else elim result [
  | receive_failed ↦ record r { receiving = false }
  | received message thrown ↦ elim r.handler [
    | none ↦ record r { receiving = false }
    | some h ↦
        let called : MulticastReceiver = record r { handled = r.handled ++ (h, message) ∷ [] } in
        elim thrown [
          | some what ↦ worker_fails what (record called { receiving = false })
          | none ↦ record called { msg_count = suc r.msg_count % 2 ^ 32 }
        ]
  ]
]

-- the receives that end one after the other
unfoldable pub receive_all : List Received → MulticastReceiver → MulticastReceiver
receive_all [] r = r
receive_all (x ∷ xs) r = receive_all xs (do_receive x r)

-- what happens to a receiver: its calls, and the ends of its receives
pub data Event : Type 0 where
  sets_local_ip sets_dest_ip : Text → Event
  sets_port : ℕ → Event
  sets_handler : Option ℕ → Event
  starts : (guessed : Text) → Setup → Event
  stops : Event
  receives : Received → Event

unfoldable pub step : MulticastReceiver → Event → MulticastReceiver
step r (sets_local_ip ip) = set_local_ip ip r
step r (sets_dest_ip ip) = set_dest_ip ip r
step r (sets_port port) = set_port port r
step r (sets_handler h) = set_message_handler h r
step r (starts guessed setup) = (start guessed setup r).0
step r stops = stop r
step r (receives x) = do_receive x r

unfoldable pub run : List Event → MulticastReceiver → MulticastReceiver
run [] r = r
run (e ∷ es) r = run es (step r e)
