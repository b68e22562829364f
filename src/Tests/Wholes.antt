-- ===== src/Tests/Wholes.antt =====
-- Tests of a running server with websockets.
use socker.Prelude.{
  ℕ, ◌≡◌, ◌≢◌, ◌↔◌, inl, inr, refl, true, false, none, some, List, [], ◌∷◌, ◌++◌, arith, nat_eq,
  Has,
}
use mathlib.Core.Option
use socker.Assoc
use socker.Assoc.{get, put}
use socker.Boost.Reference.{reference}
use socker.Text.{bytes, text_eq, text_beq, tolower, find, is_prefix}
use socker.Http.Beast.{Request, Beast}
use socker.Http.Server.{Server, listen_port, do_connection}
use socker.Http.Group.{Delivered, message, join, erase_all, to_multicast}
use socker.Http.Group.Writes
use socker.Http.Group.Writes.{
  Talker, Floor, reading, writing, empty_floor, resume, advance, finish_multicast, after_read,
  read_ends, write_ends,
}
use socker.Http.Registrar.{is_illegal, no_hooks, emplace}
use socker.Http.System.{
  Acceptor, is_listening, accepted, new_wire, needs_registrar, start, accept_one,
}
use socker.Http.System
use socker.Http.System.Single.{reads_of}
use socker.Http.Whole.{
  Whole, stop, Event, connects, requests, upgrades, hears, delivers, resets, begin, begin_upgrade,
  read_request, end_upgrade, step, run,
}
use socker.Http.Whole.Plain.{plains}
use socker.Http.Whole.Ended.{HasEnded}
use socker.Http.Whole.Apart.{run-apart}
use socker.Http.Whole.Stop.{run-stop}
use socker.Http.Whole.Closing.{Asks}
use socker.Http.Whole.Reaching.{run-reached}
use socker.Http.Group.Writes.Reaching.{delivery}
use socker.Http.Group.Writes.{talker, reading}
use socker.Http.Whole.Groups.{HasAsked, run-sent}
use socker.Tests.Requests.{beast, get_request}

-- a Beast for which the requests with keep-alive are upgrades
abbrev chat_beast : Beast
chat_beast = record beast { is_upgrade = λ req. req.keep_alive }

abbrev plain_server : Server
plain_server = record {
  port = 8014;
  thread_count = 1;
  timeout = some 0;
  doc_root = bytes "./www";
  registrar = no_hooks;
  clients = [];
}

abbrev acceptor : Acceptor
acceptor = record { opened = none; set_option = none; bind = none; listen = none }

-- 1 and 2 ask for the same group, and 1 speaks
abbrev chat : List Event
chat =
    connects (accepted 1) []
    ∷ connects (accepted 2) []
    ∷ requests 1 (some (get_request (bytes "/G") true))
    ∷ upgrades 1 none
    ∷ requests 2 (some (get_request (bytes "/g") true))
    ∷ upgrades 2 none
    ∷ hears 1 true (message (bytes "x") true) (λ c. true)
    ∷ delivers 1 none (λ c. true)
    ∷ []

abbrev told_two : Delivered
told_two = record { to = 2; message = bytes "x"; as_text = true }

chat-sent :
    Has (1, told_two) (run reference chat_beast chat (begin acceptor none plain_server)).sent
unfolding run step start accept_one begin_upgrade read_request end_upgrade System.step is_listening
    listen_port Writes.step Writes.enter resume advance finish_multicast after_read read_ends
    write_ends get put Assoc.erase join emplace to_multicast text_beq tolower erase_all
chat-sent = inl refl

run-sent_example :
    (◌≢◌ {A = ℕ} 1 told_two.to)
    × HasEnded 1 (run reference chat_beast chat (begin acceptor none plain_server)).system
    × HasEnded 2 (run reference chat_beast chat (begin acceptor none plain_server)).system
    × ((a : List ℕ) × (b : List ℕ) × HasAsked reference chat_beast chat 1 a
        × HasAsked reference chat_beast chat 2 b
        × (reference.to_lower_copy a ≡ reference.to_lower_copy b))
run-sent_example =
    run-sent reference chat_beast acceptor none plain_server chat 1 told_two refl chat-sent

-- 3 is served while 1 asks for its websocket
abbrev before : List Event
before = connects (accepted 1) [] ∷ []

abbrev later : List Event
later =
    requests 1 (some (get_request (bytes "/G") true))
    ∷ requests 3 (some (get_request (bytes "/a.txt") false))
    ∷ upgrades 1 none
    ∷ []

three_is_fresh :
    Assoc.get 3
      (run reference chat_beast before (begin acceptor none plain_server)).system.connections
    ≡ none
unfolding run step start accept_one System.step is_listening listen_port get put
three_is_fresh = refl

run-apart_example :
    Option.map
      (λ c. c.wire)
      (Assoc.get 3
        (run reference chat_beast
          (before ++ connects (accepted 3) [] ∷ later)
          (begin acceptor none plain_server)).system.connections)
    ≡ some (do_connection reference chat_beast (reads_of 3 (plains later)) plain_server []).wire
unfolding is_listening
run-apart_example =
    run-apart reference chat_beast acceptor none plain_server 3 [] before later refl (omega arith)
      (tt, tt) (tt, (tt, (tt, tt))) three_is_fresh

-- 1 and 2 are in the group /g
abbrev joined : List Event
joined =
    connects (accepted 1) []
    ∷ connects (accepted 2) []
    ∷ requests 1 (some (get_request (bytes "/G") true))
    ∷ upgrades 1 none
    ∷ requests 2 (some (get_request (bytes "/g") true))
    ∷ upgrades 2 none
    ∷ []

abbrev delivering : List Event
delivering =
    delivers 1 none (λ c. true) ∷ connects (accepted 4) [] ∷ delivers 1 none (λ c. true) ∷ []

one_reads :
    get 1 (run reference chat_beast joined (begin acceptor none plain_server)).talkers
    ≡ some (talker (bytes "/g") reading)
unfolding run step start accept_one begin_upgrade read_request end_upgrade System.step is_listening
    listen_port Writes.enter get put Assoc.erase join emplace text_beq tolower
one_reads = refl

both_joined :
    get
      (bytes "/g")
      (run reference chat_beast joined (begin acceptor none plain_server)).system.server.clients
    ≡ some (1 ∷ 2 ∷ [])
unfolding run step start accept_one begin_upgrade read_request end_upgrade System.step is_listening
    listen_port Writes.enter get put Assoc.erase join emplace text_beq tolower
both_joined = refl

run-reached_example :
    Has
      (delivery 1 2 (bytes "x") true)
      (run reference chat_beast
        (joined ++ hears 1 true (message (bytes "x") true) (λ c. true) ∷ delivering)
        (begin acceptor none plain_server)).sent
unfolding is_listening
run-reached_example =
    run-reached 1 2 (bytes "x") true (λ e. ground arith) reference chat_beast acceptor none
      plain_server joined delivering (bytes "/g") (1 ∷ 2 ∷ []) (λ c. true) refl (omega arith)
      (tt, (tt, (tt, (tt, (tt, (tt, tt)))))) (tt, (tt, (tt, tt))) one_reads both_joined
      (inr (inl refl)) refl ((λ e. (refl, refl)), (tt, ((λ e. (refl, refl)), tt))) (omega arith)

abbrev page_request : Request
page_request = get_request (bytes "/a.txt") false

-- a connection and its request come between the statements of stop()
abbrev between : List Event
between = connects (accepted 7) [] ∷ requests 7 (some page_request) ∷ []

abbrev stopping : Whole
stopping = run reference chat_beast before (begin acceptor none plain_server)

run-stop_example :
    (stopping.system.crashed ≡ false)
    × (((run reference chat_beast (stop between ++ resets ∷ chat) stopping).system.crashed ≡ true)
        ↔ Asks reference chat_beast between (step reference chat_beast stopping resets))
    × ((run reference chat_beast (stop between ++ resets ∷ chat) stopping).sent
        ≡ (run reference chat_beast (stop between) stopping).sent)
    × ((run reference chat_beast (stop between ++ resets ∷ chat) stopping).system.connections
        ≡ (run reference chat_beast (stop between) stopping).system.connections)
unfolding is_listening
run-stop_example =
    run-stop reference chat_beast plain_server acceptor none before between (resets ∷ chat) refl
      (omega arith) (tt, tt) (tt, (tt, tt))

-- the request asks for the registrar, which is null
between-Asks : Asks reference chat_beast between (step reference chat_beast stopping resets)
unfolding run step start accept_one System.step is_listening listen_port get put is_illegal find
    is_prefix
between-Asks = inr (inl (refl, (λ e. ground arith), refl, (new_wire [], refl)))

a_stop_crashes :
    (run reference chat_beast (stop between ++ resets ∷ chat) stopping).system.crashed ≡ true
a_stop_crashes = run-stop_example.1.1 between-Asks
