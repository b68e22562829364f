-- ===== src/Tests/Sockets.antt =====
-- Tests of the websocket client, the multicast receiver and the services.
use socker.Prelude.{
  ℕ, ◌%◌, ◌^◌, length, ◌≡◌, refl, true, false, Option, none, some, List, [], ◌∷◌, ◌++◌,
  if◌then◌else◌, ◌==◌, nat_eq, arith,
}
use socker.Text.{Text, bytes, text_eq, text_beq}
use socker.Text.Laws.{IsClean}
use socker.Boost.Reference.{reference}
use socker.WebSocketClient
use socker.WebSocketClient.{
  url_from_string, is_valid, run, on_message, new_client, Client, sets_handler, begins, reads,
  sends, Event,
}
use socker.WebSocketClient.Urls.{url_from_string-port_and_path}
use socker.WebSocketClient.Receiver.{on_message-silent, failed_read}
use socker.Multicast.{
  MulticastReceiver, new_receiver, start, stop, joined, set_message_handler, set_port, set_dest_ip,
  join_group, Received, received, do_receive, run_failed, receive_all, duplicate_open, destroy,
}
use socker.Multicast
use socker.Multicast.Restart.{CanStart, start-stop}
use socker.Multicast.Life.{stop-start}
use socker.Multicast.Counting.{run-throws}
use socker.Prometheus.{Service, Prometheus, new_prometheus}

abbrev host : Text
host = bytes "ab.c"

IsClean-host : IsClean host
IsClean-host = ground arith

-- a cast that reads the text 99 only
abbrev cast : Text → Option ℕ
cast s = if s == bytes "99" then some 99 else none

abbrev socket_url : ℕ → Text → WebSocketClient.Url
socket_url port target = record { protocol = bytes "ws"; host = host; port = port; target = target }

reads_99 : cast (bytes "99") ≡ some 99
unfolding text_beq
reads_99 = refl

-- the cast refuses what ends in a slash
cast_slash : (s : Text) → cast (s ++ bytes "/") ≡ none
unfolding text_beq
cast_slash [] = refl
cast_slash (a ∷ []) = ground arith
cast_slash (a ∷ b ∷ []) = ground arith
cast_slash (a ∷ b ∷ c ∷ s) = ground arith

url_from_string-port_and_path_example :
    is_valid (url_from_string cast (bytes "ws://ab.c:99/x")) ≡ false
url_from_string-port_and_path_example =
    url_from_string-port_and_path cast host (bytes "99") (bytes "x") cast_slash IsClean-host
      (ground arith)

abbrev open_client : Client
open_client = record new_client { is_open = true }

abbrev events : List Event
events = sends (bytes "hi") ∷ begins ∷ reads (some (bytes "a")) ∷ []

on_message-silent_example :
    (run cast events (on_message none open_client)).handled ≡ open_client.handled
on_message-silent_example = on_message-silent cast events open_client (tt, (tt, (tt, tt)))

failed_read_example :
    ((run cast
        (sets_handler (some 1) ∷ begins ∷ reads none ∷ sets_handler (some 2) ∷ [])
        open_client).starting
      ≡ 0)
    × ((run cast
          (sets_handler (some 1) ∷ begins ∷ reads none ∷ sets_handler (some 2) ∷ [])
          open_client).waiting
        ≡ 0)
    × ((run cast
          (sets_handler (some 1) ∷ begins ∷ reads none ∷ sets_handler (some 2) ∷ [])
          open_client).handler
        ≡ some 2)
failed_read_example = failed_read cast 1 2 open_client refl refl refl refl

abbrev message : Received
message = received (bytes "m") none

abbrev receiver : MulticastReceiver
receiver = new_receiver (bytes "10.0.0.1") (bytes "224.0.0.1") 9000 (some 1)

receiver_starts : (start [] joined receiver).1 ≡ true
unfolding start join_group
receiver_starts = refl

abbrev again : MulticastReceiver
again =
    set_message_handler (some 1)
      (set_port 9001 (set_dest_ip (bytes "224.0.0.2") (stop (start [] joined receiver).0)))

start-stop_example :
    ((receive_all (message ∷ []) (stop (start [] joined receiver).0)).handled ≡ receiver.handled)
    × ((start [] joined again).1 ≡ false)
    × ((start [] joined again).0.err ≡ duplicate_open)
start-stop_example =
    start-stop (message ∷ []) [] [] (bytes "224.0.0.2") joined 9001 1 receiver receiver_starts refl
      (ground arith)

-- settings, a start and a message
abbrev before : List Multicast.Event
before = Multicast.sets_port 70000 ∷ Multicast.starts [] joined ∷ Multicast.receives message ∷ []

abbrev after : List Multicast.Event
after =
    Multicast.sets_handler (some 2) ∷ Multicast.starts [] joined ∷ Multicast.receives message ∷ []

abbrev waiting_receiver : MulticastReceiver
waiting_receiver = Multicast.run before receiver

waits :
    (waiting_receiver.running ≡ true)
    × (waiting_receiver.joinable ≡ true)
    × (waiting_receiver.receiving ≡ true)
    × (waiting_receiver.handler ≡ some 1)
unfolding Multicast.run Multicast.step set_port start join_group do_receive
waits = (refl, refl, refl, refl)

abbrev thrown_at : MulticastReceiver
thrown_at =
    Multicast.step waiting_receiver
      (Multicast.receives (received (bytes "n") (some (bytes "oops"))))

run-throws_example :
    (waiting_receiver.msg_count ≡ length waiting_receiver.handled % 2 ^ 32)
    × (thrown_at.err ≡ run_failed (bytes "oops"))
    × (thrown_at.running ≡ true)
    × ((Multicast.run after thrown_at).handled ≡ waiting_receiver.handled ++ (1, bytes "n") ∷ [])
    × ((Multicast.run after thrown_at).msg_count ≡ waiting_receiver.msg_count)
run-throws_example =
    run-throws (bytes "10.0.0.1") (bytes "224.0.0.1") 9000 (some 1) before after 1 (bytes "n")
      (bytes "oops") waits.0 waits.1 waits.2 waits.3

receiver-CanStart : CanStart receiver
receiver-CanStart = (refl, refl, (λ e. ground arith), refl)

stop-start_example :
    ((start [] joined (stop receiver)).1 ≡ true)
    × ((receive_all (message ∷ []) (start [] joined (stop receiver)).0).handled ≡ receiver.handled)
    × ((destroy (receive_all (message ∷ []) (start [] joined (stop receiver)).0)).1 ≡ true)
stop-start_example = stop-start [] (message ∷ []) receiver receiver-CanStart

abbrev service : Service
service = record { id = 5; name = bytes "clock"; init = λ c. (c, true); routes = [] }

abbrev prometheus : Prometheus
prometheus = new_prometheus reference 1 (bytes "./web")
