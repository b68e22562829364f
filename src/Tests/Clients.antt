-- ===== src/Tests/Clients.antt =====
-- Tests of the TCP client, the manager, the factory and the context.
use socker.Prelude.{
  ℕ, ◌≡◌, refl, ◌≢◌, inl, inr, Bool, true, false, Option, none, some, [], ◌∷◌, Has, ◌+◌, nat_eq,
  arith,
}
use socker.Text.{Text, bytes, text_eq}
use socker.Tcp.{
  Asio, Endpoint, no_error, returned, Client, is_connected, bind, connect_to, send, receive_exactly,
  receive_some,
}
use socker.Tcp.Laws.{connect_to-unconnected, transfers-failed}
use socker.Manager.{Objects, AbstractManager, empty_manager, add, rmv, list, id_and_code}
use socker.Manager.Consistency.{IsConsistent}
use socker.Manager.Reached.{Reached, made, added, removed, Reached-IsConsistent}

record Socket : Type 0 where
  opened : Bool
  other : Option Endpoint

abbrev asio : Asio Socket
asio = record {
  is_open = λ s. s.opened;
  peer = λ s. s.other;
  is_address = λ t. true;
  open_v4 = λ s. record { opened = true; other = none };
  bind = λ e ec s. s;
  connect = λ e ec s. record { opened = true; other = elim ec [ none ↦ some e | some t ↦ none ] };
  shutdown = λ s. s;
  close = λ s. record { opened = false; other = none };
  is_open-open = λ s. refl;
  peer-open = λ s. refl;
  is_open-bind = λ e ec s. refl;
  peer-bind = λ e ec s. refl;
  is_open-connect = λ e ec s. refl;
  peer-connect = λ e s. refl;
  peer-connect_failed = λ e t s. refl;
  is_open-shutdown = λ s. refl;
  is_open-close = λ s. refl;
}

abbrev fresh : Client asio
fresh = record { socket = record { opened = false; other = none }; err = no_error }

abbrev talking : Client asio
talking = record { socket = record { opened = true; other = none }; err = no_error }

abbrev home : Text
home = bytes "127.0.0.1"

is_closed : is_connected asio fresh ≡ false
unfolding is_connected
is_closed = refl

is_talking : is_connected asio talking ≡ true
unfolding is_connected
is_talking = refl

connect_to-unconnected_example :
    ((connect_to asio home 80 none (bind asio home 9000 none fresh).0).1 ≡ returned true)
    × (asio.peer (connect_to asio home 80 none (bind asio home 9000 none fresh).0).0.socket ≡ none)
    × ((connect_to asio home 9000 (some (bytes "refused")) fresh).1 ≡ returned false)
    × ((connect_to asio home 80 none (connect_to asio home 9000 (some (bytes "refused")) fresh).0).1
        ≡ returned true)
    × (asio.peer
          (connect_to asio home 80 none
            (connect_to asio home 9000 (some (bytes "refused")) fresh).0).0.socket
        ≡ none)
connect_to-unconnected_example =
    connect_to-unconnected asio home home 9000 80 (bytes "refused") none fresh is_closed refl

transfers-failed_example :
    ((send asio 5 (some (bytes "reset")) talking).1 ≡ 0)
    × ((send asio 5 (some (bytes "reset")) talking).0.err ≡ no_error)
    × (is_connected asio (send asio 5 (some (bytes "reset")) talking).0 ≡ false)
    × (receive_exactly asio 5 (some (bytes "reset")) talking
        ≡ send asio 5 (some (bytes "reset")) talking)
    × (receive_some asio 5 (some (bytes "reset")) talking
        ≡ send asio 5 (some (bytes "reset")) talking)
transfers-failed_example = transfers-failed asio 5 (bytes "reset") talking is_talking

-- the object t has the id t + 100 and the code of one letter
abbrev objects : Objects
objects = record { id = λ t. t + 100; code = λ t. t ∷ [] }

abbrev one : AbstractManager
one = add objects id_and_code (some 1) empty_manager

listed_two : list (add objects id_and_code (some 2) one) ≡ 1 ∷ 2 ∷ []
unfolding add
listed_two = refl

two_is_new :
    (p : ℕ) → Has p (list one) → (objects.id p ≢ objects.id 2) × (objects.code p ≢ objects.code 2)
unfolding add
two_is_new p (inl e) = ((λ z. ground arith), (λ z. ground arith))
two_is_new p (inr b) = absurd b

one-Reached : Reached objects id_and_code one
one-Reached = added 1 (λ p h. absurd h) made

Reached-IsConsistent_example :
    IsConsistent objects id_and_code
      (rmv objects id_and_code (some 1) (add objects id_and_code (some 2) one))
Reached-IsConsistent_example =
    Reached-IsConsistent objects id_and_code
      (rmv objects id_and_code (some 1) (add objects id_and_code (some 2) one))
      (removed 1 (inl (rw listed_two (inl refl))) (added 2 two_is_new one-Reached))
