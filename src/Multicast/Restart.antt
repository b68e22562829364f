-- ===== src/Multicast/Restart.antt =====
-- When a multicast receiver starts, and what it does after it was stopped.
use socker.Prelude.{
  ℕ, ◌%◌, ◌^◌, ◌≡◌, refl, ap, ◌∙◌, ◌≢◌, ◌↔◌, true, false, some, List, [], ◌∷◌, arith, nat_eq,
  is_empty,
}
use socker.Text.{Text}
use socker.Multicast.{
  no_error, duplicate_open, MulticastReceiver, set_dest_ip, set_port, set_message_handler, Setup,
  joined, has_handler, join_group, start, stop, Received, do_receive, receive_all,
}

-- what start asks of the settings and of the socket
abbrev pub CanStart : MulticastReceiver → Type 0
CanStart r =
    (has_handler r ≡ true) × (is_empty r.dest_ip ≡ false) × (r.port ≢ 0) × (r.is_open ≡ false)

-- start succeeds exactly when there are a handler, an address and a port, the socket is closed and
-- the network lets it join; the error message is empty exactly then.
pub start_lem :
    (guessed : Text) (setup : Setup) (r : MulticastReceiver)
    → (((start guessed setup r).1 ≡ true) ↔ (CanStart r × (setup ≡ joined)))
      × (((start guessed setup r).0.err ≡ no_error) ↔ ((start guessed setup r).1 ≡ true))
unfolding start join_group
start_lem guessed setup r = ground arith

pub do_receive_stopped :
    (x : Received) (r : MulticastReceiver) → r.running ≡ false → do_receive x r ≡ r
unfolding do_receive
do_receive_stopped x r h = ground arith

pub receive_stopped :
    (xs : List Received) (r : MulticastReceiver) → r.running ≡ false → receive_all xs r ≡ r
unfolding receive_all
receive_stopped [] r h = refl
receive_stopped (x ∷ xs) r h =
    ap (receive_all xs) (do_receive_stopped x r h) ∙ receive_stopped xs r h

started :
    (guessed : Text) (r : MulticastReceiver)
    → (start guessed joined r).1 ≡ true
    → ((start guessed joined r).0.is_open ≡ true) × ((start guessed joined r).0.handled ≡ r.handled)
unfolding start join_group
started guessed r ok = ground arith

stopped :
    (r : MulticastReceiver)
    → ((stop r).running ≡ false) × ((stop r).is_open ≡ r.is_open) × ((stop r).handled ≡ r.handled)
unfolding stop
stopped r = ground arith

-- a receiver with an open socket and good settings
open_socket :
    (guessed dest : Text) (setup : Setup) (port h : ℕ) (r : MulticastReceiver)
    → r.is_open ≡ true
    → is_empty dest ≡ false
    → port % 2 ^ 16 ≢ 0
    → ((start guessed setup (set_message_handler (some h) (set_port port (set_dest_ip dest r)))).1
        ≡ false)
      × ((start guessed setup
            (set_message_handler (some h) (set_port port (set_dest_ip dest r)))).0.err
          ≡ duplicate_open)
unfolding start set_message_handler set_port set_dest_ip
open_socket guessed dest setup port h r op d p = ground arith

-- After a start that succeeded and a stop no message is handled; and the receiver cannot be started
-- again, whatever address, port and handler it is given: start fails, for the socket is open still.
pub start-stop :
    (xs : List Received) (guessed guessed' dest : Text) (setup : Setup) (port h : ℕ)
    (r : MulticastReceiver)
    → (start guessed joined r).1 ≡ true
    → is_empty dest ≡ false
    → port % 2 ^ 16 ≢ 0
    → ((receive_all xs (stop (start guessed joined r).0)).handled ≡ r.handled)
      × ((start guessed' setup (
            set_message_handler
              (some h)
              (set_port port (set_dest_ip dest (stop (start guessed joined r).0))))).1
          ≡ false)
      × ((start guessed' setup (
            set_message_handler
              (some h)
              (set_port port (set_dest_ip dest (stop (start guessed joined r).0))))).0.err
          ≡ duplicate_open)
start-stop xs guessed guessed' dest setup port h r ok d p =
    let (open', handled) = started guessed r ok in
    let (halted, kept, same) = stopped (start guessed joined r).0 in
    let (fails, why) = open_socket guessed' dest setup port h _ (kept ∙ open') d p in
    (
      ap (λ (s : MulticastReceiver). s.handled) (receive_stopped xs _ halted) ∙ (same ∙ handled),
      fails,
      why,
    )
