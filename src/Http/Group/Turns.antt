-- ===== src/Http/Group/Turns.antt =====
-- The loop over the messages of a websocket, and the reads that fail.
use socker.Prelude.{
  ℕ, ◌≡◌, refl, ap, inl, inr, Bool, Option, none, some, List, ◌∷◌, nat_eq, Option-cases,
}
use socker.Assoc.{get, put}
use socker.Text.{Text, text_eq}
use socker.Http.Group.{
  Clients, Streams, message, failed, Turn, erase_all, multicast_message, to_multicast, serve_turns,
}
use socker.Http.Group.Delivery.{round-ec}

multicast-ec :
    (streams : Streams) (stream : ℕ) (msg : Text) (as_text : Bool) (group : Text)
    (ec ec' : Option Text) (clients : Clients)
    → ((multicast_message streams stream msg as_text group ec clients).0
        ≡ (multicast_message streams stream msg as_text group ec' clients).0)
      × ((multicast_message streams stream msg as_text group ec clients).1.sent
          ≡ (multicast_message streams stream msg as_text group ec' clients).1.sent)
unfolding multicast_message
multicast-ec streams stream msg as_text group ec ec' clients =
    elim (Option-cases (get group clients)) [
      | inl e ↦ rw (e, multicast_message) (refl, refl)
      | inr (cs, e) ↦
          let (sent, closed) = round-ec streams stream msg as_text cs ec ec' in
          rw (e, multicast_message) (ap (λ ds. put group (erase_all ds cs) clients) closed, sent)
    ]

-- A read that fails otherwise than by the close of the websocket is treated like a message: what
-- the buffer holds is sent to the group.
pub serve_turns-failed :
    (stream : ℕ) (group error buffer : Text) (got_text : Bool) (t : Turn) (ts : List Turn)
    (clients : Clients)
    → serve_turns stream group (record t { read = failed error buffer got_text } ∷ ts) clients
      ≡ serve_turns stream group (record t { read = message buffer got_text } ∷ ts) clients
unfolding serve_turns to_multicast
serve_turns-failed stream group error buffer got_text t ts clients =
    let (after, sent) =
      multicast-ec t.streams stream buffer got_text group (some error) none clients in
    rw (after, sent)
