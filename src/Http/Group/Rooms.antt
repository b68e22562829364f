-- ===== src/Http/Group/Rooms.antt =====
-- Many conversations of the WebSocketGroupHandler of Depends/Asula/Include/Asula/HttpServer.hpp side
-- by side: each event is the accept of a websocket, or one turn of the loop in handle of one of
-- them. A stream is accepted once.
use socker.Prelude.{
  ℕ, Bool, true, false, not, Option, none, some, List, [], ◌∷◌, ◌++◌, map, if◌then◌else◌, nat_eq,
}
use socker.Text.{Text}
use socker.Assoc
use socker.Assoc.{Assoc}
use socker.Boost.{Boost}
use socker.Http.Group.{Clients, Delivered, Turn, join, multicast_message, to_multicast}

-- the locals of a running handle: its group, and whether the loop still runs
pub record Conversation : Type 0 where
  pub group : Text
  pub alive : Bool

-- `sent` has each message on the wire with the stream that it came from, the first one first.
pub record Rooms : Type 0 where
  pub clients : Clients
  pub conversations : Assoc ℕ Conversation
  pub sent : List (ℕ × Delivered)

abbrev pub no_rooms : Rooms
no_rooms = record { clients = []; conversations = []; sent = [] }

pub data Event : Type 0 where
  -- async_accept ends, for a request with this target
  accepts : (stream : ℕ) → (target : Text) → (error : Option Text) → Event
  turns : (stream : ℕ) → Turn → Event

-- handle up to its loop
unfoldable pub enter : Boost → ℕ → Text → Rooms → Rooms
enter boost stream target rooms =
    let group = boost.to_lower_copy target in
    elim (Assoc.get stream rooms.conversations) [
      | some c ↦ rooms
      | none ↦ record rooms {
        clients = join stream group rooms.clients;
        conversations =
            Assoc.put stream (record { group = group; alive = true }) rooms.conversations;
      }
    ]

-- the end of a loop, which leaves the clients as they are
unfoldable pub end_loop : ℕ → Conversation → Rooms → Rooms
end_loop stream c rooms = record rooms {
  conversations = Assoc.put stream (record c { alive = false }) rooms.conversations;
}

-- one turn of the loop of a stream
unfoldable pub take_turn : ℕ → Turn → Conversation → Rooms → Rooms
take_turn stream t c rooms =
    if not c.alive
    then rooms
    else if not t.own_open
    then end_loop stream c rooms
    else elim (to_multicast t.read) [
      | none ↦ end_loop stream c rooms
      | some (m, got_text, ec) ↦
          let (after, round) =
            multicast_message t.streams stream m got_text c.group ec rooms.clients in
          record rooms { clients = after; sent = rooms.sent ++ map (λ d. (stream, d)) round.sent }
    ]

module _ (boost : Boost) where
  unfoldable pub step : Rooms → Event → Rooms
  step rooms (accepts stream target (some e)) = rooms
  step rooms (accepts stream target none) = enter boost stream target rooms
  step rooms (turns stream t) = elim (Assoc.get stream rooms.conversations) [
    | none ↦ rooms
    | some c ↦ take_turn stream t c rooms
  ]

  unfoldable pub run : List Event → Rooms → Rooms
  run [] rooms = rooms
  run (e ∷ es) rooms = run es (step rooms e)
