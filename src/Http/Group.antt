-- ===== src/Http/Group.antt =====
-- WebSocketGroupHandler of Depends/Asula/Include/Asula/HttpServer.hpp. A ws_stream_ptr is a number;
-- the streams themselves are Beast's, and stand here as what the handler reads of them.
mod Leaving
mod Members
pub mod Delivery
pub mod Turns
pub mod Rooms
pub mod Writes
use mathlib.Core.Option
use socker.Prelude.{
  ℕ, Bool, true, false, not, Option, none, some, List, [], ◌∷◌, ◌++◌, if◌then◌else◌, ltb, ◌==◌,
  nat_eq, is_empty,
}
use socker.Text.{Text, text_eq}
use socker.Assoc.{Assoc, get, put}
use socker.Boost.{Boost}
use socker.Http.Beast.{Request}
use socker.Http.Registrar.{emplace}

-- clients_: the streams of each group, in the order of the set
abbrev pub Clients : Type 0
Clients = Assoc Text (List ℕ)

-- What the streams show during one call: is_open(), and the error that a write to them ends with.
pub record Streams : Type 0 where
  pub is_open : ℕ → Bool
  pub write : ℕ → Option Text

-- a message on the wire: to whom, its bytes, and whether as text
pub record Delivered : Type 0 where
  pub to : ℕ
  pub message : Text
  pub as_text : Bool

-- std::set::erase by value
unfoldable pub erase_client : ℕ → List ℕ → List ℕ
erase_client c [] = []
erase_client c (d ∷ ds) = let rest = erase_client c ds in if d == c then rest else d ∷ rest

abbrev pub members : Text → Clients → List ℕ
members group clients = Option.get_or (get group clients) []

unfoldable pub join : ℕ → Text → Clients → Clients
join stream group clients =
    if is_empty group
    then clients
    else put group (emplace ltb stream (members group clients)).0 clients

unfoldable pub exit : ℕ → Text → Clients → Clients
exit stream group clients =
    if is_empty group
    then clients
    else put group (erase_client stream (members group clients)) clients

-- the loop over `closed`
unfoldable pub erase_all : List ℕ → List ℕ → List ℕ
erase_all [] clients = clients
erase_all (c ∷ cs) clients = erase_all cs (erase_client c clients)

-- ~WebSocketGroupHandler(): the streams that are closed with "Server shutdown"
unfoldable pub closes : Clients → List ℕ
closes [] = []
closes ((group, cs) ∷ clients) = cs ++ closes clients

-- The loop over the copied clients: what was sent, a failed write included, the clients found
-- closed, and the last value of `ec`. A failed write ends the loop.
pub record Round : Type 0 where
  pub sent : List Delivered
  pub closed : List ℕ
  pub ec : Option Text

module _ (streams : Streams) (stream : ℕ) (message : Text) (as_text : Bool) where
  abbrev delivery : ℕ → Delivered
  delivery c = record { to = c; message = message; as_text = as_text }

  unfoldable pub send_round : List ℕ → Option Text → Round
  send_round [] ec = record { sent = []; closed = []; ec = ec }
  send_round (c ∷ cs) ec =
      let skipped = send_round cs ec in
      let later = send_round cs none in
      if c == stream
      then skipped
      else if not (streams.is_open c)
      then record skipped { closed = c ∷ skipped.closed }
      else elim (streams.write c) [
        | some e ↦ record { sent = delivery c ∷ []; closed = []; ec = some e }
        | none ↦ record later { sent = delivery c ∷ later.sent }
      ]

  -- multicastMessage(stream, group, message, ec): the new clients_, and the round
  unfoldable pub multicast_message : Text → Option Text → Clients → Clients × Round
  multicast_message group ec clients = elim (get group clients) [
    | none ↦ (clients, record { sent = []; closed = []; ec = ec })
    | some cs ↦
        let round = send_round cs ec in (put group (erase_all round.closed cs) clients, round)
  ]

-- how one async_read of the loop in `handle` ends: `closed` is websocket::error::closed
pub data ReadResult : Type 0 where
  message : Text → (got_text : Bool) → ReadResult
  closed : ReadResult
  failed : (error : Text) → (read : Text) → (got_text : Bool) → ReadResult

-- One turn of the loop: whether the own stream is open at its head, how the read ends, and the
-- streams as they are during the multicast.
pub record Turn : Type 0 where
  pub own_open : Bool
  pub read : ReadResult
  pub streams : Streams

-- what the loop multicasts after a read, with the error code that it passes on
unfoldable pub to_multicast : ReadResult → Option (Text × Bool × Option Text)
to_multicast (message m got_text) = some (m, got_text, none)
to_multicast closed = none
to_multicast (failed error m got_text) = some (m, got_text, some error)

-- the loop, over the turns until it returns
unfoldable pub serve_turns : ℕ → Text → List Turn → Clients → Clients × List Delivered
serve_turns stream group [] clients = (clients, [])
serve_turns stream group (t ∷ ts) clients =
    if not t.own_open then (clients, []) else elim (to_multicast t.read) [
      | none ↦ (clients, [])
      | some (m, got_text, ec) ↦
          let (after, round) = multicast_message t.streams stream m got_text group ec clients in
          let (last, sent) = serve_turns stream group ts after in (last, round.sent ++ sent)
    ]

module _ (boost : Boost) where
  -- handle(req, stream): `accepted` is the error code of async_accept
  unfoldable pub handle :
      Request → ℕ → (accepted : Option Text) → List Turn → Clients → Clients × List Delivered
  handle req stream (some e) turns clients = (clients, [])
  handle req stream none turns clients =
      let group = boost.to_lower_copy req.target in
      serve_turns stream group turns (join stream group clients)
