-- ===== src/Http/Whole.antt =====
-- A running Server of Depends/Asula/Include/Asula/HttpServer.hpp with its websockets: a connection
-- whose request is an upgrade goes on as a conversation of its WebSocketGroupHandler, beside the
-- connections that still serve requests. A websocket stream is told by the number of its socket.

pub mod Plain
pub mod Apart
pub mod Ended
pub mod Asked
pub mod Groups
pub mod Closing
pub mod Stop
pub mod Talks
pub mod Reaching
use socker.Prelude.{
  ℕ, Bool, false, not, ◌||◌, Option, none, some, List, [], ◌∷◌, ◌++◌, if◌then◌else◌, nat_eq,
}
use socker.Text.{Text}
use socker.Assoc
use socker.Assoc.{Assoc}
use socker.Boost.{Boost}
use socker.Http.Beast.{Request, Beast}
use socker.Http.Server.{Server, Upgrade, read_failed, received}
use socker.Http.Group.{Delivered, ReadResult}
use socker.Http.Group.Writes
use socker.Http.Group.Writes.{Talker, Floor, enter}
use socker.Http.System
use socker.Http.System.{System, Connection, Accept, Acceptor}

-- `upgrades` are the targets of the connections that wait for their websocket to be accepted,
-- `talkers` the conversations, and `sent` what was sent to websockets, the first one first. The
-- clients of the groups are those of the server.
pub record Whole : Type 0 where
  pub system : System
  pub upgrades : Assoc ℕ Text
  pub talkers : Assoc ℕ Talker
  pub sent : List (ℕ × Delivered)

-- What ends: an accept, a read of a request, the accept of a websocket, a read or a write of a
-- conversation; and the two statements of stop().
pub data Event : Type 0 where
  connects : Accept → (outcomes : List (Option Text)) → Event
  requests : (socket : ℕ) → (request : Option Request) → Event
  upgrades : (socket : ℕ) → (error : Option Text) → Event
  hears : (socket : ℕ) → (own_open : Bool) → ReadResult → (is_open : ℕ → Bool) → Event
  delivers : (socket : ℕ) → (error : Option Text) → (is_open : ℕ → Bool) → Event
  resets : Event
  stops : Event

abbrev pub floor_of : Whole → Floor
floor_of w = record { clients = w.system.server.clients; talkers = w.talkers; sent = w.sent }

abbrev pub with_floor : Floor → Whole → Whole
with_floor floor w = record w {
  system = record w.system { server = record w.system.server { clients = floor.clients } };
  talkers = floor.talkers;
  sent = floor.sent;
}

-- listen(port)
abbrev pub begin : Acceptor → Option ℕ → Server → Whole
begin acceptor port server = record {
  system = System.start acceptor port server;
  upgrades = [];
  talkers = [];
  sent = [];
}

-- stop(), with the events that come between its two statements
unfoldable pub stop : List Event → List Event
stop between = resets ∷ between ++ stops ∷ []

-- ~Server(), with the events that come while it runs
abbrev pub destroy : List Event → List Event
destroy between = stop between

-- io_ runs nothing any more
abbrev pub is_down : Whole → Bool
is_down w = not w.system.running || w.system.crashed

-- what a request that is no upgrade would go on with
abbrev pub no_upgrade : Upgrade
no_upgrade = record { stream = 0; accepted = some []; turns = [] }

-- doConnection after it read an upgrade, up to async_accept of the websocket
unfoldable pub begin_upgrade : ℕ → Request → Connection → Whole → Whole
begin_upgrade socket req c w = if not c.alive then w else record w {
  system = record w.system {
    connections = Assoc.put socket (record c { alive = false }) w.system.connections;
  };
  upgrades = Assoc.put socket req.target w.upgrades;
}

module _ (boost : Boost) (beast : Beast) where
  abbrev pub via : System.Event → Whole → Whole
  via e w = record w { system = System.step boost beast w.system e }

  -- doConnection after a read
  unfoldable pub read_request : ℕ → Option Request → Whole → Whole
  read_request socket none w = via (System.reads socket read_failed) w
  read_request socket (some req) w =
      if not (beast.is_upgrade req)
      then via (System.reads socket (received req no_upgrade)) w
      else if is_down w
      then w
      else elim (Assoc.get socket w.system.connections) [
        | none ↦ w
        | some c ↦ begin_upgrade socket req c w
      ]

  -- handle(req, stream) after async_accept of the websocket
  unfoldable pub end_upgrade : ℕ → Option Text → Whole → Whole
  end_upgrade socket error w = elim (Assoc.get socket w.upgrades) [
    | none ↦ w
    | some target ↦
        let done = record w { upgrades = Assoc.erase socket w.upgrades } in
        elim error [
          | some e ↦ done
          | none ↦ with_floor (enter boost socket target (floor_of w)) done
        ]
  ]

  -- a conversation goes on
  abbrev pub talk : Writes.Event → Whole → Whole
  talk e w = with_floor (Writes.step boost (floor_of w) e) w

  unfoldable pub step : Whole → Event → Whole
  step w (connects result outcomes) = via (System.accepts result outcomes) w
  step w (requests socket request) = read_request socket request w
  step w (upgrades socket error) = if is_down w then w else end_upgrade socket error w
  step w (hears socket own_open result is_open) =
      if is_down w then w else talk (Writes.reads socket own_open result is_open) w
  step w (delivers socket error is_open) =
      if is_down w then w else talk (Writes.writes socket error is_open) w
  step w resets = via System.resets_registrar w
  step w stops = via System.stops_io w

  unfoldable pub run : List Event → Whole → Whole
  run [] w = w
  run (e ∷ es) w = run es (step w e)
