-- ===== src/Http/System.antt =====
-- A running Server of Depends/Asula/Include/Asula/HttpServer.hpp: listen, doListen, the statements of
-- stop, and the connections that it serves side by side. A coroutine runs from one asynchronous call
-- to the next, so what the server does is a list of events. Sockets are numbers, each accepted once.
-- Hooks are registered before the server listens.
pub mod Rounds
pub mod Live
pub mod Single
pub mod Isolation
pub mod Stop
pub mod Closing
use socker.Prelude.{
  ℕ, Bool, true, false, not, ◌&&◌, ◌||◌, Option, none, some, List, [], ◌∷◌, ◌++◌, if◌then◌else◌,
  ltb, ◌==◌, nat_eq,
}
use socker.Text.{Text}
use socker.Assoc
use socker.Assoc.{Assoc}
use socker.Boost.{Boost}
use socker.Http.Beast.{Request, Beast}
use socker.Http.Session.{Wire}
use socker.Http.Registrar.{is_illegal}
use socker.Http.Group
use socker.Http.Server.{Server, Incoming, read_failed, received, process_request, listen_port}

-- how one async_accept ends
pub data Accept : Type 0 where
  accept_failed : Text → Accept
  accepted : (socket : ℕ) → Accept

-- how the calls that open an acceptor end: none, or the message of the error
pub record Acceptor : Type 0 where
  pub opened : Option Text
  pub set_option : Option Text
  pub bind : Option Text
  pub listen : Option Text

-- doListen() up to its loop: whether it comes to accept connections. The first error ends it.
unfoldable pub is_listening : Acceptor → Bool
is_listening a = elim a.opened [
  | some e ↦ false
  | none ↦ elim a.set_option [
    | some e ↦ false
    | none ↦ elim a.bind [ some e ↦ false | none ↦ elim a.listen [ some e ↦ false | none ↦ true ] ]
  ]
]

-- A connection: its wire, and whether its coroutine still runs.
pub record Connection : Type 0 where
  pub wire : Wire
  pub alive : Bool

-- `listening` is whether doListen came to its loop, `registered` whether registrar_ is not null,
-- `running` whether threads run io_; `crashed` tells that a null pointer was used.
pub record System : Type 0 where
  pub server : Server
  pub connections : Assoc ℕ Connection
  pub listening : Bool
  pub registered : Bool
  pub running : Bool
  pub crashed : Bool

-- listen(port)
unfoldable pub start : Acceptor → Option ℕ → Server → System
start acceptor port server = record {
  server = listen_port port server;
  connections = [];
  listening = is_listening acceptor;
  registered = true;
  running = ltb 0 (listen_port port server).thread_count;
  crashed = false;
}

pub data Event : Type 0 where
  -- an accept ends, with the error codes of the writes on a new connection
  accepts : Accept → (outcomes : List (Option Text)) → Event
  -- a read of a connection ends
  reads : (socket : ℕ) → Incoming → Event
  -- the two statements of stop()
  resets_registrar : Event
  stops_io : Event

-- the wire that doConnection begins with
abbrev pub new_wire : List (Option Text) → Wire
new_wire outcomes = record { close = false; ec = none; written = []; outcomes = outcomes }

module _ (boost : Boost) (beast : Beast) where
  -- one round of the loop of doConnection: the server, the wire, and whether the loop goes on
  unfoldable pub serve_one : Server → Wire → Incoming → Server × Wire × Bool
  serve_one server wire read_failed = (server, wire, false)
  serve_one server wire (received req u) =
      let (clients, sent) = Group.handle boost req u.stream u.accepted u.turns server.clients in
      let s = process_request boost beast server req wire in
      if beast.is_upgrade req
      then (record server { clients = clients }, wire, false)
      else (server, s.send, not s.send.close)

  -- handleRequest uses the registrar for requests that pass its checks
  unfoldable pub needs_registrar : Incoming → Bool
  needs_registrar read_failed = false
  needs_registrar (received req u) =
      not (beast.is_upgrade req) && not (req.method == 0) && not (is_illegal req.target)

  unfoldable pub accept_one : ℕ → List (Option Text) → System → System
  accept_one socket outcomes sys = elim (Assoc.get socket sys.connections) [
    | some c ↦ sys
    | none ↦ record sys {
      connections =
          Assoc.put socket (record { wire = new_wire outcomes; alive = true }) sys.connections;
    }
  ]

  unfoldable pub read_one : ℕ → Incoming → Connection → System → System
  read_one socket x c sys =
      let (server, wire, alive) = serve_one sys.server c.wire x in
      if not c.alive
      then sys
      else if not sys.registered && needs_registrar x
      then record sys { crashed = true }
      else record sys {
        server = server;
        connections = Assoc.put socket (record { wire = wire; alive = alive }) sys.connections;
      }

  unfoldable pub step : System → Event → System
  step sys (accepts result outcomes) =
      if not sys.running || sys.crashed || not sys.listening
      then sys
      else elim result [ accept_failed e ↦ sys | accepted socket ↦ accept_one socket outcomes sys ]
  step sys (reads socket x) =
      if not sys.running || sys.crashed
      then sys
      else elim (Assoc.get socket sys.connections) [ none ↦ sys | some c ↦ read_one socket x c sys ]
  step sys resets_registrar = record sys { registered = false }
  step sys stops_io = record sys { running = false }

  unfoldable pub run : List Event → System → System
  run [] sys = sys
  run (e ∷ es) sys = run es (step sys e)
