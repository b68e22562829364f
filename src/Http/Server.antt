-- ===== src/Http/Server.antt =====
-- Server of Depends/Asula/Include/Asula/HttpServer.hpp. Assertions are compiled out.
pub mod Hooks
pub mod Routed
pub mod Serving
pub mod Connection
pub mod Failing
pub mod Files
use socker.Prelude.{
  ℕ, ◌%◌, ◌^◌, Bool, true, false, ◌||◌, Option, none, some, List, [], ◌∷◌, ◌++◌, if◌then◌else◌, ltb,
}
use socker.Text.{Text, bytes}
use socker.Boost.{Boost}
use socker.Http.Beast.{Request, Beast}
use socker.Http.Route.{Route}
use socker.Http.Session.{Session, Wire, new_session, reply_server_error}
use socker.Http.Registrar.{
  HookFunc, list_apis, HandlerRegistrar, no_hooks, add, api_list, handle_request,
}
use socker.Http.Group
use socker.Http.Group.{Clients, Turn, Delivered}

-- port_, threadCount_, timeout_, docRoot_, registrar_ and the clients of wshandler_. The timeout is
-- an int: `some n` for n seconds, none for a number below 0.
pub record Server : Type 0 where
  pub port : ℕ
  pub thread_count : ℕ
  pub timeout : Option ℕ
  pub doc_root : Text
  pub registrar : HandlerRegistrar
  pub clients : Clients

-- how a websocket goes on if a request turns out to be an upgrade
pub record Upgrade : Type 0 where
  pub stream : ℕ
  pub accepted : Option Text
  pub turns : List Turn

-- what one async_read of a connection ends with
pub data Incoming : Type 0 where
  read_failed : Incoming
  received : Request → Upgrade → Incoming

module _ (boost : Boost) where
  -- hook(verb, target, func)
  unfoldable pub hook : ℕ → Text → Option HookFunc → Server → Server × Bool
  hook verb target func s =
      let (registrar, ok) = add boost verb target func s.registrar in
      (record s { registrar = registrar }, ok)

  -- hook(method, target, func)
  unfoldable pub hook_method : Text → Text → Option HookFunc → Server → Server × Bool
  unfolding hook
  hook_method method target func s =
      hook (boost.string_to_verb (boost.to_upper_copy method)) target func s

  -- hook(route)
  unfoldable pub hook_route : Route HookFunc → Server → Server × Bool
  unfolding hook_method
  hook_route r s = hook_method r.method r.url r.handler s

  unfoldable pub enable_list_api : Server → Server
  unfolding hook_method
  enable_list_api s = (hook_method (bytes "GET") api_list (some list_apis) s).0

  -- Server(wwwRoot, threadCount)
  unfoldable pub new_server : Text → ℕ → Server
  unfolding enable_list_api
  new_server www_root thread_count = enable_list_api (record {
    port = 8014;
    thread_count = thread_count;
    timeout = some 0;
    doc_root = www_root;
    registrar = no_hooks;
    clients = [];
  })

unfoldable pub set_timeout : Option ℕ → Server → Server
set_timeout seconds s = record s { timeout = seconds }

-- The port of listen(port): `none` stands for a negative int. `port_` is a uint16_t.
unfoldable pub listen_port : Option ℕ → Server → Server
listen_port none s = s
listen_port (some port) s = if ltb 0 port then record s { port = port % 2 ^ 16 } else s

-- the timer that doConnection sets before each read, in seconds
unfoldable pub expires_after : Server → Option ℕ
expires_after s = elim s.timeout [
  | none ↦ none
  | some seconds ↦ if ltb 0 seconds then some seconds else none
]

-- what doConnection leaves: the server, the wire, and what was sent to websocket clients
pub record Served : Type 0 where
  pub server : Server
  pub wire : Wire
  pub delivered : List Delivered

module _ (boost : Boost) (beast : Beast) where
  -- doProcessRequest(req, lambda): the session when it is dropped
  unfoldable pub process_request : Server → Request → Wire → Session
  process_request server req wire =
      let s =
        handle_request boost beast server.registrar (new_session boost server.doc_root req wire) in
      if s.replied then s else reply_server_error beast (bytes "No reply") s

  -- the loop of doConnection, over what the reads end with
  unfoldable pub serve_connection : List Incoming → Server → Wire → Served
  serve_connection [] server wire = record { server = server; wire = wire; delivered = [] }
  serve_connection (read_failed ∷ more) server wire = record {
    server = server;
    wire = wire;
    delivered = [];
  }
  serve_connection (received req u ∷ more) server wire =
      let s = process_request server req wire in
      let rest = serve_connection more server s.send in
      let (clients, sent) = Group.handle boost req u.stream u.accepted u.turns server.clients in
      if beast.is_upgrade req
      then record { server = record server { clients = clients }; wire = wire; delivered = sent }
      else if s.send.close
      then record { server = server; wire = s.send; delivered = [] }
      else rest

  -- doConnection(socket)
  unfoldable pub do_connection : List Incoming → Server → List (Option Text) → Served
  do_connection incoming server outcomes =
      serve_connection incoming server
        (record { close = false; ec = none; written = []; outcomes = outcomes })
