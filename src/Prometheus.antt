-- ===== src/Prometheus.antt =====
-- Depends/Asula/Include/Asula/Prometheus.hpp, on ServiceItf.h: services put into a server. The
-- loader's results and the services are given; services that throw are not modelled. The callable
-- that is hooked logs and calls the route's handler, so it is that handler. Assertions are compiled
-- out.
pub mod Prefix
pub mod Routes
pub mod Deployed
use socker.Prelude.{
  ℕ, Bool, true, false, not, ◌&&◌, Option, none, some, List, [], ◌∷◌, ◌++◌, if◌then◌else◌,
}
use socker.Text.{Text, bytes}
use socker.Boost.{Boost}
use socker.Context.{ServerContext, new_context, add_service}
use socker.Http.Route.{Route, new_route}
use socker.Http.Registrar.{HookFunc}
use socker.Http.System.{Acceptor, System, start}
use socker.Http.Server.{Server, new_server, hook_method}

-- A service: its number, its name, its routes, and what init does to the context and returns.
pub record Service : Type 0 where
  pub id : ℕ
  pub name : Text
  pub init : ServerContext → ServerContext × Bool
  pub routes : List (Route HookFunc)

pub record Prometheus : Type 0 where
  pub context : ServerContext
  pub server : Server
  pub prefix : Text

-- what the loader found for one library: a failure, or one without the function, or a service
pub data DllLoadResult : Type 0 where
  load_failed invalid_dll : DllLoadResult
  loaded : Service → DllLoadResult

unfoldable pub set_prefix : Text → Prometheus → Prometheus
set_prefix prefix p = record p { prefix = prefix }

module _ (boost : Boost) where
  -- Prometheus(threadCount, webRoot)
  abbrev pub new_prometheus : ℕ → Text → Prometheus
  new_prometheus thread_count web_root = record {
    context = new_context;
    server = new_server boost web_root thread_count;
    prefix = [];
  }

  -- ROUTE(METHOD, URL, FUNC, POINTER), where a handler is made of the function and the pointer
  unfoldable pub route : Text → Text → HookFunc → Route HookFunc
  unfolding new_route
  route method url func = new_route boost method url (some func)

  -- the url of a route with a slash in front
  unfoldable pub slashed : Text → Text
  slashed url = if boost.starts_with url (bytes "/") then url else bytes "/" ++ url

  -- the urls that do not get the prefix
  unfoldable pub is_kept : Text → Text → Bool
  is_kept prefix url = not (
      not (boost.starts_with url (bytes "/atom/"))
      && (not (boost.starts_with url (bytes "/coredb/")) && not (boost.starts_with url prefix)))

  -- the url that a route gets
  unfoldable pub full_url : Text → Text → Text
  full_url prefix route_url =
      let url = slashed route_url in if is_kept prefix url then url else prefix ++ url

  -- The loop over the routes: the server, and the routes with the urls that they got.
  unfoldable pub hook_routes :
      Text → List (Route HookFunc) → Server → Server × List (Route HookFunc)
  hook_routes prefix [] server = (server, [])
  hook_routes prefix (r ∷ rs) server =
      let url = full_url prefix r.url in
      let hooked : Server = elim r.handler [
        | none ↦ server
        | some h ↦ (hook_method boost r.method url (some h) server).0
      ] in
      let (last, changed) = hook_routes prefix rs hooked in (last, record r { url = url } ∷ changed)

  -- registerService(si): also the service, whose routes have got their urls
  unfoldable pub register_service : Service → Prometheus → Prometheus × Service
  register_service si p =
      let (context, ok) = si.init p.context in
      let (server, routes) = hook_routes p.prefix si.routes p.server in
      if not ok then (record p { context = context }, si) else (
        record p { context = add_service si.name si.id context; server = server },
        record si { routes = routes },
      )

  -- loadServices(path), over what the loader finds
  unfoldable pub load_services : List DllLoadResult → Prometheus → Prometheus
  load_services [] p = p
  load_services (load_failed ∷ found) p = load_services found p
  load_services (invalid_dll ∷ found) p = load_services found p
  load_services (loaded si ∷ found) p = load_services found (register_service si p).0

-- exec(port): what listen starts, over how its acceptor is set up
unfoldable pub exec : Acceptor → Option ℕ → Prometheus → System
exec acceptor port p = start acceptor port p.server
