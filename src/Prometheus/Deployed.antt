-- ===== src/Prometheus/Deployed.antt =====
-- A deployed Prometheus: services are loaded, exec starts the server, and a connection asks for a
-- route of a service.
use socker.Prelude.{
  ℕ, ◌<◌, ◌≡◌, refl, ap, ◌∙◌, inl, inr, true, false, Option, none, some, List, [], ◌∷◌, ◌++◌, arith,
  ◌==◌, nat_eq, Bool-cases, Option-cases, All,
}
use mathlib.Core.Option
use socker.Assoc
use socker.Boost.{Boost}
use socker.Text.{Text}
use socker.Context.{new_context}
use socker.Http.Beast.{Request, Beast}
use socker.Http.Session.{Wire}
use socker.Http.Route.{Route, split_url}
use socker.Http.Match.{is_fuzzy_schema}
use socker.Http.Registrar.{HookFunc, is_illegal, finish_request, run_hook}
use socker.Http.Registrar.Table.{no_routes, replay}
use socker.Http.Registrar.Refines.{IsLiteralRoute}
use socker.Http.Server.{
  Server, received, Upgrade, new_server, hook, hook_method, process_request, serve_connection,
  do_connection,
}
use socker.Http.Server.Hooks.{lists}
use socker.Http.Server.Routed.{schema, hooked, answered}
use socker.Http.System.{Acceptor, is_listening, accepted, Event, accepts, new_wire, run}
use socker.Http.System.Live.{KeepsRunning}
use socker.Http.System.Isolation.{run-alone}
use socker.Http.System.Single.{reads_of}
use socker.Prometheus.{
  Service, Prometheus, DllLoadResult, load_failed, invalid_dll, loaded, set_prefix, hook_routes,
  register_service, load_services, exec,
}
use socker.Prometheus.Routes.{registrations, fresh, load_services-answers}

module _ (boost : Boost) where
  hook_routes-thread_count :
      (prefix : Text) (rs : List (Route HookFunc)) (server : Server)
      → (hook_routes boost prefix rs server).0.thread_count ≡ server.thread_count
  unfolding hook_routes hook_method hook
  hook_routes-thread_count prefix [] server = refl
  hook_routes-thread_count prefix (r ∷ rs) server = elim (Option-cases r.handler) [
    | inl null ↦ rw null (hook_routes-thread_count prefix rs server)
    | inr (h, e) ↦ rw e (hook_routes-thread_count prefix rs _)
  ]

  register_service-thread_count :
      (si : Service) (p : Prometheus)
      → (register_service boost si p).0.server.thread_count ≡ p.server.thread_count
  unfolding register_service
  register_service-thread_count si p = elim (Bool-cases (si.init p.context).1) [
    | inl ok ↦ rw ok (hook_routes-thread_count p.prefix si.routes p.server)
    | inr failed ↦ rw failed refl
  ]

  load_services-thread_count :
      (found : List DllLoadResult) (p : Prometheus)
      → (load_services boost found p).server.thread_count ≡ p.server.thread_count
  unfolding load_services
  load_services-thread_count [] p = refl
  load_services-thread_count (load_failed ∷ found) p = load_services-thread_count found p
  load_services-thread_count (invalid_dll ∷ found) p = load_services-thread_count found p
  load_services-thread_count (loaded si ∷ found) p =
      load_services-thread_count found _ ∙ register_service-thread_count si p

  fresh-thread_count :
      (threads : ℕ) (root prefix : Text)
      → (fresh boost threads root prefix).server.thread_count ≡ threads
  unfolding set_prefix new_server
  fresh-thread_count threads root prefix = refl

  -- a connection that reads one request
  do_connection_one :
      (beast : Beast) (req : Request) (u : Upgrade) (server : Server)
      (outcomes : List (Option Text))
      → beast.is_upgrade req ≡ false
      → (do_connection boost beast (received req u ∷ []) server outcomes).wire
        ≡ (process_request boost beast server req (new_wire outcomes)).send
  unfolding do_connection serve_connection
  do_connection_one beast req u server outcomes plain = rw plain (ground arith)

  -- the Prometheus when it is started
  abbrev pub deployed : ℕ → (root prefix : Text) → List DllLoadResult → Prometheus
  deployed threads root prefix found = load_services boost found (fresh boost threads root prefix)

  deployed-threads :
      (threads : ℕ) (root prefix : Text) (found : List DllLoadResult)
      → 0 < threads
      → 0 < (deployed threads root prefix found).server.thread_count
  deployed-threads threads root prefix found some_threads =
      rw
        (load_services-thread_count found (fresh boost threads root prefix)
          ∙ fresh-thread_count threads root prefix)
        some_threads

  -- what is on the wire after the answer of a hook
  abbrev pub wire_of : Beast → Server → HookFunc → Request → Wire → Wire
  wire_of beast server h req wire =
      (answered boost beast (
        finish_request beast (
          true,
          run_hook beast server.registrar (some h) (hooked boost beast server req wire),
        ))).send

  -- Let services be loaded into a new Prometheus with threads and a prefix, their routes having no
  -- placeholders, and let exec start the server, whose acceptor is set up without an error. Let a
  -- connection k be accepted for the first time, with any accepts and reads of other connections
  -- before, between and after, and read one request, which is no upgrade and has a known method and
  -- a legal target without brackets. If there is a function for its verb and tokens among the list
  -- of the apis and the routes of the services that could be initialised, in order and with their
  -- full urls, then what is written on k is the answer of the first such function, called on the
  -- session of the request with the arguments of its query, or the reply of status 500 that stands
  -- for an exception of the function or for no reply.
  pub exec-answers :
      (beast : Beast) (threads : ℕ) (root prefix : Text) (found : List DllLoadResult)
      (acceptor : Acceptor) (port : Option ℕ) (k : ℕ) (outcomes : List (Option Text))
      (before later : List Event) (req : Request) (u : Upgrade) (h : HookFunc)
      → 0 < threads
      → is_listening acceptor ≡ true
      → All KeepsRunning before
      → All KeepsRunning later
      → Assoc.get k
          (run boost beast before
            (exec acceptor port (deployed threads root prefix found))).connections
        ≡ none
      → reads_of k later ≡ received req u ∷ []
      → beast.is_upgrade req ≡ false
      → All (IsLiteralRoute boost) (registrations boost prefix found new_context)
      → (req.method == 0) ≡ false
      → is_illegal req.target ≡ false
      → is_fuzzy_schema boost
          (schema boost beast (deployed threads root prefix found).server req (new_wire outcomes))
        ≡ false
      → replay boost
          (lists boost ∷ registrations boost prefix found new_context)
          no_routes
          req.method
          (split_url boost (
            schema boost beast (deployed threads root prefix found).server req (new_wire outcomes)))
        ≡ some h
      → Option.map
          (λ c. c.wire)
          (Assoc.get k
            (run boost beast
              (before ++ accepts (accepted k) outcomes ∷ later)
              (exec acceptor port (deployed threads root prefix found))).connections)
        ≡ some (wire_of beast (deployed threads root prefix found).server h req (new_wire outcomes))
  unfolding exec
  exec-answers beast threads root prefix found acceptor port k outcomes before later req u h
        some_threads on keep keeps new once plain lit known legal clear answer =
      let server = (deployed threads root prefix found).server in
      run-alone boost beast server acceptor port k outcomes before later on
        (deployed-threads threads root prefix found some_threads) keep keeps new
      ∙ ap some (
          ap (λ xs. (do_connection boost beast xs server outcomes).wire) once
          ∙ do_connection_one beast req u server outcomes plain
          ∙ ap (λ s. s.send)
              (load_services-answers boost beast threads root prefix found req (new_wire outcomes) h
                lit known legal clear answer))
