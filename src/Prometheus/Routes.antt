-- ===== src/Prometheus/Routes.antt =====
-- The routes of the services that are loaded: what the server's registrar then answers.
use socker.Prelude.{
  ◌==◌, ℕ, ◌≡◌, refl, sym, ap, ◌∙◌, inl, inr, true, false, Option, none, some, List, [], ◌∷◌, ◌++◌,
  map, arith, if◌then◌else◌, nat_eq, Bool-cases, Option-cases, All,
}
use socker.Boost.{Boost}
use socker.Text.{Text}
use socker.Context.{ServerContext, new_context, add_service}
use socker.Http.Beast.{Request, Beast}
use socker.Http.Session.{Wire}
use socker.Http.Server.Hooks.{lists, hook_all, hooks-refine}
use socker.Http.Server.Routed.{hooked, schema, answered, process_request-view}
use socker.Http.Route.{Route, split_url}
use socker.Http.Match.{is_fuzzy_schema}
use socker.Http.Registrar.{HookFunc, HandlerRegistrar, add, is_illegal, finish_request, run_hook}
use socker.Http.Registrar.Table.{
  Registration, Table, no_routes, replay, register_all, view, IsOrdered,
}
use socker.Http.Registrar.Refines.{IsLiteralRoute, register_all-refines}
use socker.Http.Server.{Server, new_server, process_request, hook, hook_method}
use socker.Prometheus.{
  Service, Prometheus, new_prometheus, set_prefix, DllLoadResult, load_failed, invalid_dll, loaded,
  full_url, hook_routes, register_service, load_services,
}

module _ (boost : Boost) where
  -- what a route asks of the registrar
  abbrev pub registration : Text → Route HookFunc → Registration
  registration prefix r = record {
    verb = boost.string_to_verb (boost.to_upper_copy r.method);
    target = full_url boost prefix r.url;
    func = r.handler;
  }

  -- the registrations of the services that are found and whose init succeeds, in order
  unfoldable pub registrations : Text → List DllLoadResult → ServerContext → List Registration
  registrations prefix [] context = []
  registrations prefix (load_failed ∷ found) context = registrations prefix found context
  registrations prefix (invalid_dll ∷ found) context = registrations prefix found context
  registrations prefix (loaded si ∷ found) context =
      let after = (si.init context).0 in
      let routes = map (registration prefix) si.routes in
      let added = registrations prefix found (add_service si.name si.id after) in
      let skipped = registrations prefix found after in
      if (si.init context).1 then routes ++ added else skipped

  hook_method-registrar :
      (prefix : Text) (r : Route HookFunc) (h : Option HookFunc) (server : Server)
      → (hook_method boost r.method (full_url boost prefix r.url) h server).0.registrar
        ≡ (add boost
            (boost.string_to_verb (boost.to_upper_copy r.method))
            (full_url boost prefix r.url)
            h
            server.registrar).0
  unfolding hook_method hook
  hook_method-registrar prefix r h server = refl

  add-null :
      (verb : ℕ) (target : Text) (r : HandlerRegistrar) → (add boost verb target none r).0 ≡ r
  unfolding add
  add-null verb target r = ground arith

  hook_routes-register_all :
      (prefix : Text) (rs : List (Route HookFunc)) (server : Server)
      → (hook_routes boost prefix rs server).0.registrar
        ≡ register_all boost (map (registration prefix) rs) server.registrar
  unfolding hook_routes register_all
  hook_routes-register_all prefix [] server = refl
  hook_routes-register_all prefix (r ∷ rs) server = elim (Option-cases r.handler) [
    | inl null ↦ rw null (
        hook_routes-register_all prefix rs server
        ∙ ap (register_all boost (map (registration prefix) rs))
            (sym (add-null _ _ server.registrar)))
    | inr (h, e) ↦ rw e (
        hook_routes-register_all prefix rs _
        ∙ ap (register_all boost (map (registration prefix) rs))
            (hook_method-registrar prefix r (some h) server))
  ]

  register_all-append :
      (gs hs : List Registration) (r : HandlerRegistrar)
      → register_all boost (gs ++ hs) r ≡ register_all boost hs (register_all boost gs r)
  unfolding register_all
  register_all-append [] hs r = refl
  register_all-append (g ∷ gs) hs r = register_all-append gs hs _

  register_all-nil : (r : HandlerRegistrar) → register_all boost [] r ≡ r
  unfolding register_all
  register_all-nil r = refl

  registered :
      (si : Service) (p : Prometheus)
      → (si.init p.context).1 ≡ true
      → ((register_service boost si p).0.prefix ≡ p.prefix)
        × ((register_service boost si p).0.context
            ≡ add_service si.name si.id (si.init p.context).0)
        × ((register_service boost si p).0.server.registrar
            ≡ register_all boost (map (registration p.prefix) si.routes) p.server.registrar)
  unfolding register_service
  registered si p ok = rw ok (refl, refl, hook_routes-register_all p.prefix si.routes p.server)

  refused :
      (si : Service) (p : Prometheus)
      → (si.init p.context).1 ≡ false
      → ((register_service boost si p).0.prefix ≡ p.prefix)
        × ((register_service boost si p).0.context ≡ (si.init p.context).0)
        × ((register_service boost si p).0.server.registrar ≡ p.server.registrar)
  unfolding register_service
  refused si p failed = rw failed (refl, refl, refl)

  abbrev Loaded : List DllLoadResult → Prometheus → Type 0
  Loaded found p =
      (load_services boost found p).server.registrar
      ≡ register_all boost (registrations p.prefix found p.context) p.server.registrar

  load_services-register_all : (found : List DllLoadResult) (p : Prometheus) → Loaded found p
  unfolding load_services registrations
  load_services-register_all [] p = sym (register_all-nil p.server.registrar)
  load_services-register_all (load_failed ∷ found) p = load_services-register_all found p
  load_services-register_all (invalid_dll ∷ found) p = load_services-register_all found p
  load_services-register_all (loaded si ∷ found) p =
      let ih = load_services-register_all found (register_service boost si p).0 in
      elim (Bool-cases (si.init p.context).1) [
        | inl ok ↦
            let (prefix, context, registrar) = registered si p ok in
            rw ok (rw (prefix, context, registrar) at ih ∙ sym (register_all-append _ _ _))
        | inr failed ↦
            let (prefix, context, registrar) = refused si p failed in
            rw failed (rw (prefix, context, registrar) at ih)
      ]

  -- a Prometheus with a prefix, before any service is loaded
  abbrev pub fresh : ℕ → (root prefix : Text) → Prometheus
  fresh threads root prefix = set_prefix prefix (new_prometheus boost threads root)

  fresh-keeps :
      (threads : ℕ) (root prefix : Text)
      → ((fresh threads root prefix).server ≡ hook_all boost [] (new_server boost root threads))
        × ((fresh threads root prefix).prefix ≡ prefix)
        × ((fresh threads root prefix).context ≡ new_context)
  unfolding set_prefix hook_all
  fresh-keeps threads root prefix = (refl, refl, refl)

  loaded-refines :
      (threads : ℕ) (root prefix : Text) (found : List DllLoadResult)
      → All (IsLiteralRoute boost) (registrations prefix found new_context)
      → (let r = (load_services boost found (fresh threads root prefix)).server.registrar in
          IsOrdered boost r.hooks
          × (view r
              ≡ replay boost (lists boost ∷ registrations prefix found new_context) no_routes))
  unfolding replay set_prefix hook_all
  loaded-refines threads root prefix found lit =
      let (ord, same) = hooks-refine boost root threads [] tt in
      let gs = registrations prefix found new_context in
      let (ord', all) =
        register_all-refines boost gs (new_server boost root threads).registrar lit ord in
      rw (load_services-register_all found (fresh threads root prefix))
        (ord', all ∙ ap (replay boost gs) same)

  -- After services were loaded into a new Prometheus with a prefix, their routes having no
  -- placeholders, a request with a known method and a legal target without brackets is answered by
  -- the first function for its verb and tokens among the list of the apis and the routes of the
  -- services that could be initialised, in order and with their full urls, if there is one: it is
  -- called once, on the session of the request with the arguments of its query, and what it leaves
  -- is the answer, but for the replies of status 500 that stand for an exception of the function and
  -- for a function that does not reply.
  pub load_services-answers :
      (beast : Beast) (threads : ℕ) (root prefix : Text) (found : List DllLoadResult)
      (req : Request) (wire : Wire) (h : HookFunc)
      → All (IsLiteralRoute boost) (registrations prefix found new_context)
      → (req.method == 0) ≡ false
      → is_illegal req.target ≡ false
      → is_fuzzy_schema boost (
          schema boost beast
            (load_services boost found (fresh threads root prefix)).server
            req
            wire)
        ≡ false
      → replay boost (lists boost ∷ registrations prefix found new_context) no_routes req.method (
          split_url boost (
            schema boost beast
              (load_services boost found (fresh threads root prefix)).server
              req
              wire))
        ≡ some h
      → process_request boost beast
          (load_services boost found (fresh threads root prefix)).server
          req
          wire
        ≡ answered boost beast (
            finish_request beast (
              true,
              run_hook beast
                  (load_services boost found (fresh threads root prefix)).server.registrar
                  (some h)
                  (hooked boost beast
                    (load_services boost found (fresh threads root prefix)).server
                    req
                    wire),
            ))
  load_services-answers beast threads root prefix found req wire h lit known legal plain answer =
      let server = (load_services boost found (fresh threads root prefix)).server in
      let (ord, same) = loaded-refines threads root prefix found lit in
      process_request-view boost beast server req wire h ord known legal plain (
        ap (λ (t : Table). t req.method (split_url boost (schema boost beast server req wire))) same
        ∙ answer)
