-- ===== src/Http/Server/Hooks.antt =====
-- A new server and the hooks that are registered on it.
use socker.Prelude.{ℕ, ◌≡◌, refl, ap, ◌∙◌, true, false, some, List, [], ◌∷◌, ◌==◌, nat_eq, All}
use socker.Text.{Text, bytes, text_eq, tolower, split_on, any_of, is_prefix, has_suffix}
use socker.Boost.{Boost}
use socker.Http.Beast.{Request, Beast}
use socker.Http.Route.{new_functor, split_url, is_fuzzy, erase_empty}
use socker.Http.Route.Split.{split_url_lem}
use socker.Text.Laws.{before}
use socker.Http.Match.{is_fuzzy_schema}
use socker.Http.Session.{Wire}
use socker.Http.Registrar.{
  HookFunc, no_hooks, list_apis, api_list, is_illegal, finish_request, run_hook,
}
use socker.Http.Registrar.Table.{
  Registration, Table, no_routes, tokens_of, replay, register_all, view, look, IsOrdered,
}
use socker.Http.Registrar.Refines.{IsLiteralRoute, register_all-refines}
use socker.Http.Server.{Server, new_server, hook, process_request}
use socker.Http.Server.Routed.{schema, hooked, answered, process_request-view}

module _ (boost : Boost) where
  -- calls of hook, one after the other
  unfoldable pub hook_all : List Registration → Server → Server
  hook_all [] server = server
  hook_all (g ∷ gs) server = hook_all gs (hook boost g.verb g.target g.func server).0

  -- the registration that a new server makes itself
  abbrev pub lists : Registration
  lists = record {
    verb = boost.string_to_verb (boost.to_upper_copy (bytes "GET"));
    target = api_list;
    func = some list_apis;
  }

  lists-tokens : tokens_of boost lists ≡ bytes "$apis" ∷ []
  unfolding new_functor before split_on any_of tolower erase_empty
  lists-tokens =
      rw (split_url_lem boost _)
        (rw (boost.to_lower_copy_lem _) (rw (boost.to_lower_copy_lem _) refl))

  plain_token : is_fuzzy boost (bytes "$apis") ≡ false
  unfolding is_fuzzy is_prefix has_suffix
  plain_token = rw (boost.starts_with_lem _ _) (rw (boost.starts_with_lem _ _) refl)

  hook_all-registrar :
      (gs : List Registration) (server : Server)
      → (hook_all gs server).registrar ≡ register_all boost gs server.registrar
  unfolding hook_all hook register_all
  hook_all-registrar [] server = refl
  hook_all-registrar (g ∷ gs) server = hook_all-registrar gs _

  new_server-registrar :
      (root : Text) (threads : ℕ)
      → (new_server boost root threads).registrar ≡ register_all boost (lists ∷ []) no_hooks
  unfolding new_server register_all
  new_server-registrar root threads = refl

  api_list-IsLiteralRoute : IsLiteralRoute boost lists
  api_list-IsLiteralRoute = rw lists-tokens (plain_token, tt)

  view-no_hooks : view no_hooks ≡ no_routes
  unfolding look
  view-no_hooks = refl

  pub hooks-refine :
      (root : Text) (threads : ℕ) (gs : List Registration)
      → All (IsLiteralRoute boost) gs
      → IsOrdered boost (hook_all gs (new_server boost root threads)).registrar.hooks
        × (view (hook_all gs (new_server boost root threads)).registrar
            ≡ replay boost (lists ∷ gs) no_routes)
  unfolding register_all
  hooks-refine root threads gs lit =
      let registrar : (hook_all gs (new_server boost root threads)).registrar
          ≡ register_all boost (lists ∷ gs) no_hooks =
        hook_all-registrar gs (new_server boost root threads)
        ∙ ap (register_all boost gs) (new_server-registrar root threads) in
      let (ord, same) =
        register_all-refines boost (lists ∷ gs) no_hooks (api_list-IsLiteralRoute, lit) tt in
      rw registrar (ord, same ∙ ap (replay boost (lists ∷ gs)) view-no_hooks)

  -- On a new server on which hooks were registered, none with a placeholder, a request with a known
  -- method and a legal target without brackets is answered by the first function that was registered
  -- for its verb and tokens, the list of the apis being registered before all, if there is one: it is
  -- called once, on the session of the request with the arguments of its query, and what it leaves
  -- is the answer, but for the replies of status 500 that stand for an exception of the function and
  -- for a function that does not reply.
  pub new_server-answers :
      (beast : Beast) (root : Text) (threads : ℕ) (gs : List Registration) (req : Request)
      (wire : Wire) (h : HookFunc)
      → All (IsLiteralRoute boost) gs
      → (req.method == 0) ≡ false
      → is_illegal req.target ≡ false
      → is_fuzzy_schema boost
          (schema boost beast (hook_all gs (new_server boost root threads)) req wire)
        ≡ false
      → replay boost (lists ∷ gs) no_routes req.method (
          split_url boost
            (schema boost beast (hook_all gs (new_server boost root threads)) req wire))
        ≡ some h
      → process_request boost beast (hook_all gs (new_server boost root threads)) req wire
        ≡ answered boost beast (
            finish_request beast (
              true,
              run_hook beast
                  (hook_all gs (new_server boost root threads)).registrar
                  (some h)
                  (hooked boost beast (hook_all gs (new_server boost root threads)) req wire),
            ))
  new_server-answers beast root threads gs req wire h lit known legal plain answer =
      let server = hook_all gs (new_server boost root threads) in
      let (ord, same) = hooks-refine root threads gs lit in
      process_request-view boost beast server req wire h ord known legal plain (
        ap (λ (t : Table). t req.method (split_url boost (schema boost beast server req wire))) same
        ∙ answer)
