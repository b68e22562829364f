-- ===== src/Http/Server/Routed.antt =====
-- A request for a registered route, from the request to the session that answered it.
use socker.Prelude.{
  ◌≡◌, refl, ap, ◌∙◌, inl, inr, true, false, some, ◌==◌, nat_eq, Option-cases, if◌then◌else◌,
}
use socker.Text.{Text, bytes, find_first_of}
use socker.Boost.{Boost}
use socker.Http.Beast.{Request, Beast}
use socker.Http.Route.{split_url}
use socker.Http.Match.{is_fuzzy_schema}
use socker.Http.Session.{Session, Wire, new_session, reply_server_error}
use socker.Http.Arguments.{parse_arguments}
use socker.Http.Registrar.{HookFunc, is_illegal, finish_request, handle_request, process, run_hook}
use socker.Http.Registrar.Sets.{schema_of}
use socker.Http.Registrar.Table.{view, IsOrdered}
use socker.Http.Registrar.Views.{process-view}
use socker.Http.Server.{Server, process_request}

module _ (boost : Boost) (beast : Beast) where
  -- the text of a request that is matched
  abbrev pub schema : Server → Request → Wire → Text
  schema server req wire = schema_of (new_session boost server.doc_root req wire)

  -- the session that a hook sees
  abbrev pub hooked : Server → Request → Wire → Session
  hooked server req wire = parse_arguments boost (new_session boost server.doc_root req wire)

  -- the response for a hook that did not reply
  abbrev pub answered : Session → Session
  answered s = if s.replied then s else reply_server_error beast (bytes "No reply") s

  parse_arguments-keeps :
      (s : Session)
      → ((parse_arguments boost s).href ≡ s.href) × ((parse_arguments boost s).req ≡ s.req)
  unfolding parse_arguments
  parse_arguments-keeps s = elim (Option-cases (find_first_of b'?' s.href)) [
    | inl none' ↦ rw (none', parse_arguments) (refl, refl)
    | inr (pos, found) ↦ rw (found, parse_arguments) (refl, refl)
  ]

  new_session-req :
      (server : Server) (req : Request) (wire : Wire)
      → (new_session boost server.doc_root req wire).req ≡ req
  unfolding new_session
  new_session-req server req wire = refl

  pub handle_request-legal :
      (server : Server) (req : Request) (wire : Wire)
      → (req.method == 0) ≡ false
      → is_illegal req.target ≡ false
      → handle_request boost beast server.registrar (new_session boost server.doc_root req wire)
        ≡ finish_request beast (process boost beast server.registrar (hooked server req wire))
  unfolding handle_request new_session
  handle_request-legal server req wire known legal = rw known (rw legal refl)

  -- On a server whose registrar is in order, a request with a known method and a legal target
  -- without brackets, for whose verb and tokens the registrar's table has a function, is answered by
  -- that function: it is called once, on the session of the request with the arguments of its query,
  -- and what it leaves is the answer, but for the replies of status 500 that stand for an exception
  -- of the function and for a function that does not reply.
  pub process_request-view :
      (server : Server) (req : Request) (wire : Wire) (h : HookFunc)
      → IsOrdered boost server.registrar.hooks
      → (req.method == 0) ≡ false
      → is_illegal req.target ≡ false
      → is_fuzzy_schema boost (schema server req wire) ≡ false
      → view server.registrar req.method (split_url boost (schema server req wire)) ≡ some h
      → process_request boost beast server req wire
        ≡ answered (
            finish_request beast
              (true, run_hook beast server.registrar (some h) (hooked server req wire)))
  unfolding process_request
  process_request-view server req wire h ord known legal plain found =
      let s = new_session boost server.doc_root req wire in
      let (href, same) = parse_arguments-keeps s in
      ap answered (
        handle_request-legal server req wire known legal
        ∙ ap (finish_request beast) (
            process-view boost beast server.registrar (hooked server req wire) h ord (rw href plain)
              (rw href (rw same (rw (new_session-req server req wire) found)))))
