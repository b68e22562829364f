-- ===== src/Tests/Tables.antt =====
-- Tests of the registrar as a table of routes, of the services loaded into it, and of decoded urls.
use socker.Prelude.{◌*◌, ◌≤◌, ◌≡◌, refl, true, some, List, [], ◌∷◌, arith, length, All}
use socker.Assoc.{get, put}
use socker.Boost.Reference.{reference}
use socker.Text.{
  find, bytes, text_eq, text_beq, is_prefix, has_suffix, contains_sub, find_first_of, split_on,
  merge_adjacent, any_of, tolower, toupper, text_lt, lex,
}
use socker.Http.Uri.{decode_uri, decode_loop, decode_char}
use socker.Http.Uri.Bounds.{IsByte, length-decode_uri}
use socker.Http.Route.{new_functor, is_fuzzy, split_url, same_functor, same_tokens, functor_lt}
use socker.Http.Match.{is_fuzzy_schema}
use socker.Http.Beast.{Request}
use socker.Http.Session.{new_session}
use socker.Http.Registrar.{
  is_illegal, finish_request, HookFunc, handler, finish, no_hooks, add, emplace_at, emplace,
  hooks_at, run_hook,
}
use socker.Http.Registrar.Table.{
  Registration, replay, register_all, insert, tokens_beq, tokens_eq, view, look, lookup, IsOrdered,
}
use socker.Http.Registrar.Refines.{IsLiteralRoute, register_all-refines}
use socker.Context.{add_service}
use socker.Prometheus.{
  Service, DllLoadResult, load_failed, loaded, load_services, set_prefix, register_service,
  hook_routes, full_url, slashed, is_kept,
}
use socker.Http.Server.{Server, new_server, process_request, hook, hook_method}
use socker.Http.Server.Routed.{hooked, answered}
use socker.Http.Server.Hooks.{hook_all, new_server-answers}
use socker.Prometheus.Routes.{registrations}
use socker.Tests.Requests.{beast, get_request, idle}

abbrev pub hook_fn : HookFunc
hook_fn = handler (λ s. finish)

abbrev registration : Registration
registration = record { verb = 2; target = bytes "/Api"; func = some hook_fn }

-- the second is refused, the third has the tokens of the first
abbrev calls : List Registration
calls =
    registration
    ∷ record { verb = 0; target = bytes "/b"; func = some hook_fn }
    ∷ record { verb = 2; target = bytes "/api/"; func = some hook_fn }
    ∷ []

tables_open : Unit {0}
unfolding new_functor split_url is_fuzzy is_prefix has_suffix contains_sub find_first_of split_on
    merge_adjacent any_of tolower text_lt text_beq is_fuzzy_schema new_session register_all add
    emplace_at emplace hooks_at look lookup tokens_beq replay insert functor_lt same_functor
    same_tokens lex registrations full_url slashed add_service put get toupper decode_uri
    decode_loop decode_char new_server is_kept is_illegal find load_services register_service
    hook_routes hook_method hook set_prefix hook_all
tables_open = tt

calls-IsLiteralRoute : All (IsLiteralRoute reference) calls
unfolding tables_open
calls-IsLiteralRoute = ((refl, tt), ((refl, tt), ((refl, tt), tt)))

register_all-refines_example :
    IsOrdered reference (register_all reference calls no_hooks).hooks
    × (view (register_all reference calls no_hooks) ≡ replay reference calls (view no_hooks))
register_all-refines_example = register_all-refines reference calls no_hooks calls-IsLiteralRoute tt

abbrev api_request : Request
api_request = get_request (bytes "/API?x=1") true

abbrev api_server : Server
api_server = hook_all reference calls (new_server reference (bytes "./www") 1)

new_server-answers_example :
    process_request reference beast api_server api_request idle
    ≡ answered reference beast (
        finish_request beast (
          true,
          run_hook beast api_server.registrar
              (some hook_fn)
              (hooked reference beast api_server api_request idle),
        ))
unfolding tables_open
new_server-answers_example =
    new_server-answers reference beast (bytes "./www") 1 calls api_request idle hook_fn
      calls-IsLiteralRoute refl refl refl refl

abbrev pub service : Service
service = record {
  id = 1;
  name = bytes "list";
  init = λ context. (context, true);
  routes = record { method = bytes "get"; url = bytes "Api"; handler = some hook_fn } ∷ [];
}

abbrev pub found : List DllLoadResult
found = load_failed ∷ loaded service ∷ []

abbrev pub prefixed_request : Request
prefixed_request = get_request (bytes "/v1/API?x=1") true

bytes_of_url : All IsByte (bytes "/a%20b")
bytes_of_url =
    (omega arith, (omega arith, (omega arith, (omega arith, (omega arith, (omega arith, tt))))))

length-decode_uri_example :
    (length (decode_uri reference (bytes "/a%20b")) ≤ 6)
    × (6 ≤ 3 * length (decode_uri reference (bytes "/a%20b")))
    × All IsByte (decode_uri reference (bytes "/a%20b"))
length-decode_uri_example = length-decode_uri reference (bytes "/a%20b") bytes_of_url
