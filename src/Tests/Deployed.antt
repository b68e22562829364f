-- ===== src/Tests/Deployed.antt =====
-- A test of services that are loaded and served.
use socker.Prelude.{◌≡◌, ◌++◌, refl, none, some, List, [], ◌∷◌, arith, nat_eq}
use mathlib.Core.Option
use socker.Assoc
use socker.Assoc.{get, put}
use socker.Boost.Reference.{reference}
use socker.Text.{
  bytes, text_eq, text_beq, is_prefix, has_suffix, contains_sub, find_first_of, find, split_on,
  merge_adjacent, any_of, tolower, toupper, text_lt, lex,
}
use socker.Context.{add_service}
use socker.Http.Uri.{decode_uri, decode_loop, decode_char}
use socker.Http.Route.{new_functor, is_fuzzy, split_url, same_functor, same_tokens, functor_lt}
use socker.Http.Match.{is_fuzzy_schema}
use socker.Http.Session.{new_session}
use socker.Http.Registrar.{is_illegal, add, emplace_at, emplace}
use socker.Http.Registrar.Table.{tokens_beq, replay, insert}
use socker.Http.Server.{received, new_server, hook, hook_method, listen_port}
use socker.Http.System.{
  Acceptor, is_listening, accepted, Event, accepts, reads, new_wire, start, step, run, accept_one,
}
use socker.Http.System.Single.{reads_of}
use socker.Prometheus.{
  load_services, register_service, hook_routes, set_prefix, full_url, slashed, is_kept, exec,
}
use socker.Prometheus.Routes.{registrations}
use socker.Prometheus.Deployed.{deployed, wire_of, exec-answers}
use socker.Tests.Requests.{beast, no_upgrade}
use socker.Tests.Tables.{found, hook_fn, prefixed_request}

abbrev acceptor : Acceptor
acceptor = record { opened = none; set_option = none; bind = none; listen = none }

abbrev others : List Event
others = accepts (accepted 1) [] ∷ []

abbrev asks : List Event
asks =
    reads 1 (received prefixed_request no_upgrade)
    ∷ reads 2 (received prefixed_request no_upgrade)
    ∷ []

deployed_open : Unit {0}
unfolding new_functor split_url is_fuzzy is_prefix has_suffix contains_sub find_first_of split_on
    merge_adjacent any_of tolower text_lt text_beq is_fuzzy_schema new_session add emplace_at
    emplace tokens_beq replay insert functor_lt same_functor same_tokens lex registrations full_url
    slashed add_service put get toupper decode_uri decode_loop decode_char new_server is_kept
    is_illegal find load_services register_service hook_routes hook_method hook set_prefix
    listen_port is_listening start step run accept_one exec reads_of
deployed_open = tt

two_is_fresh :
    Assoc.get 2
      (run reference beast others
        (exec acceptor none (deployed reference 1 (bytes "./www") (bytes "/v1") found))).connections
    ≡ none
unfolding deployed_open
two_is_fresh = refl

exec-answers_example :
    Option.map
      (λ c. c.wire)
      (Assoc.get 2
        (run reference beast (others ++ accepts (accepted 2) [] ∷ asks) (
          exec acceptor none
            (deployed reference 1 (bytes "./www") (bytes "/v1") found))).connections)
    ≡ some (
        wire_of reference beast
          (deployed reference 1 (bytes "./www") (bytes "/v1") found).server
          hook_fn
          prefixed_request
          (new_wire []))
unfolding deployed_open
exec-answers_example =
    exec-answers reference beast 1 (bytes "./www") (bytes "/v1") found acceptor none 2 [] others
      asks prefixed_request no_upgrade hook_fn (omega arith) refl (tt, tt) (tt, (tt, tt))
      two_is_fresh refl refl ((refl, (refl, tt)), tt) refl refl refl refl
