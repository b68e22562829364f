-- ===== src/Tests/Requests.antt =====
-- Tests of sessions, hooks and connections.
use socker.Prelude.{
  ℕ, ◌≡◌, ◌≢◌, All, nat_eq, refl, Bool, true, false, none, some, List, [], ◌∷◌, arith, length,
  if◌then◌else◌, ◌==◌,
}
use socker.Assoc.{get, put}
use socker.Boost.Reference.{reference}
use socker.Text.{
  Text, bytes, text_eq, text_ne, text_beq, is_prefix, has_suffix, contains_sub, find_first_of, find,
  split_on, merge_adjacent, any_of, tolower, toupper, text_lt, rfind,
}
use socker.Http.Beast.{
  Request, Response, Beast, no_such_file, opened, string_body, empty_body, file_body,
}
use socker.Http.Uri.{decode_uri, decode_loop, decode_char, minetype, cat_path}
use socker.Http.Route.{
  HookFunctor, new_functor, is_fuzzy, split_url, same_functor, same_tokens, functor_lt,
}
use socker.Http.Match.{match, consider, weigh, weigh_tokens, is_fuzzy_schema}
use socker.Http.Session.{
  Session, Wire, new_session, local_path, reply_local_file, reply_not_found, reply_bad_request,
  reply, reply_file, reply_text, send_message, text_response,
}
use socker.Http.Session.Replies.{IsFresh, IsAnswered}
use socker.Http.Session.Files.{IsFileReply, reply_file-IsFileReply}
use socker.Http.Arguments.{parse_query, parse_char, store_pair, parse_arguments}
use socker.Http.Arguments.RoundTrip.{render, put_pairs, parse_query-render}
use socker.Http.Registrar.{
  HookFunc, handler, finish, throw, run_program, add_arguments, HandlerRegistrar, no_hooks, add,
  emplace_at, emplace, hooks_at, is_illegal, handle_request, process, run_hook, finish_request,
}
use socker.Http.Server.{
  Server, Upgrade, Incoming, received, new_server, process_request, serve_connection,
}
use socker.Http.Server.Serving.{process_request-IsAnswered}
use socker.Http.Server.Connection.{Serves, serve_connection-Serves}
use socker.Http.Server.Routed.{hooked}
use socker.Http.Server.Failing.{IsFailure, process_request-IsFailure}
use socker.Http.Server.Files.{local_path_has_no_dots}

abbrev sizes : Response → ℕ
sizes r = elim r.body [ string_body t ↦ length t | empty_body ↦ 0 | file_body p n ↦ n ]

-- a Beast that closes on requests without keep-alive, over a directory with one file
abbrev pub beast : Beast
beast = record {
  need_eof = λ r. if r.keep_alive then false else true;
  payload_size = sizes;
  prepare_payload = λ r. r;
  prepare_payload-result = λ r. refl;
  prepare_payload-body = λ r. refl;
  open_file = λ path. if path == bytes "./www/a.txt" then opened 3 else no_such_file;
  is_upgrade = λ req. false;
  verb_name = λ verb. bytes "GET";
}

abbrev pub get_request : Text → Bool → Request
get_request target keep_alive = record {
  method = 2;
  method_string = bytes "GET";
  target = target;
  version = 11;
  keep_alive = keep_alive;
  body = [];
}

abbrev pub idle : Wire
idle = record { close = false; ec = none; written = []; outcomes = [] }

abbrev pub server : Server
server = new_server reference (bytes "./www") 1

abbrev pub no_upgrade : Upgrade
no_upgrade = record { stream = 0; accepted = none; turns = [] }

requests_open : Unit {0}
unfolding new_functor split_url is_fuzzy same_functor functor_lt match consider weigh weigh_tokens
    is_fuzzy_schema is_prefix has_suffix contains_sub find_first_of find split_on merge_adjacent
    any_of tolower toupper text_lt text_beq put get same_tokens new_server process_request
    serve_connection handle_request process run_hook add hooks_at emplace_at emplace is_illegal
    new_session decode_uri decode_loop decode_char reply_file reply_text reply send_message
    text_response parse_query parse_char store_pair parse_arguments minetype cat_path rfind
    finish_request reply_local_file reply_not_found reply_bad_request
requests_open = tt

abbrev status_of : Text → ℕ
status_of target =
    (process_request reference beast server (get_request target true) idle).rep_status_code

request_tests :
    (status_of (bytes "/a.txt") ≡ 200)
    × (status_of (bytes "/b.txt") ≡ 404)
    × (status_of (bytes "/../a.txt") ≡ 400)
unfolding requests_open
request_tests = (refl, refl, refl)

process_request-IsAnswered_example :
    (r : Response) × IsAnswered beast idle r
      (process_request reference beast server (get_request (bytes "/a.txt") true) idle)
process_request-IsAnswered_example =
    process_request-IsAnswered reference beast server (get_request (bytes "/a.txt") true) idle

abbrev incoming : List Incoming
incoming =
    received (get_request (bytes "/a.txt") true) no_upgrade
    ∷ received (get_request (bytes "/b.txt") false) no_upgrade
    ∷ received (get_request (bytes "/a.txt") true) no_upgrade
    ∷ []

serve_connection-Serves_example :
    Serves reference beast server incoming idle
      (serve_connection reference beast incoming server idle).wire
serve_connection-Serves_example = serve_connection-Serves reference beast incoming server idle

local_path_has_no_dots_example :
    find
      (bytes "..")
      (local_path (new_session reference (bytes "./www") (get_request (bytes "/d/") true) idle))
    ≡ none
unfolding requests_open
local_path_has_no_dots_example =
    local_path_has_no_dots reference (bytes "./www") (get_request (bytes "/d/") true) idle refl refl

abbrev fresh : Session
fresh = new_session reference (bytes "./www") (get_request (bytes "a") true) idle

fresh-IsFresh : IsFresh idle fresh
unfolding requests_open
fresh-IsFresh = record { unsent = refl; wire = refl; status = refl }

no_slash_in_name : All (λ x. x ≢ b'/') (bytes "a.txt")
no_slash_in_name = ground arith

reply_file-IsFileReply_example :
    (r : Response) × IsAnswered beast idle r (reply_file beast (bytes "./www/a.txt") [] fresh)
    × IsFileReply
        (bytes "./www")
        (bytes "a.txt")
        []
        fresh.req
        (beast.open_file (bytes "./www/a.txt"))
        r
reply_file-IsFileReply_example =
    reply_file-IsFileReply (bytes "./www") (bytes "a.txt") [] beast idle fresh no_slash_in_name
      fresh-IsFresh

abbrev pairs : List (Text × Text)
pairs = (bytes "A", bytes "1") ∷ (bytes "b", bytes "") ∷ []

parse_query-render_example : parse_query reference (render pairs) ≡ put_pairs reference pairs []
parse_query-render_example = parse_query-render reference pairs (
  (text_ne (bytes "A") [] (unfold text_beq in refl), omega arith, omega arith),
  ((text_ne (bytes "b") [] (unfold text_beq in refl), omega arith, omega arith), tt),
)

abbrev hook_fn : HookFunc
hook_fn = handler (λ s. finish)

abbrev added : HandlerRegistrar × Bool
added = add reference 2 (bytes "/Api") (some hook_fn) no_hooks

abbrev api_functor : HookFunctor HookFunc
api_functor = new_functor reference (bytes "/api") (some hook_fn)

abbrev api_session : Session
api_session = new_session reference (bytes "./www") (get_request (bytes "/API?x=1") true) idle

-- a server with a hook that throws
abbrev thrower : HookFunc
thrower = handler (λ s. throw (bytes "boom"))

abbrev throwing : Server
throwing = record server { registrar = (add reference 2 (bytes "/api") (some thrower) no_hooks).0 }

abbrev boom_session : Session
boom_session = hooked reference beast throwing (get_request (bytes "/api") true) idle

it_throws :
    process reference beast throwing.registrar boom_session
    ≡ (true, (boom_session, some (bytes "boom")))
unfolding requests_open run_program add_arguments
it_throws = refl

boom_session-IsFresh : IsFresh idle boom_session
unfolding requests_open
boom_session-IsFresh = record { unsent = refl; wire = refl; status = refl }

process_request-IsFailure_example :
    (r : Response) × IsAnswered beast idle r
      (process_request reference beast throwing (get_request (bytes "/api") true) idle)
    × IsFailure reference beast (bytes "boom") r
unfolding requests_open
process_request-IsFailure_example =
    process_request-IsFailure reference beast throwing (get_request (bytes "/api") true) idle
      boom_session (some (bytes "boom")) refl refl it_throws boom_session-IsFresh
