-- ===== src/Http/Registrar.antt =====
-- HandlerRegistrar::add and process, the hooks that a server stores, and Session::handleRequest of
-- Depends/Asula/Include/Asula/HttpServer.hpp.
pub mod Sets
pub mod Dispatch
pub mod Table
mod Insertion
pub mod Refines
pub mod Views
use mathlib.Core.List.{foldl}
use socker.Prelude.{
  ℕ, zero, suc, ◌-◌, ◌≡◌, Bool, true, false, not, ◌&&◌, ◌||◌, Option, none, some, List, [], ◌∷◌,
  ◌++◌, if◌then◌else◌, ltb, ◌==◌, nat_eq, is_empty, length,
}
use socker.Text.{Text, bytes, text_eq, find_first_of, substr_to, back, find}
use socker.Assoc.{Assoc}
use socker.Boost.{Boost}
use socker.Http.Beast.{Request, Response, Beast}
use socker.Http.Route.{HookFunctor, new_functor, functor_lt, is_null}
use socker.Http.Match.{MatchedResult, match}
use socker.Http.Session.{
  Session, ContextType, default, add_argument, reply, reply_text, reply_bad_request,
  reply_not_found, reply_unauthorized, reply_server_error, reply_file, reply_local_file,
}
use socker.Http.Arguments.{parse_arguments}

-- the calls by which a handler can change its session
pub data Call : Type 0 where
  send_reply : Response → Call
  send_text : ContextType → Text → (status : ℕ) → Call
  send_file : (path : Text) → (name : Text) → Call
  send_local_file : Call
  bad_request not_found server_error : Text → Call
  unauthorized : Call

-- What a handler does: calls, each of whose effects it can read, then a return or an exception
-- derived from std::exception, with its text. Other exceptions are not modelled.
pub data Program : Type 0 where
  finish : Program
  throw : Text → Program
  call : Call → (Session → Program) → Program

-- A callable that is not null: one of the application, or the one of Server::enableListApi.
pub data HookFunc : Type 0 where
  handler : (Session → Program) → HookFunc
  list_apis : HookFunc

-- hooks_, in the order of iteration: the verbs ascend
pub record HandlerRegistrar : Type 0 where
  pub hooks : List (ℕ × List (HookFunctor HookFunc))

abbrev pub no_hooks : HandlerRegistrar
no_hooks = record { hooks = [] }

-- a handler's end: the session as it leaves it, and what() of the exception if it threw
abbrev pub Outcome : Type 0
Outcome = Session × Option Text

-- std::set::emplace: the elements in order, and whether the new one was put in. Where the comparison
-- is a strict weak order the result is the standard's.
module _ {A : Type 0} (lt : A → A → Bool) where
  unfoldable pub emplace : A → List A → List A × Bool
  emplace a [] = (a ∷ [], true)
  emplace a (b ∷ bs) =
      let (rest, done) = emplace a bs in
      if lt b a then (b ∷ rest, done) else if lt a b then (a ∷ b ∷ bs, true) else (b ∷ bs, false)

module _ (boost : Boost) where
  -- hooks_[verb].emplace(f)
  unfoldable pub emplace_at :
      ℕ
      → HookFunctor HookFunc
      → List (ℕ × List (HookFunctor HookFunc))
      → List (ℕ × List (HookFunctor HookFunc)) × Bool
  emplace_at verb f [] = ((verb, f ∷ []) ∷ [], true)
  emplace_at verb f ((v, fs) ∷ hooks) =
      let (rest, done) = emplace_at verb f hooks in
      let (fs', fresh) = emplace (functor_lt boost) f fs in
      if v == verb
      then ((v, fs') ∷ hooks, fresh)
      else if ltb verb v
      then ((verb, f ∷ []) ∷ (v, fs) ∷ hooks, true)
      else ((v, fs) ∷ rest, done)

  -- add(verb, target, func)
  unfoldable pub add : ℕ → Text → Option HookFunc → HandlerRegistrar → HandlerRegistrar × Bool
  add verb target func r =
      if (verb == 0) || is_empty target || is_null func
      then (r, false)
      else let url = boost.to_lower_copy target in
        let (hooks, ok) = emplace_at verb (new_functor boost url func) r.hooks in
        (record { hooks = hooks }, ok)

-- hooks_.at(verb), none where hooks_.count(verb) is 0
unfoldable pub hooks_at :
    ℕ → List (ℕ × List (HookFunctor HookFunc)) → Option (List (HookFunctor HookFunc))
hooks_at verb [] = none
hooks_at verb ((v, fs) ∷ hooks) = if v == verb then some fs else hooks_at verb hooks

abbrev pub api_list : Text
api_list = bytes "/$apis"

-- std::setw(n): padded on the left
abbrev pad_left : ℕ → Text → Text
pad_left zero s = s
pad_left (suc k) s = b' ' ∷ pad_left k s

unfoldable pub setw : ℕ → Text → Text
setw n s = pad_left (n - length s) s

module _ (beast : Beast) where
  -- the text that the handler of enableListApi puts together
  unfoldable pub api_lines : ℕ → List (HookFunctor HookFunc) → Text
  api_lines verb [] = []
  api_lines verb (h ∷ hs) =
      (if h.url == api_list
        then []
        else setw 6 (beast.verb_name verb) ++ (bytes " " ++ (h.url ++ b'\n' ∷ [])))
      ++ api_lines verb hs

  unfoldable pub api_text : List (ℕ × List (HookFunctor HookFunc)) → Text
  api_text [] = []
  api_text ((verb, hs) ∷ hooks) = api_lines verb hs ++ api_text hooks

  unfoldable pub list_text : HandlerRegistrar → Text
  list_text r = let txt = api_text r.hooks in if is_empty txt then bytes "No apis" else txt

  unfoldable pub run_call : Call → Session → Session
  run_call (send_reply rep) s = reply beast rep s
  run_call (send_text type body status) s = reply_text beast type body status s
  run_call (send_file path name) s = reply_file beast path name s
  run_call send_local_file s = reply_local_file beast s
  run_call (bad_request why) s = reply_bad_request beast why s
  run_call (not_found what) s = reply_not_found beast what s
  run_call (server_error what) s = reply_server_error beast what s
  run_call unauthorized s = reply_unauthorized beast s

  unfoldable pub run_program : Program → Session → Outcome
  run_program finish s = (s, none)
  run_program (throw what) s = (s, some what)
  run_program (call c rest) s = run_program (rest (run_call c s)) (run_call c s)

  unfoldable pub run_hook : HandlerRegistrar → Option HookFunc → Session → Outcome
  run_hook r none s = (s, some (bytes "bad_function_call"))
  run_hook r (some (handler body)) s = run_program (body s) s
  run_hook r (some list_apis) s = (reply_text beast default (list_text r) 200 s, none)

unfoldable pub add_arguments : Assoc Text Text → Session → Session
add_arguments [] s = s
add_arguments ((key, val) ∷ args) s = add_arguments args (add_argument key val s)

-- url.empty() || url[0] != '/' || url.find("..") != npos
unfoldable pub is_illegal : Text → Bool
is_illegal [] = true
is_illegal (c ∷ url) =
    not (c == b'/') || (elim (find (bytes "..") (c ∷ url)) [ none ↦ false | some pos ↦ true ])

module _ (beast : Beast) where
  -- the part of handleRequest behind its checks
  unfoldable pub finish_request : Bool × Outcome → Session
  finish_request (true, (s, none)) = s
  finish_request (false, (s, none)) = reply_local_file beast s
  finish_request (ok, (s, some what)) = reply_text beast default what 500 s

module _ (boost : Boost) (beast : Beast) where
  -- process(session): whether a hook was run, and how it ended
  unfoldable pub process : HandlerRegistrar → Session → Bool × Outcome
  process r s = elim (hooks_at s.req.method r.hooks) [
    | none ↦ (false, (s, none))
    | some funcs ↦
        let schema = substr_to (find_first_of b'?' s.href) s.href in
        let ret = match boost schema funcs in
        let ran = run_hook beast r ret.func.func (add_arguments ret.args s) in
        if ret.ok then (true, ran) else (false, (s, none))
  ]

  unfoldable pub handle_request : HandlerRegistrar → Session → Session
  handle_request r s =
      if s.req.method == 0
      then reply_bad_request beast (bytes "Unknown HTTP-method") s
      else if is_illegal s.req.target
      then reply_bad_request beast (bytes "Illegal request-target") s
      else finish_request beast (process r (parse_arguments boost s))
