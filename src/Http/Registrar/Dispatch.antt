-- ===== src/Http/Registrar/Dispatch.antt =====
-- What a request can come to: handlers of every kind answer at most once, and the checks before them.
use socker.Prelude.{
  ◌≡◌, refl, ◌⊎◌, inl, inr, Bool, true, false, Option, none, some, [], ◌∷◌, arith, ◌==◌, nat_eq,
  Bool-cases, Option-cases,
}
use socker.Assoc.{Assoc, put}
use socker.Boost.{Boost}
use socker.Text.{Text, text_eq, find_first_of, substr_to}
use socker.Http.Beast.{Response, Beast}
use socker.Http.Match.{match}
use socker.Http.Session.{
  Session, Wire, text_response, reply, reply_text, add_argument, reply_bad_request, reply_not_found,
  reply_unauthorized, reply_server_error, reply_local_file,
}
use socker.Http.Session.Replies.{
  IsFresh, IsSession, IsAnswered, reply_once, reply-IsFresh, reply_file_lem,
}
use socker.Http.Arguments.{parse_arguments}
use socker.Http.Registrar.{
  Call, send_reply, send_text, send_file, send_local_file, bad_request, not_found, server_error,
  unauthorized, Program, finish, throw, call, HookFunc, handler, list_apis, HandlerRegistrar,
  Outcome, run_call, run_program, run_hook, add_arguments, process, finish_request, is_illegal,
  handle_request, hooks_at,
}

module _ (beast : Beast) where
  -- every call of a handler sends through `reply`
  run_call-reply :
      (c : Call) (s : Session) → (r : Response) × (run_call beast c s ≡ reply beast r s)
  unfolding run_call reply_text reply_bad_request reply_not_found reply_server_error
      reply_unauthorized reply_local_file
  run_call-reply (send_reply rep) s = (rep, refl)
  run_call-reply (send_text type body status) s = (_, refl)
  run_call-reply (send_file path name) s = (_, reply_file_lem beast path name s)
  run_call-reply send_local_file s = (_, reply_file_lem beast _ [] s)
  run_call-reply (bad_request why) s = (_, refl)
  run_call-reply (not_found what) s = (_, refl)
  run_call-reply (server_error what) s = (_, refl)
  run_call-reply unauthorized s = (_, refl)

  reply-IsSession :
      (w : Wire) (r : Response) (s : Session)
      → IsSession beast w s
      → IsSession beast w (reply beast r s)
  reply-IsSession w r s h = inr (reply_once beast w r s h)

  run_program-IsSession :
      (w : Wire) (p : Program) (s : Session)
      → IsSession beast w s
      → IsSession beast w (run_program beast p s).0
  unfolding run_program
  run_program-IsSession w finish s h = h
  run_program-IsSession w (throw what) s h = h
  run_program-IsSession w (call c rest) s h =
      let (r, e) = run_call-reply c s in
      run_program-IsSession w (rest (run_call beast c s)) (run_call beast c s)
        (rw e (reply-IsSession w r s h))

  run_hook-IsSession :
      (w : Wire) (r : HandlerRegistrar) (f : Option HookFunc) (s : Session)
      → IsSession beast w s
      → IsSession beast w (run_hook beast r f s).0
  unfolding run_hook reply_text
  run_hook-IsSession w r none s h = h
  run_hook-IsSession w r (some (handler body)) s h = run_program-IsSession w (body s) s h
  run_hook-IsSession w r (some list_apis) s h = reply-IsSession w _ s h

  IsSession-args :
      (w : Wire) (s : Session) (a : Assoc Text Text)
      → IsSession beast w s
      → IsSession beast w (record s { args = a })
  IsSession-args w s a (inl h) =
      inl (record { unsent = h.unsent; wire = h.wire; status = h.status })
  IsSession-args w s a (inr (r, h)) =
      inr (r, record { sent = h.sent; wire = h.wire; status = h.status; len = h.len })

  add_arguments-IsSession :
      (w : Wire) (args : Assoc Text Text) (s : Session)
      → IsSession beast w s
      → IsSession beast w (add_arguments args s)
  unfolding add_arguments add_argument
  add_arguments-IsSession w [] s h = h
  add_arguments-IsSession w ((k, v) ∷ args) s h =
      add_arguments-IsSession w args _ (IsSession-args w s (put k v s.args) h)

module _ (boost : Boost) (beast : Beast) where
  process-IsSession :
      (w : Wire) (r : HandlerRegistrar) (s : Session)
      → IsSession beast w s
      → IsSession beast w (process boost beast r s).1.0
  unfolding process
  process-IsSession w r s h = elim (Option-cases (hooks_at s.req.method r.hooks)) [
    | inl e ↦ rw (e, process) h
    | inr (funcs, e) ↦
        let ret = match boost (substr_to (find_first_of b'?' s.href) s.href) funcs in
        elim (Bool-cases ret.ok) [
          | inl found ↦
              rw (e, process)
                (rw found (
                  run_hook-IsSession beast w r ret.func.func _
                    (add_arguments-IsSession beast w ret.args s h)))
          | inr missed ↦ rw (e, process) (rw missed h)
        ]
  ]

  finish_request-IsSession :
      (w : Wire) (o : Bool × Outcome)
      → IsSession beast w o.1.0
      → IsSession beast w (finish_request beast o)
  unfolding finish_request reply_local_file reply_text
  finish_request-IsSession w (true, (s, none)) h = h
  finish_request-IsSession w (false, (s, none)) h =
      rw (reply_file_lem beast _ [] s) (reply-IsSession beast w _ s h)
  finish_request-IsSession w (true, (s, some what)) h = reply-IsSession beast w _ s h
  finish_request-IsSession w (false, (s, some what)) h = reply-IsSession beast w _ s h

  parse_arguments-IsSession :
      (w : Wire) (s : Session) → IsSession beast w s → IsSession beast w (parse_arguments boost s)
  unfolding parse_arguments
  parse_arguments-IsSession w s h = elim (Option-cases (find_first_of b'?' s.href)) [
    | inl e ↦ rw (e, parse_arguments) (IsSession-args beast w s [] h)
    | inr (pos, e) ↦ rw (e, parse_arguments) (IsSession-args beast w s _ h)
  ]

  pub handle_request-IsSession :
      (w : Wire) (r : HandlerRegistrar) (s : Session)
      → IsSession beast w s
      → IsSession beast w (handle_request boost beast r s)
  unfolding handle_request reply_bad_request reply_text
  handle_request-IsSession w r s h = elim (Bool-cases (s.req.method == 0)) [
    | inl e ↦ rw e (reply-IsSession beast w _ s h)
    | inr e ↦ rw e (elim (Bool-cases (is_illegal s.req.target)) [
      | inl i ↦ rw i (reply-IsSession beast w _ s h)
      | inr i ↦
          rw i (
            finish_request-IsSession w _
              (process-IsSession w r _ (parse_arguments-IsSession w s h)))
    ])
  ]

  -- A request with an unknown method or an illegal target is answered by 400, and no hook is asked.
  pub handle_request_refuses :
      (w : Wire) (r : HandlerRegistrar) (s : Session)
      → IsFresh w s
      → (s.req.method ≡ 0) ⊎ (is_illegal s.req.target ≡ true)
      → (q : Response) × IsAnswered beast w q (handle_request boost beast r s) × (q.result ≡ 400)
  unfolding handle_request reply_bad_request reply_text text_response
  handle_request_refuses w r s h bad = elim (Bool-cases (s.req.method == 0)) [
    | inl e ↦ rw e (_, reply-IsFresh beast w _ s h, beast.prepare_payload-result _)
    | inr e ↦
        rw e (rw (illegal bad e) (_, reply-IsFresh beast w _ s h, beast.prepare_payload-result _))
  ]
    where
      illegal :
          (s.req.method ≡ 0) ⊎ (is_illegal s.req.target ≡ true)
          → (s.req.method == 0) ≡ false
          → is_illegal s.req.target ≡ true
      illegal (inl m) e = absurd (ground arith)
      illegal (inr i) e = i
