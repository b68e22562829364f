-- ===== src/Http/Server/Failing.antt =====
-- The answer to a request whose hook throws, or does not reply.
use socker.Prelude.{◌≡◌, false, true, Option, none, some, ◌==◌, nat_eq, if_then, if_else}
use socker.Text.{Text, bytes}
use socker.Boost.{Boost}
use socker.Http.Beast.{Request, Response, Beast, string_body}
use socker.Http.Session.{Session, Wire, default, reply_text, reply_server_error, text_response}
use socker.Http.Session.Replies.{IsFresh, IsAnswered, reply-IsFresh}
use socker.Http.Registrar.{is_illegal, finish_request, process}
use socker.Http.Server.{Server, process_request}
use socker.Http.Server.Routed.{hooked, answered, handle_request-legal}

-- the text that tells of an exception, or of a hook that did not reply
abbrev pub told : Option Text → Text
told none = bytes "An error occurred: 'No reply'."
told (some what) = what

module _ (boost : Boost) (beast : Beast) where
  -- the response says that the server failed
  abbrev pub IsFailure : Text → Response → Type 0
  IsFailure text r = (r.result ≡ 500) × (r.body ≡ string_body text)

  text-IsFailure :
      (text : Text) (req : Request) → IsFailure text (text_response beast default text 500 req)
  unfolding text_response
  text-IsFailure text req = (beast.prepare_payload-result _, beast.prepare_payload-body _)

  answered-IsAnswered :
      (w : Wire) (r : Response) (s : Session)
      → IsAnswered beast w r s
      → IsAnswered beast w r (answered boost beast s)
  answered-IsAnswered w r s h = if_then (IsAnswered beast w r) s _ s.replied h.sent h

  finish_fails :
      (w : Wire) (s : Session) (e : Option Text)
      → IsFresh w s
      → (r : Response) × IsAnswered beast w r
          (answered boost beast (finish_request beast (true, (s, e))))
        × IsFailure (told e) r
  unfolding finish_request reply_text reply_server_error
  finish_fails w s none fresh = (
    text_response beast default (told none) 500 s.req,
    if_else (IsAnswered beast w _) s _ s.replied fresh.unsent (reply-IsFresh beast w _ s fresh),
    text-IsFailure (told none) s.req,
  )
  finish_fails w s (some what) fresh =
      let r = text_response beast default what 500 s.req in
      (r, answered-IsAnswered w r _ (reply-IsFresh beast w r s fresh), text-IsFailure what s.req)

  -- Let a request have a known method and a legal target, and a hook be run for it, that does not reply.
  -- Exactly one response is sent, a 500: with the what() of its exception as its text, if the hook
  -- throws, and else with the text that there was no reply.
  pub process_request-IsFailure :
      (server : Server) (req : Request) (wire : Wire) (s : Session) (e : Option Text)
      → (req.method == 0) ≡ false
      → is_illegal req.target ≡ false
      → process boost beast server.registrar (hooked boost beast server req wire) ≡ (true, (s, e))
      → IsFresh wire s
      → (r : Response) × IsAnswered beast wire r (process_request boost beast server req wire)
        × IsFailure (told e) r
  unfolding process_request
  process_request-IsFailure server req wire s e known legal ran fresh =
      rw (handle_request-legal boost beast server req wire known legal)
        (rw ran (finish_fails wire s e fresh))
