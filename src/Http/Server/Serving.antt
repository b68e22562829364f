-- ===== src/Http/Server/Serving.antt =====
-- What a server sends for a request: exactly one response.
use socker.Prelude.{refl, inl, inr, ◌++◌, if◌then◌else◌, nat_eq, if_then, if_else}
use socker.Boost.{Boost}
use socker.Text.{Text, text_eq, bytes}
use socker.Http.Beast.{Request, Response, Beast}
use socker.Http.Session.{
  Session, Wire, new_session, reply_server_error, reply_text, text_response, default,
}
use socker.Http.Session.Replies.{IsFresh, IsSession, IsAnswered, reply-IsFresh}
use socker.Http.Registrar.Dispatch.{handle_request-IsSession}
use socker.Http.Server.{Server, process_request}

module _ (boost : Boost) (beast : Beast) where
  new_session-IsFresh :
      (root : Text) (req : Request) (w : Wire) → IsFresh w (new_session boost root req w)
  unfolding new_session
  new_session-IsFresh root req w = record { unsent = refl; wire = refl; status = refl }

  answer_if_silent :
      (w : Wire) (s : Session)
      → IsSession beast w s
      → (r : Response) × IsAnswered beast w r
          (if s.replied then s else reply_server_error beast (bytes "No reply") s)
  unfolding reply_server_error reply_text
  answer_if_silent w s (inl h) = (
    text_response beast default (bytes "An error occurred: '" ++ (bytes "No reply" ++ bytes "'."))
        500 s.req,
    if_else (IsAnswered beast w _) s _ s.replied h.unsent (reply-IsFresh beast w _ s h),
  )
  answer_if_silent w s (inr (r, h)) = (r, if_then (IsAnswered beast w r) s _ s.replied h.sent h)

  -- Every request gets exactly one response, whatever the hooks do: return without a reply, reply
  -- several times, or throw.
  pub process_request-IsAnswered :
      (server : Server) (req : Request) (w : Wire)
      → (r : Response) × IsAnswered beast w r (process_request boost beast server req w)
  unfolding process_request
  process_request-IsAnswered server req w = answer_if_silent w _ (
      handle_request-IsSession boost beast w server.registrar _
        (inl (new_session-IsFresh server.doc_root req w)))
