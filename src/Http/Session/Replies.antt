-- ===== src/Http/Session/Replies.antt =====
-- A session answers once: what its reply calls leave behind.
use socker.Prelude.{
  ◌≡◌, refl, ◌⊎◌, inl, inr, true, false, some, [], ◌++◌, arith, if◌then◌else◌, ◌==◌, nat_eq,
  Bool-cases,
}
use socker.Assoc.{put}
use socker.Text.{Text, text_eq, bytes}
use socker.Http.Beast.{
  Request, Response, Beast, FileOpen, no_such_file, open_failed, opened, empty_body, file_body,
}
use socker.Http.Uri.{minetype}
use socker.Http.Session.{
  Session, Wire, default, to_int, send_message, reply, text_response, reply_text, reply_not_found,
  reply_server_error, file_fields, reply_file,
}

-- nothing was sent yet
pub record IsFresh (w : Wire) (s : Session) : Type 0 where
  pub unsent : s.replied ≡ false
  pub wire : s.send ≡ w
  pub status : s.rep_status_code ≡ 200

module _ (beast : Beast) where
  -- just the response `r` was sent, and the session reports its status and length
  pub record IsAnswered (w : Wire) (r : Response) (s : Session) : Type 0 where
    pub sent : s.replied ≡ true
    pub wire : s.send ≡ send_message beast r w
    pub status : s.rep_status_code ≡ r.result
    pub len : s.rep_content_len ≡ to_int (beast.payload_size r)

  -- nothing was sent, or one response was
  abbrev pub IsSession : Wire → Session → Type 0
  IsSession w s = IsFresh w s ⊎ ((r : Response) × IsAnswered w r s)

  pub reply-IsFresh :
      (w : Wire) (r : Response) (s : Session) → IsFresh w s → IsAnswered w r (reply beast r s)
  unfolding reply
  reply-IsFresh w r s h = ground arith

  pub reply-IsAnswered :
      (w : Wire) (r r' : Response) (s : Session) → IsAnswered w r s → reply beast r' s ≡ s
  unfolding reply
  reply-IsAnswered w r r' s h = rw h.sent

  -- Whatever was sent before, after a reply exactly one response was sent: the first one.
  pub reply_once :
      (w : Wire) (r : Response) (s : Session)
      → IsSession w s
      → (q : Response) × IsAnswered w q (reply beast r s)
  reply_once w r s (inl h) = (r, reply-IsFresh w r s h)
  reply_once w r s (inr (q, h)) = (q, rw (reply-IsAnswered w q r s h) h)

  -- the response that a file request is due, by what opening the file shows
  unfoldable pub file_response : FileOpen → Text → Text → Request → Response
  file_response no_such_file path name req =
      text_response beast default
        (bytes "The resource '" ++ (req.target ++ bytes "' was not found.")) 404 req
  file_response (open_failed message) path name req =
      text_response beast default (bytes "An error occurred: '" ++ (message ++ bytes "'.")) 500 req
  file_response (opened size) path name req = record {
    result = 200;
    version = req.version;
    fields =
        if req.method == 3
        then put (bytes "Content-Type") (minetype path)
            (put (bytes "Server") (bytes "Asula/1.0 HTTP Server, based on boost beast") [])
        else file_fields beast path name;
    content_length = some size;
    keep_alive = req.keep_alive;
    body = if req.method == 3 then empty_body else file_body path size;
  }

  -- a request for a file is one call of reply
  pub reply_file_lem :
      (path name : Text) (s : Session)
      → reply_file beast path name s
        ≡ reply beast (file_response (beast.open_file path) path name s.req) s
  unfolding reply_file reply_not_found reply_server_error reply_text file_response
  reply_file_lem path name s = go (beast.open_file path) refl
    where
      go :
          (o : FileOpen)
          → beast.open_file path ≡ o
          → reply_file beast path name s
            ≡ reply beast (file_response (beast.open_file path) path name s.req) s
      go no_such_file e = rw (e, reply_file, file_response)
      go (open_failed message) e = rw (e, reply_file, file_response)
      go (opened size) e = elim (Bool-cases (s.req.method == 3)) [
        | inl head ↦ rw (e, reply_file, file_response) (rw head)
        | inr other ↦ rw (e, reply_file, file_response) (rw other)
      ]
