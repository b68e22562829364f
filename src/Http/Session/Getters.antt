-- ===== src/Http/Session/Getters.antt =====
-- What a handler reads of its Session, in Depends/Asula/Include/Asula/HttpServer.hpp.
use socker.Prelude.{ℕ, ◌≡◌}
use socker.Text.{Text}
use socker.Assoc.{Assoc}
use socker.Http.Beast.{Request, Response, Beast}
use socker.Http.Session.{Session, Wire, to_int, send_message, reply}
use socker.Http.Session.Replies.{IsFresh, reply-IsFresh, reply-IsAnswered}

abbrev pub request : Session → Request
request s = s.req

abbrev pub method : Session → Text
method s = s.req.method_string

abbrev pub href : Session → Text
href s = s.href

abbrev pub request_body : Session → Text
request_body s = s.req.body

abbrev pub args : Session → Assoc Text Text
args s = s.args

abbrev pub response_code : Session → ℕ
response_code s = s.rep_status_code

abbrev pub response_content_length : Session → ℕ
response_content_length s = s.rep_content_len

module _ (beast : Beast) where
  -- Of two replies to a session that was not answered the first counts: its status and its length
  -- are reported, and it alone is written.
  pub reply-reply :
      (w : Wire) (r r' : Response) (s : Session)
      → IsFresh w s
      → (response_code (reply beast r' (reply beast r s)) ≡ r.result)
        × (response_content_length (reply beast r' (reply beast r s))
            ≡ to_int (beast.payload_size r))
        × ((reply beast r' (reply beast r s)).send ≡ send_message beast r w)
  reply-reply w r r' s fresh =
      let once = reply-IsFresh beast w r s fresh in
      rw (reply-IsAnswered beast w r r' (reply beast r s) once) (once.status, once.len, once.wire)
