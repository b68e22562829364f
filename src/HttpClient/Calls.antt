-- ===== src/HttpClient/Calls.antt =====
-- What the calls that take a url write, and what they return.
use socker.Prelude.{
  ℕ, ◌≤◌, ◌≡◌, refl, ap, ◌∙◌, inl, inr, true, false, Option, none, some, [], ◌∷◌, arith, nat_eq,
  length, is_empty,
}
use socker.Text.{Text, bytes, text_eq, text_beq}
use socker.Text.Laws.{IsClean}
use socker.Assoc.{Assoc}
use socker.Boost.{Boost}
use socker.HttpClient.Request.{Url, is_valid, to_string, Request, make_request}
use socker.HttpClient.Sending.{
  Reply, new_reply, Exchange, Written, Done, written_request, finish_reply, do_send, sync_send,
  get_url, post_url, put_url, del_url, sync_get_url, sync_post_url, sync_put_url, sync_del_url,
  set_once,
}
use socker.HttpClient.Urls.{IsHttp, a_url, make_request-to_string}
use socker.HttpClient.Replies.{IsFinished}

valid_http : (u : Url) → IsHttp u.protocol → 2 ≤ length u.host → is_valid u ≡ true
unfolding is_valid text_beq
valid_http u (inl e) len = rw e (ground (arith, len))
valid_http u (inr e) len = rw e (ground (arith, len))

module _ (boost : Boost) (timeout : Option ℕ) (user_agent : Text) (decimal : ℕ → Text) where
  well_sent :
      (verb : ℕ) (req : Request) (net : Exchange)
      → is_valid req.url ≡ true
      → net.resolve ≡ none
      → net.connect ≡ none
      → IsFinished net
      → ((do_send timeout user_agent decimal true verb req net).written
          ≡ some (written_request timeout user_agent decimal verb req))
        × ((do_send timeout user_agent decimal true verb req net).replies
            ≡ new_reply net.response ∷ [])
  unfolding do_send finish_reply
  well_sent verb req net v res con (wri, rea, inl s) =
      (rw (v, res, con, wri) refl, rw (v, res, con, wri, rea, s) refl)
  well_sent verb req net v res con (wri, rea, inr s) =
      (rw (v, res, con, wri) refl, rw (v, res, con, wri, rea, s) refl)

  -- the request for a resource of a host
  abbrev pub request_to : ℕ → Text → Text → Assoc Text Text → Text → Written
  request_to verb host resource head body = record {
    verb = verb;
    target = resource;
    fields =
        (bytes "Host", host)
        ∷ (bytes "User-Agent", user_agent)
        ∷ (bytes "Content-Length", decimal (length body))
        ∷ head;
    body = body;
  }

  -- the request was written, and its response is the result
  abbrev pub IsServed :
      ℕ → Text → Text → Assoc Text Text → Text → Exchange → Done → Option Reply → Type 0
  IsServed verb host resource head body net done result =
      (done.written ≡ some (request_to verb host resource head body))
      × (done.replies ≡ new_reply net.response ∷ [])
      × (result ≡ some (new_reply net.response))

  served :
      (verb : ℕ) (p host port r : Text) (head : Assoc Text Text) (body : Text) (limit : Option ℕ)
      (net : Exchange)
      → IsHttp p
      → 2 ≤ length host
      → IsClean host
      → IsClean port
      → is_empty port ≡ false
      → net.resolve ≡ none
      → net.connect ≡ none
      → IsFinished net
      → IsServed verb host
          (b'/' ∷ r)
          head
          body
          net
          (do_send timeout user_agent decimal true verb
            (make_request boost (to_string (a_url p host port r)) head body limit)
            net)
          (sync_send timeout user_agent decimal verb
            (make_request boost (to_string (a_url p host port r)) head body limit)
            net)
  unfolding make_request written_request sync_send
  served verb p host port r head body limit net http len hc pc filled res con fin =
      let req = make_request boost (to_string (a_url p host port r)) head body limit in
      let same = make_request-to_string boost p host port r head body limit http len hc pc filled in
      let valid : is_valid req.url ≡ true =
        ap is_valid same ∙ valid_http (a_url p host port r) http len in
      let (written, replies) = well_sent verb req net valid res con fin in
      (
        written ∙ ap (λ (u : Url). some (request_to verb u.host u.resource head body)) same,
        replies,
        ap set_once replies,
      )

  -- When the host of a url that comes back from its text is found and connected, and nothing fails
  -- then, each of get, post, put and del by url writes the request for the url's resource with its
  -- verb, headers and body, its handler gets the response once, and its synchronous form returns it.
  pub calls_lem :
      (p host port r : Text) (head : Assoc Text Text) (body : Text) (limit : Option ℕ)
      (net : Exchange)
      → IsHttp p
      → 2 ≤ length host
      → IsClean host
      → IsClean port
      → is_empty port ≡ false
      → net.resolve ≡ none
      → net.connect ≡ none
      → IsFinished net
      → let url = to_string (a_url p host port r) in
        IsServed 2 host
          (b'/' ∷ r)
          head
          []
          net
          (get_url boost timeout user_agent decimal true url head limit net)
          (sync_get_url boost timeout user_agent decimal url head limit net)
        × IsServed 4 host
            (b'/' ∷ r)
            head
            body
            net
            (post_url boost timeout user_agent decimal true url head body limit net)
            (sync_post_url boost timeout user_agent decimal url head body limit net)
        × IsServed 5 host
            (b'/' ∷ r)
            head
            body
            net
            (put_url boost timeout user_agent decimal true url head body limit net)
            (sync_put_url boost timeout user_agent decimal url head body limit net)
        × IsServed 1 host
            (b'/' ∷ r)
            head
            body
            net
            (del_url boost timeout user_agent decimal true url head body limit net)
            (sync_del_url boost timeout user_agent decimal url head body limit net)
  unfolding get_url sync_get_url post_url sync_post_url put_url sync_put_url del_url sync_del_url
  calls_lem p host port r head body limit net http len hc pc filled res con fin = (
    served 2 p host port r head [] limit net http len hc pc filled res con fin,
    served 4 p host port r head body limit net http len hc pc filled res con fin,
    served 5 p host port r head body limit net http len hc pc filled res con fin,
    served 1 p host port r head body limit net http len hc pc filled res con fin,
  )
