-- ===== src/HttpClient/Replies.antt =====
-- Every request is answered once, and how far it came.
use socker.Prelude.{
  ℕ, ◌≡◌, refl, ap, ◌⊎◌, inl, inr, true, Option, none, some, [], ◌∷◌, nat_eq, Bool-cases,
}
use socker.HttpClient.Request.{is_valid, Request}
use socker.HttpClient.Sending.{
  Received, Reply, new_reply, Shutdown, shut, not_connected, shutdown_failed, Exchange, Done,
  finish_reply, do_send, sync_send, set_once, written_request,
}
use socker.Text.{Text}

-- nothing fails up to the connection
abbrev pub IsConnected : Request → Exchange → Type 0
IsConnected req net = (is_valid req.url ≡ true) × (net.resolve ≡ none) × (net.connect ≡ none)

-- nothing fails at all; the other end may have closed the connection first
abbrev pub IsFinished : Exchange → Type 0
IsFinished net =
    (net.write ≡ none)
    × (net.read ≡ none)
    × ((net.shutdown ≡ shut) ⊎ (net.shutdown ≡ not_connected))

module _ (timeout : Option ℕ) (user_agent : Text) (decimal : ℕ → Text) where
  abbrev sent : ℕ → Request → Exchange → Done
  sent = do_send timeout user_agent decimal true

  -- how an exchange can end with the reply r: without a connection, with one and all well, or with
  -- a failure on it
  abbrev pub EndsWith : ℕ → Request → Exchange → Reply → Type 0
  EndsWith verb req net r =
      ((sent verb req net).written ≡ none) × ((r.code ≡ 404) ⊎ (r.code ≡ 599))
      ⊎ IsConnected req net
        × ((sent verb req net).written ≡ some (written_request timeout user_agent decimal verb req))
        × ((IsFinished net × (r ≡ new_reply net.response)) ⊎ ((r.code ≡ 500) × (r.head ≡ [])))

  abbrev Answer : ℕ → Request → Exchange → Type 0
  Answer verb req net =
      (r : Reply) × ((sent verb req net).replies ≡ r ∷ []) × EndsWith verb req net r

  sync_send_one :
      (verb : ℕ) (req : Request) (net : Exchange) (r : Reply)
      → (sent verb req net).replies ≡ r ∷ []
      → sync_send timeout user_agent decimal verb req net ≡ some r
  unfolding sync_send
  sync_send_one verb req net r e = ap set_once e

  exchange :
      (verb : ℕ) (req : Request) (resolve connect write read : Option Text) (response : Received)
      (shutdown : Shutdown)
      → is_valid req.url ≡ true
      → Answer verb req (record {
        resolve = resolve;
        connect = connect;
        write = write;
        read = read;
        response = response;
        shutdown = shutdown;
      })
  unfolding do_send new_reply finish_reply
  exchange verb req (some e) con wri rea res shu v = rw v (_, refl, inl (refl, inl refl))
  exchange verb req none (some e) wri rea res shu v = rw v (_, refl, inl (refl, inr refl))
  exchange verb req none none (some e) rea res shu v =
      rw v (_, refl, inr ((refl, refl, refl), refl, inr (refl, refl)))
  exchange verb req none none none (some e) res shu v =
      rw v (_, refl, inr ((refl, refl, refl), refl, inr (refl, refl)))
  exchange verb req none none none none res (shutdown_failed e) v =
      rw v (_, refl, inr ((refl, refl, refl), refl, inr (refl, refl)))
  exchange verb req none none none none res shut v =
      rw v (_, refl, inr ((refl, refl, refl), refl, inl ((refl, refl, inl refl), refl)))
  exchange verb req none none none none res not_connected v =
      rw v (_, refl, inr ((refl, refl, refl), refl, inl ((refl, refl, inr refl), refl)))

  answer : (verb : ℕ) (req : Request) (net : Exchange) → Answer verb req net
  unfolding do_send new_reply
  answer verb req net = elim (Bool-cases (is_valid req.url)) [
    | inl v ↦
        exchange verb req net.resolve net.connect net.write net.read net.response net.shutdown v
    | inr v ↦ rw v (_, refl, inl (refl, inl refl))
  ]

  -- A handler is called exactly once, with the reply that syncSend returns. Either nothing was
  -- written, and its status is 404 or 599; or the url is valid and the connection stands, the
  -- request was written as it is, and the reply is the response that was read, all having gone well,
  -- or one of status 500 without headers.
  pub do_send_lem :
      (verb : ℕ) (req : Request) (net : Exchange)
      → (r : Reply) × ((do_send timeout user_agent decimal true verb req net).replies ≡ r ∷ [])
        × (sync_send timeout user_agent decimal verb req net ≡ some r)
        × EndsWith verb req net r
  do_send_lem verb req net =
      let (r, e, ends) = answer verb req net in (r, e, sync_send_one verb req net r e, ends)
