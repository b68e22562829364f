-- ===== src/Http/Server/Connection.antt =====
-- What a connection sends: one response for each request, up to the end of the connection.
use socker.Prelude.{
  ◌≡◌, refl, sym, ap, ◌∙◌, inl, inr, true, false, ◌⊎◌, All, map, List, [], ◌∷◌, ◌++◌, append-nil,
  append_assoc, nat_eq, Bool-cases,
}
use mathlib.Core.Path.{subst}
use socker.Boost.{Boost}
use socker.Text.{text_eq}
use socker.Http.Beast.{Request, Response, Beast}
use socker.Http.Session.{Wire, send_message}
use socker.Http.Session.Replies.{IsAnswered}
use socker.Http.Server.Serving.{process_request-IsAnswered}
use socker.Http.Server.{
  Server, Upgrade, Incoming, read_failed, received, process_request, serve_connection,
}

module _ (boost : Boost) (beast : Beast) where
  -- every response but the last leaves the connection open
  abbrev pub LeavesOpen : List Response → Type 0
  LeavesOpen [] = Unit
  LeavesOpen (r ∷ []) = Unit
  LeavesOpen (r ∷ r' ∷ rs) = (beast.need_eof r ≡ false) × LeavesOpen (r' ∷ rs)

  -- `wire` shows `rs` written since `w`, and if any was, closes when the last of them says so
  pub record Wrote (w : Wire) (rs : List Response) (wire : Wire) : Type 0 where
    pub written : wire.written ≡ w.written ++ rs
    pub opened : LeavesOpen rs

  Wrote-cons :
      (w wire : Wire) (r : Response) (rs : List Response)
      → beast.need_eof r ≡ false
      → Wrote (send_message beast r w) rs wire
      → Wrote w (r ∷ rs) wire
  unfolding send_message
  Wrote-cons w wire r [] e h = record {
    written = h.written ∙ append_assoc w.written (r ∷ []) [];
    opened = tt;
  }
  Wrote-cons w wire r (q ∷ rs) e h = record {
    written = h.written ∙ append_assoc w.written (r ∷ []) (q ∷ rs);
    opened = (e, h.opened);
  }

  -- the answer that the server gives to the request
  abbrev pub AnswersTo : Server → Request → Response → Type 0
  AnswersTo server req r =
      (v : Wire) × IsAnswered beast v r (process_request boost beast server req v)

  -- the responses are the answers to the requests, one for each, in their order
  abbrev pub Answers : Server → List (Request × Upgrade) → List Response → Type 0
  Answers server [] [] = Unit
  Answers server (x ∷ xs) (r ∷ rs) = AnswersTo server x.0 r × Answers server xs rs
  Answers server _ _ = ⊥

  -- the last response needs the end of the stream
  abbrev pub Closes : List Response → Type 0
  Closes [] = ⊥
  Closes (r ∷ []) = beast.need_eof r ≡ true
  Closes (r ∷ r' ∷ rs) = Closes (r' ∷ rs)

  -- why none of the reads that are left is answered by a response
  abbrev pub Ends : List Response → List Incoming → Type 0
  Ends rs [] = Unit
  Ends rs (read_failed ∷ more) = Unit
  Ends rs (received req u ∷ more) = (beast.is_upgrade req ≡ true) ⊎ Closes rs

  Closes-Ends : (rs : List Response) (more : List Incoming) → Closes rs → Ends rs more
  Closes-Ends rs [] h = tt
  Closes-Ends rs (read_failed ∷ more) h = tt
  Closes-Ends rs (received req u ∷ more) h = inr h

  Closes-cons : (r : Response) (rs : List Response) → Closes rs → Closes (r ∷ rs)
  Closes-cons r [] h = absurd h
  Closes-cons r (q ∷ rs) h = h

  Ends-cons :
      (r : Response) (rs : List Response) (more : List Incoming) → Ends rs more → Ends (r ∷ rs) more
  Ends-cons r rs [] h = tt
  Ends-cons r rs (read_failed ∷ more) h = tt
  Ends-cons r rs (received req u ∷ more) (inl up) = inl up
  Ends-cons r rs (received req u ∷ more) (inr h) = inr (Closes-cons r rs h)

  abbrev pub as_read : Request × Upgrade → Incoming
  as_read x = received x.0 x.1

  -- `served` are the requests that are answered, `rest` the reads behind them
  pub record Serves (server : Server) (incoming : List Incoming) (w wire : Wire) : Type 0 where
    pub served : List (Request × Upgrade)
    pub rest : List Incoming
    pub rs : List Response
    pub parts : incoming ≡ map as_read served ++ rest
    pub plain : All (λ x. beast.is_upgrade x.0 ≡ false) served
    pub answers : Answers server served rs
    pub wrote : Wrote w rs wire
    pub ends : Ends rs rest

  silent :
      (server : Server) (incoming : List Incoming) (w : Wire)
      → Ends [] incoming
      → Serves server incoming w w
  silent server incoming w ends = record {
    served = [];
    rest = incoming;
    rs = [];
    parts = refl;
    plain = tt;
    answers = tt;
    wrote = record { written = sym (append-nil _); opened = tt };
    ends = ends;
  }

  sent_close : (r : Response) (w : Wire) → (send_message beast r w).close ≡ beast.need_eof r
  unfolding send_message
  sent_close r w = refl

  sent_written : (r : Response) (w : Wire) → (send_message beast r w).written ≡ w.written ++ r ∷ []
  unfolding send_message
  sent_written r w = refl

  last_one :
      (server : Server) (req : Request) (u : Upgrade) (more : List Incoming) (w : Wire)
      → beast.is_upgrade req ≡ false
      → (process_request boost beast server req w).send.close ≡ true
      → Serves server (received req u ∷ more) w (process_request boost beast server req w).send
  last_one server req u more w down close =
      let (r, h) = process_request-IsAnswered boost beast server req w in
      record {
        served = (req, u) ∷ [];
        rest = more;
        rs = r ∷ [];
        parts = refl;
        plain = (down, tt);
        answers = ((w, h), tt);
        wrote = record {
          written = ap (λ (v : Wire). v.written) h.wire ∙ sent_written r w;
          opened = tt;
        };
        ends =
            Closes-Ends (r ∷ []) more
              (sym (sent_close r w) ∙ sym (ap (λ (v : Wire). v.close) h.wire) ∙ close);
      }

  goes_on :
      (server : Server) (req : Request) (u : Upgrade) (more : List Incoming) (w wire : Wire)
      → beast.is_upgrade req ≡ false
      → (process_request boost beast server req w).send.close ≡ false
      → Serves server more (process_request boost beast server req w).send wire
      → Serves server (received req u ∷ more) w wire
  goes_on server req u more w wire down stay later =
      let (r, h) = process_request-IsAnswered boost beast server req w in
      record {
        served = (req, u) ∷ later.served;
        rest = later.rest;
        rs = r ∷ later.rs;
        parts = ap (λ xs. received req u ∷ xs) later.parts;
        plain = (down, later.plain);
        answers = ((w, h), later.answers);
        wrote =
            Wrote-cons w wire r later.rs
              (sym (sent_close r w) ∙ sym (ap (λ (v : Wire). v.close) h.wire) ∙ stay)
              (subst (λ v. Wrote v later.rs wire) h.wire later.wrote);
        ends = Ends-cons r later.rs later.rest later.ends;
      }

  -- On a connection, the requests that come first are answered, one response for each, in their order:
  -- the one that the server gives to the request. Nothing else is written. Behind them the reads are
  -- over, or the next one fails, or it is an upgrade, or the last response needs the end of the stream;
  -- no response before the last one does.
  pub serve_connection-Serves :
      (incoming : List Incoming) (server : Server) (w : Wire)
      → Serves server incoming w (serve_connection boost beast incoming server w).wire
  unfolding serve_connection
  serve_connection-Serves [] server w = silent server [] w tt
  serve_connection-Serves (read_failed ∷ more) server w = silent server (read_failed ∷ more) w tt
  serve_connection-Serves (received req u ∷ more) server w =
      let s = process_request boost beast server req w in
      elim (Bool-cases (beast.is_upgrade req)) [
        | inl up ↦ rw up (silent server (received req u ∷ more) w (inl up))
        | inr down ↦ rw down (elim (Bool-cases s.send.close) [
          | inl close ↦ rw close (last_one server req u more w down close)
          | inr stay ↦
              rw stay (
                goes_on server req u more w _ down stay
                  (serve_connection-Serves more server s.send))
        ])
      ]
