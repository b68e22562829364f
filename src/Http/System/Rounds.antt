-- ===== src/Http/System/Rounds.antt =====
-- doConnection as rounds of its loop, which depend on the server's hooks and directory only.
use socker.Prelude.{
  ◌≡◌, refl, sym, ap, ◌∙◌, inl, inr, Bool, true, false, not, List, [], ◌∷◌, arith, if◌then◌else◌,
  nat_eq, Bool-cases, if_then, if_else,
}
use mathlib.Core.List.{foldl}
use socker.Boost.{Boost}
use socker.Http.Beast.{Request, Beast}
use socker.Http.Session.{Wire}
use socker.Http.Server.{
  Server, Incoming, read_failed, received, Upgrade, process_request, serve_connection,
}
use socker.Http.System.{serve_one}

-- the servers differ at most in the websocket clients, the port and the timeout
abbrev pub SameHooks : Server → Server → Type 0
SameHooks a b = (a.registrar ≡ b.registrar) × (a.doc_root ≡ b.doc_root)

module _ (boost : Boost) (beast : Beast) where
  pub process_request-same :
      (a b : Server) (req : Request) (w : Wire)
      → SameHooks a b
      → process_request boost beast a req w ≡ process_request boost beast b req w
  unfolding process_request
  process_request-same a b req w (hooks, root) = rw (hooks, root) refl

  -- the loop's state: the wire, and whether it goes on
  abbrev pub round : Server → Wire × Bool → Incoming → Wire × Bool
  round server (wire, true) x =
      let (after, next, alive) = serve_one boost beast server wire x in (next, alive)
  round server (wire, false) x = (wire, false)

  pub round-same :
      (a b : Server) (w : Wire × Bool) (x : Incoming) → SameHooks a b → round a w x ≡ round b w x
  unfolding serve_one
  round-same a b (wire, false) x same = refl
  round-same a b (wire, true) read_failed same = refl
  round-same a b (wire, true) (received req u) same = elim (Bool-cases (beast.is_upgrade req)) [
    | inl up ↦ rw up refl
    | inr plain ↦ rw plain (rw (process_request-same a b req wire same) refl)
  ]

  pub serve_one-SameHooks :
      (server : Server) (wire : Wire) (x : Incoming)
      → SameHooks (serve_one boost beast server wire x).0 server
  unfolding serve_one
  serve_one-SameHooks server wire read_failed = (refl, refl)
  serve_one-SameHooks server wire (received req u) = elim (Bool-cases (beast.is_upgrade req)) [
    | inl up ↦ rw up (refl, refl)
    | inr plain ↦ rw plain (refl, refl)
  ]

  pub ended :
      (server : Server) (xs : List Incoming) (wire : Wire)
      → foldl (round server) (wire, false) xs ≡ (wire, false)
  ended server [] wire = refl
  ended server (x ∷ xs) wire = ended server xs wire

  round-upgrade :
      (server : Server) (wire : Wire) (req : Request) (u : Upgrade)
      → beast.is_upgrade req ≡ true
      → round server (wire, true) (received req u) ≡ (wire, false)
  unfolding serve_one
  round-upgrade server wire req u up = rw up refl

  round-plain :
      (server : Server) (wire : Wire) (req : Request) (u : Upgrade)
      → beast.is_upgrade req ≡ false
      → round server (wire, true) (received req u) ≡ (
        (process_request boost beast server req wire).send,
        not (process_request boost beast server req wire).send.close,
      )
  unfolding serve_one
  round-plain server wire req u plain = rw plain refl

  -- what is left of a loop that is in this state
  abbrev pub rest : Server → List Incoming → Wire × Bool → Wire
  rest server xs w = (foldl (round server) w xs).0

  after_response :
      (server : Server) (xs : List Incoming) (wire : Wire)
      → (serve_connection boost beast xs server wire).wire ≡ rest server xs (wire, true)
      → (if wire.close then wire else (serve_connection boost beast xs server wire).wire)
        ≡ rest server xs (wire, not wire.close)
  after_response server xs wire ih = elim (Bool-cases wire.close) [
    | inl closing ↦
        if_then (λ z. z ≡ wire) wire _ wire.close closing refl
        ∙ sym (
            ap (rest server xs) (ap (λ b. (wire, not b)) closing)
            ∙ ap (λ (r : Wire × Bool). r.0) (ended server xs wire))
    | inr going ↦
        if_else (λ z. z ≡ (serve_connection boost beast xs server wire).wire) wire _ wire.close
          going refl
        ∙ ih
        ∙ sym (ap (rest server xs) (ap (λ b. (wire, not b)) going))
  ]

  serve_connection-received :
      (server : Server) (xs : List Incoming) (wire : Wire) (req : Request) (u : Upgrade)
      → beast.is_upgrade req ≡ false
      → (serve_connection boost beast (received req u ∷ xs) server wire).wire ≡ (
          let after = (process_request boost beast server req wire).send in
          if after.close then after else (serve_connection boost beast xs server after).wire)
  unfolding serve_connection
  serve_connection-received server xs wire req u plain = rw plain (ground arith)

  serve_connection-upgrade :
      (server : Server) (xs : List Incoming) (wire : Wire) (req : Request) (u : Upgrade)
      → beast.is_upgrade req ≡ true
      → (serve_connection boost beast (received req u ∷ xs) server wire).wire ≡ wire
  unfolding serve_connection
  serve_connection-upgrade server xs wire req u up = rw up refl

  serve_connection-nil :
      (server : Server) (wire : Wire) → (serve_connection boost beast [] server wire).wire ≡ wire
  unfolding serve_connection
  serve_connection-nil server wire = refl

  serve_connection-failed :
      (server : Server) (xs : List Incoming) (wire : Wire)
      → (serve_connection boost beast (read_failed ∷ xs) server wire).wire ≡ wire
  unfolding serve_connection
  serve_connection-failed server xs wire = refl

  round-failed :
      (server : Server) (wire : Wire) → round server (wire, true) read_failed ≡ (wire, false)
  unfolding serve_one
  round-failed server wire = refl

  -- doConnection is its rounds, one after the other
  pub serve_connection-rounds :
      (server : Server) (xs : List Incoming) (wire : Wire)
      → (serve_connection boost beast xs server wire).wire ≡ rest server xs (wire, true)
  serve_connection-rounds server [] wire = serve_connection-nil server wire
  serve_connection-rounds server (read_failed ∷ xs) wire =
      serve_connection-failed server xs wire
      ∙ sym (
          ap (rest server xs) (round-failed server wire)
          ∙ ap (λ (r : Wire × Bool). r.0) (ended server xs wire))
  serve_connection-rounds server (received req u ∷ xs) wire =
      elim (Bool-cases (beast.is_upgrade req)) [
        | inl up ↦
            serve_connection-upgrade server xs wire req u up
            ∙ sym (
                ap (rest server xs) (round-upgrade server wire req u up)
                ∙ ap (λ (r : Wire × Bool). r.0) (ended server xs wire))
        | inr plain ↦
            serve_connection-received server xs wire req u plain
            ∙ after_response server xs _ (serve_connection-rounds server xs _)
            ∙ sym (ap (rest server xs) (round-plain server wire req u plain))
      ]
