-- ===== src/Http/Whole/Apart.antt =====
-- A connection is served as if it was alone, also beside websockets.
use socker.Prelude.{
  ℕ, ◌<◌, ◌≡◌, refl, sym, ap, ◌∙◌, Bool, true, Option, none, some, List, [], ◌∷◌, ◌++◌, nat_eq, All,
  All-append, Bool-cases, inl, inr, ltb,
}
use mathlib.Core.List.{foldl, append_assoc}
use mathlib.Core.Option
use socker.Text.{Text}
use socker.Assoc
use socker.Boost.{Boost}
use socker.Http.Beast.{Beast}
use socker.Http.Session.{Wire}
use socker.Http.Server.{Server, Incoming, listen_port, do_connection}
use socker.Http.System
use socker.Http.System.{Acceptor, is_listening, accepted, start}
use socker.Http.System.Live
use socker.Http.System.Rounds.{round, round-same, serve_connection-rounds}
use socker.Http.System.Single.{reads_of}
use socker.Http.System.Isolation.{run-alone}
use socker.Http.Whole.{
  Event, connects, requests, upgrades, hears, delivers, resets, stops, begin, run,
}
use socker.Http.Whole.Plain.{plain, plains, bare_server, bare, run-plains}

-- the event is no part of stop()
abbrev pub KeepsRunning : Event → Type 0
KeepsRunning resets = ⊥
KeepsRunning stops = ⊥
KeepsRunning _ = Unit

pub plain-KeepsRunning : (e : Event) → KeepsRunning e → All Live.KeepsRunning (plain e)
unfolding plain
plain-KeepsRunning (connects result outcomes) keep = (tt, tt)
plain-KeepsRunning (requests k none) keep = (tt, tt)
plain-KeepsRunning (requests k (some req)) keep = (tt, tt)
plain-KeepsRunning (upgrades k error) keep = tt
plain-KeepsRunning (hears k own_open result is_open) keep = tt
plain-KeepsRunning (delivers k error is_open) keep = tt
plain-KeepsRunning resets keep = absurd keep
plain-KeepsRunning stops keep = absurd keep

plains-KeepsRunning : (es : List Event) → All KeepsRunning es → All Live.KeepsRunning (plains es)
unfolding plains
plains-KeepsRunning [] keep = tt
plains-KeepsRunning (e ∷ es) (keep, keeps) =
    All-append Live.KeepsRunning (plain e) (plains es) (plain-KeepsRunning e keep)
      (plains-KeepsRunning es keeps)

plains-append :
    (before later : List Event) → plains (before ++ later) ≡ plains before ++ plains later
unfolding plains
plains-append [] later = refl
plains-append (e ∷ es) later =
    ap (λ xs. plain e ++ xs) (plains-append es later)
    ∙ sym (append_assoc (plain e) (plains es) (plains later))

plains-connects :
    (k : ℕ) (outcomes : List (Option Text)) (later : List Event)
    → plains (connects (accepted k) outcomes ∷ later)
      ≡ System.accepts (accepted k) outcomes ∷ plains later
unfolding plains plain
plains-connects k outcomes later = refl

pub start-bare :
    (acceptor : Acceptor) (port : Option ℕ) (server : Server)
    → bare (start acceptor port server) ≡ start acceptor port (bare_server server)
unfolding start listen_port
start-bare acceptor none server = refl
start-bare acceptor (some port) server = elim (Bool-cases (ltb 0 port)) [
  | inl on ↦ rw on refl
  | inr off ↦ rw off refl
]

module _ (boost : Boost) (beast : Beast) where
  rounds-bare :
      (server : Server) (xs : List Incoming) (w : Wire × Bool)
      → foldl (round boost beast (bare_server server)) w xs ≡ foldl (round boost beast server) w xs
  rounds-bare server [] w = refl
  rounds-bare server (x ∷ xs) w =
      rounds-bare server xs _
      ∙ ap (λ v. foldl (round boost beast server) v xs)
          (round-same boost beast (bare_server server) server w x (refl, refl))

  connection-bare :
      (server : Server) (xs : List Incoming) (outcomes : List (Option Text))
      → (do_connection boost beast xs (bare_server server) outcomes).wire
        ≡ (do_connection boost beast xs server outcomes).wire
  unfolding do_connection
  connection-bare server xs outcomes =
      serve_connection-rounds boost beast (bare_server server) xs _
      ∙ ap (λ (r : Wire × Bool). r.0) (rounds-bare server xs _)
      ∙ sym (serve_connection-rounds boost beast server xs _)

  -- the connections of a started server, without its websockets
  connections-bare :
      (acceptor : Acceptor) (port : Option ℕ) (server : Server) (es : List Event)
      → (run boost beast es (begin acceptor port server)).system.connections
        ≡ (System.run boost beast
            (plains es)
            (start acceptor port (bare_server server))).connections
  connections-bare acceptor port server es =
      ap (λ s. s.connections)
        (run-plains boost beast es (begin acceptor port server)
          ∙ ap (System.run boost beast (plains es)) (start-bare acceptor port server))

  -- Let a server with threads be started, its acceptor be set up without an error, and let a
  -- connection k be accepted, for the first time, with any events but those of stop() before and
  -- after that: accepts, reads of requests, and accepts, reads and writes of websockets. What is
  -- written on k as HTTP is what doConnection, run alone on a server with the hooks and the
  -- directory that were there at the start, writes for the reads of k after its accept: it depends
  -- neither on the other connections nor on the websocket conversations, also not on one that goes
  -- on on k itself.
  pub run-apart :
      (acceptor : Acceptor) (port : Option ℕ) (server : Server) (k : ℕ)
      (outcomes : List (Option Text)) (before later : List Event)
      → is_listening acceptor ≡ true
      → 0 < server.thread_count
      → All KeepsRunning before
      → All KeepsRunning later
      → Assoc.get k (run boost beast before (begin acceptor port server)).system.connections ≡ none
      → Option.map
          (λ c. c.wire)
          (Assoc.get k
            (run boost beast
              (before ++ connects (accepted k) outcomes ∷ later)
              (begin acceptor port server)).system.connections)
        ≡ some (do_connection boost beast (reads_of k (plains later)) server outcomes).wire
  run-apart acceptor port server k outcomes before later on threads keep keeps fresh =
      ap (λ m. Option.map (λ c. c.wire) (Assoc.get k m))
        (connections-bare acceptor port server (before ++ connects (accepted k) outcomes ∷ later)
          ∙ ap
              (λ es.
                (System.run boost beast es (start acceptor port (bare_server server))).connections)
              (plains-append before (connects (accepted k) outcomes ∷ later)
                ∙ ap (λ es. plains before ++ es) (plains-connects k outcomes later)))
      ∙ run-alone boost beast (bare_server server) acceptor port k outcomes (plains before)
          (plains later) on threads (plains-KeepsRunning before keep)
          (plains-KeepsRunning later keeps)
          (rw (← connections-bare acceptor port server before) fresh)
      ∙ ap some (connection-bare server (reads_of k (plains later)) outcomes)
