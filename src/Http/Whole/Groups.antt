-- ===== src/Http/Whole/Groups.antt =====
-- Messages of websockets, over a whole run of a server.
use socker.Prelude.{
  ℕ, ◌≡◌, refl, sym, ◌∙◌, ◌≢◌, inl, inr, true, Option, none, some, List, [], ◌∷◌, arith, nat_eq,
  All, All-Has, Has,
}
use socker.Text.{Text}
use socker.Assoc
use socker.Boost.{Boost}
use socker.Http.Beast.{Request, Beast}
use socker.Http.Server.{Server, listen_port}
use socker.Http.Group.{Delivered}
use socker.Http.Group.Writes.Floors.{IsLocal}
use socker.Http.System.{Acceptor, start}
use socker.Http.Whole.{
  Event, connects, requests, upgrades, hears, delivers, resets, stops, floor_of, begin, run,
}
use socker.Http.Whole.Ended.{HasEnded}
use socker.Http.Whole.Asked.{IsAsked, Permits, run-IsAsked}

module _ {A : Type 0} {Q : A → Type 0} where
  All-intro : (xs : List A) → ((x : A) → Has x xs → Q x) → All Q xs
  All-intro [] h = tt
  All-intro (x ∷ xs) h = (h x (inl refl), All-intro xs (λ y has. h y (inr has)))

module _ (boost : Boost) (beast : Beast) where
  -- an upgrade with this target was read from the socket
  abbrev pub HasAsked : List Event → ℕ → Text → Type 0
  HasAsked es k target =
      (req : Request) × Has (requests k (some req)) es
      × (beast.is_upgrade req ≡ true)
      × (req.target ≡ target)

  run-Permits : (es : List Event) → All (Permits boost beast (HasAsked es)) es
  run-Permits es = All-intro es permits
    where
      permits : (e : Event) → Has e es → Permits boost beast (HasAsked es) e
      permits (requests k (some req)) has = λ up. (req, has, up, refl)
      permits (requests k none) has = tt
      permits (connects result outcomes) has = tt
      permits (upgrades k error) has = tt
      permits (hears k own_open result is_open) has = tt
      permits (delivers k error is_open) has = tt
      permits resets has = tt
      permits stops has = tt

  begin-clients :
      (acceptor : Acceptor) (port : Option ℕ) (server : Server)
      → (begin acceptor port server).system.server.clients ≡ server.clients
  unfolding start listen_port
  begin-clients acceptor none server = refl
  begin-clients acceptor (some p) server = ground arith

  begin-IsAsked :
      (P : ℕ → Text → Type 0) (acceptor : Acceptor) (port : Option ℕ) (server : Server)
      → server.clients ≡ []
      → IsAsked boost beast P (begin acceptor port server)
  unfolding Assoc.get
  begin-IsAsked P acceptor port server nobody = record {
    waiting = λ k target h. absurd cc;
    talking = λ k g h. absurd cc;
    inside = record {
      member = λ x g h. absurd (rw (begin-clients acceptor port server ∙ nobody) at h);
      bound = λ s t h. absurd cc;
      local = tt;
    };
  }

  -- Let a server without websocket clients be started, and any events happen, those of stop()
  -- included. A message that was sent went from one socket to another; an upgrade was read from
  -- each of the two, their targets differ at most in case, and the HTTP loop of each had ended.
  pub run-sent :
      (acceptor : Acceptor) (port : Option ℕ) (server : Server) (es : List Event) (from : ℕ)
      (d : Delivered)
      → server.clients ≡ []
      → Has (from, d) (run boost beast es (begin acceptor port server)).sent
      → (from ≢ d.to)
        × HasEnded from (run boost beast es (begin acceptor port server)).system
        × HasEnded d.to (run boost beast es (begin acceptor port server)).system
        × ((a : Text) × (b : Text) × HasAsked es from a
            × HasAsked es d.to b
            × (boost.to_lower_copy a ≡ boost.to_lower_copy b))
  run-sent acceptor port server es from d nobody has =
      let w = run boost beast es (begin acceptor port server) in
      let ok =
        run-IsAsked boost beast (HasAsked es) es (begin acceptor port server) (run-Permits es)
          (begin-IsAsked (HasAsked es) acceptor port server nobody) in
      let (g, sender, receiver, other) =
        All-Has (from, d) (IsLocal (floor_of w)) w.sent ok.inside.local has in
      let (ended, (a, asked, is_a)) = ok.talking from g sender in
      let (ended', (b, asked', is_b)) = ok.talking d.to g receiver in
      (λ e. other (sym e), ended, ended', (a, b, asked, asked', sym is_a ∙ is_b))
