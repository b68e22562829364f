-- ===== src/Http/Whole/Ended.antt =====
-- What the events of the connections leave alone: the server, and connections that have ended.
use socker.Prelude.{
  ℕ, ◌≡◌, refl, ◌∙◌, inl, inr, false, not, ◌||◌, Option, some, List, arith, ◌==◌, nat_eq,
  Bool-cases, Option-cases,
}
use socker.Text.{Text}
use socker.Assoc
use socker.Assoc.{get-put}
use socker.Boost.{Boost}
use socker.Http.Beast.{Beast}
use socker.Http.Session.{Wire}
use socker.Http.Server.{Server, Incoming, read_failed, received}
use socker.Http.System.{
  System, Connection, accepted, accept_failed, Event, accepts, reads, resets_registrar, stops_io,
  serve_one, accept_one, read_one, step,
}
use socker.Http.System.Single.{accept_one-other, read_one-other}

-- the HTTP loop of a connection has ended
abbrev pub HasEnded : ℕ → System → Type 0
HasEnded k sys =
    (wire : Wire) × (Assoc.get k sys.connections ≡ some (record { wire = wire; alive = false }))

-- the connections after one of them has ended
pub ends-HasEnded :
    (j k : ℕ) (c : Connection) (sys : System)
    → HasEnded j sys
    → HasEnded j
        (record sys { connections = Assoc.put k (record c { alive = false }) sys.connections })
ends-HasEnded j k c sys (wire, at_j) = elim (Bool-cases (k == j)) [
  | inl same ↦
      (c.wire, rw (get-put k j (record c { alive = false }) sys.connections) (rw same refl))
  | inr other ↦
      (wire, rw (get-put k j (record c { alive = false }) sys.connections) (rw other at_j))
]

pub ends-HasEnded_self :
    (k : ℕ) (c : Connection) (sys : System)
    → HasEnded k
        (record sys { connections = Assoc.put k (record c { alive = false }) sys.connections })
ends-HasEnded_self k c sys =
    (c.wire, Assoc.get-put_self k (record c { alive = false }) sys.connections)

module _ (boost : Boost) (beast : Beast) where
  read_one_ended :
      (k : ℕ) (x : Incoming) (wire : Wire) (sys : System)
      → read_one boost beast k x (record { wire = wire; alive = false }) sys ≡ sys
  unfolding read_one
  read_one_ended k x wire sys = refl

  reads-HasEnded :
      (k j : ℕ) (x : Incoming) (c : Connection) (sys : System)
      → Assoc.get j sys.connections ≡ some c
      → HasEnded k sys
      → HasEnded k (read_one boost beast j x c sys)
  reads-HasEnded k j x c sys found (wire, at_k) = elim (Bool-cases (j == k)) [
    | inr other ↦ (wire, read_one-other boost beast sys.server k j x c sys other ∙ at_k)
    | inl same ↦
        let its : c ≡ record { wire = wire; alive = false } =
          ground (arith, nat_eq.beq_iff j k, same, found, at_k) in
        (wire, rw its (rw (read_one_ended j x wire sys) at_k))
  ]

  pub step-HasEnded :
      (k : ℕ) (e : Event) (sys : System) → HasEnded k sys → HasEnded k (step boost beast sys e)
  unfolding step
  step-HasEnded k (accepts (accept_failed e) outcomes) sys ended =
      elim (Bool-cases (not sys.running || sys.crashed || not sys.listening)) [
        | inl down ↦ rw down ended
        | inr up ↦ rw up ended
      ]
  step-HasEnded k (accepts (accepted j) outcomes) sys (wire, at_k) =
      elim (Bool-cases (not sys.running || sys.crashed || not sys.listening)) [
        | inl down ↦ rw down (wire, at_k)
        | inr up ↦ rw up (wire, accept_one-other boost beast sys.server k j outcomes sys _ at_k)
      ]
  step-HasEnded k (reads j x) sys ended = elim (Bool-cases (not sys.running || sys.crashed)) [
    | inl down ↦ rw down ended
    | inr up ↦ rw up (elim (Option-cases (Assoc.get j sys.connections)) [
      | inl nobody ↦ rw nobody ended
      | inr (c, found) ↦ rw found (reads-HasEnded k j x c sys found ended)
    ])
  ]
  step-HasEnded k resets_registrar sys ended = ended
  step-HasEnded k stops_io sys ended = ended

  -- an event that is no read of an upgrade
  abbrev pub IsHttp : Event → Type 0
  IsHttp (reads k (received req u)) = beast.is_upgrade req ≡ false
  IsHttp _ = Unit

  serve_one-server :
      (k : ℕ) (x : Incoming) (s : Server) (wire : Wire)
      → IsHttp (reads k x)
      → (serve_one boost beast s wire x).0 ≡ s
  unfolding serve_one
  serve_one-server k read_failed s wire http = refl
  serve_one-server k (received req u) s wire http = rw http refl

  read_one-server :
      (k : ℕ) (x : Incoming) (c : Connection) (sys : System)
      → IsHttp (reads k x)
      → (read_one boost beast k x c sys).server ≡ sys.server
  unfolding read_one
  read_one-server k x c sys http = ground (arith, serve_one-server k x sys.server c.wire http)

  accept_one-server :
      (k : ℕ) (outcomes : List (Option Text)) (sys : System)
      → (accept_one boost beast k outcomes sys).server ≡ sys.server
  unfolding accept_one
  accept_one-server k outcomes sys = ground arith

  pub step-server :
      (e : Event) (sys : System) → IsHttp e → (step boost beast sys e).server ≡ sys.server
  unfolding step
  step-server (accepts (accept_failed e) outcomes) sys http = ground arith
  step-server (accepts (accepted k) outcomes) sys http =
      ground (arith, accept_one-server k outcomes sys)
  step-server (reads k x) sys http = elim (Option-cases (Assoc.get k sys.connections)) [
    | inl nobody ↦ ground (arith, nobody)
    | inr (c, found) ↦ ground (arith, found, read_one-server k x c sys http)
  ]
  step-server resets_registrar sys http = refl
  step-server stops_io sys http = refl
