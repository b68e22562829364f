-- ===== src/Http/System/Single.antt =====
-- What one event does to one connection.
use socker.Prelude.{
  ℕ, ◌≡◌, refl, ap, ◌∙◌, inl, inr, Bool, true, false, not, ◌&&◌, Option, none, some, List, [], ◌∷◌,
  arith, if◌then◌else◌, ◌==◌, nat_eq, Bool-cases, Option-cases,
}
use mathlib.Core.List.{foldl}
use socker.Text.{Text}
use socker.Assoc
use socker.Assoc.{Assoc, get-put, get-put_self}
use socker.Boost.{Boost}
use socker.Http.Beast.{Beast}
use socker.Http.Session.{Wire}
use socker.Http.Server.{Server, Incoming}
use socker.Http.System.{
  Connection, System, needs_registrar, accepted, accept_failed, new_wire, Event, accepts, reads,
  resets_registrar, stops_io, accept_one, read_one, step,
}
use socker.Http.System.Live.{
  KeepsRunning, IsLive, step-accepts, step-accept_failed, step-reads, step-reads_nobody,
}
use socker.Http.System.Rounds.{round, round-same}

-- what the reads of one connection end with
unfoldable pub reads_of : ℕ → List Event → List Incoming
reads_of k [] = []
reads_of k (reads j x ∷ es) = if j == k then x ∷ reads_of k es else reads_of k es
reads_of k (_ ∷ es) = reads_of k es

module _ (boost : Boost) (beast : Beast) (server : Server) where
  abbrev pub At : ℕ → System → Wire × Bool → Type 0
  At k sys w = Assoc.get k sys.connections ≡ some (record { wire = w.0; alive = w.1 })

  pub get-put_other :
      (j k : ℕ) (c : Connection) (m : Assoc ℕ Connection)
      → (j == k) ≡ false
      → Assoc.get k (Assoc.put j c m) ≡ Assoc.get k m
  get-put_other j k c m ne = rw (get-put j k c m) (rw ne refl)

  new_other :
      (j k : ℕ) (c d : Connection) (m : Assoc ℕ Connection)
      → Assoc.get j m ≡ none
      → Assoc.get k m ≡ some d
      → Assoc.get k (Assoc.put j c m) ≡ some d
  new_other j k c d m fresh at_k = elim (Bool-cases (j == k)) [
    | inl same ↦ ground (arith, nat_eq.beq_iff j k, fresh, at_k)
    | inr ne ↦ get-put_other j k c m ne ∙ at_k
  ]

  pub accept_one-other :
      (k j : ℕ) (outcomes : List (Option Text)) (sys : System) (c : Connection)
      → Assoc.get k sys.connections ≡ some c
      → Assoc.get k (accept_one boost beast j outcomes sys).connections ≡ some c
  unfolding accept_one
  accept_one-other k j outcomes sys c at_k = elim (Option-cases (Assoc.get j sys.connections)) [
    | inl fresh ↦ rw (fresh, accept_one) (new_other j k _ c sys.connections fresh at_k)
    | inr (d, found) ↦ rw (found, accept_one) at_k
  ]

  pub read_one-other :
      (k j : ℕ) (x : Incoming) (c : Connection) (sys : System)
      → (j == k) ≡ false
      → Assoc.get k (read_one boost beast j x c sys).connections ≡ Assoc.get k sys.connections
  unfolding read_one
  read_one-other k j x c sys ne = elim (Bool-cases c.alive) [
    | inr dead ↦ rw dead refl
    | inl lives ↦
        rw lives (elim (Bool-cases (not sys.registered && needs_registrar boost beast x)) [
          | inl crash ↦ rw crash refl
          | inr fine ↦ rw fine (get-put_other j k _ sys.connections ne)
        ])
  ]

  read_one_self :
      (k : ℕ) (x : Incoming) (sys : System) (w : Wire × Bool)
      → IsLive boost beast server sys
      → At k sys w
      → At k
          (read_one boost beast k x (record { wire = w.0; alive = w.1 }) sys)
          (round boost beast server w x)
  unfolding read_one
  read_one_self k x sys (wire, true) (run_, reg, ok, on, same) at_k = rw reg (
      (get-put_self k _ sys.connections)
      ∙ ap (λ (r : Wire × Bool). some (record { wire = r.0; alive = r.1 }))
          (round-same boost beast sys.server server (wire, true) x same))
  read_one_self k x sys (wire, false) live at_k = at_k

  reads-At :
      (k j : ℕ) (x : Incoming) (sys : System) (w : Wire × Bool)
      → IsLive boost beast server sys
      → At k sys w
      → (j == k) ≡ false
      → At k (step boost beast sys (reads j x)) w
  reads-At k j x sys w live at_k other = elim (Option-cases (Assoc.get j sys.connections)) [
    | inl nobody ↦ rw (step-reads_nobody boost beast server j x sys live nobody) at_k
    | inr (c, found) ↦
        rw (step-reads boost beast server j x c sys live found)
          (read_one-other k j x c sys other ∙ at_k)
  ]

  reads-At_self :
      (k j : ℕ) (x : Incoming) (sys : System) (w : Wire × Bool)
      → IsLive boost beast server sys
      → At k sys w
      → (j == k) ≡ true
      → At k (step boost beast sys (reads j x)) (round boost beast server w x)
  reads-At_self k j x sys w live at_k self =
      rw ((nat_eq.beq_iff j k).0 self)
        (rw (step-reads boost beast server k x _ sys live at_k) (read_one_self k x sys w live at_k))

  pub step-At :
      (k : ℕ) (e : Event) (sys : System) (w : Wire × Bool)
      → KeepsRunning e
      → IsLive boost beast server sys
      → At k sys w
      → At k (step boost beast sys e) (foldl (round boost beast server) w (reads_of k (e ∷ [])))
  unfolding reads_of
  step-At k (accepts (accept_failed e) outcomes) sys w keep live at_k =
      rw (step-accept_failed boost beast server e outcomes sys live) at_k
  step-At k (accepts (accepted j) outcomes) sys w keep live at_k =
      rw (step-accepts boost beast server j outcomes sys live)
        (accept_one-other k j outcomes sys _ at_k)
  step-At k (reads j x) sys w keep live at_k = elim (Bool-cases (j == k)) [
    | inl self ↦ rw self (reads-At_self k j x sys w live at_k self)
    | inr other ↦ rw other (reads-At k j x sys w live at_k other)
  ]
  step-At k resets_registrar sys w keep live at_k = absurd keep
  step-At k stops_io sys w keep live at_k = absurd keep

  pub new-At :
      (k : ℕ) (outcomes : List (Option Text)) (sys : System)
      → IsLive boost beast server sys
      → Assoc.get k sys.connections ≡ none
      → At k (step boost beast sys (accepts (accepted k) outcomes)) (new_wire outcomes, true)
  unfolding accept_one
  new-At k outcomes sys live fresh =
      rw (step-accepts boost beast server k outcomes sys live)
        (rw (fresh, accept_one) (get-put_self k _ sys.connections))
