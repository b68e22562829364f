-- ===== src/Http/Group/Writes/Loop.antt =====
-- The loop of a multicast between two of its writes.
use socker.Prelude.{
  ℕ, ◌≡◌, refl, sym, ap, ◌∙◌, Bool, true, false, Option, none, some, List, [], ◌∷◌, ◌++◌, ◌==◌,
  nat_eq,
}
use socker.Text.{Text}
use socker.Assoc.{put}
use socker.Http.Group.{Streams, Delivered}
use socker.Http.Group.Writes.{
  talker, writing, Talker, Floor, advance, set_phase, finish_multicast, resume,
}
use socker.Http.Group.Writes.Rounds

module _ (streams : Streams) (stream : ℕ) (g msg : Text) (as_text : Bool) where
  abbrev pub resumed : Talker → List ℕ → List ℕ → Floor → Floor
  resumed t cs closed floor = resume streams.is_open stream t msg as_text cs closed floor

  abbrev delivery : ℕ → Delivered
  delivery c = Rounds.delivery streams stream msg as_text c

  abbrev pub written : ℕ → List ℕ → List ℕ → Floor → Floor
  written c cs closed floor = record {
    clients = floor.clients;
    talkers = put stream (talker g (writing c cs closed msg as_text)) floor.talkers;
    sent = floor.sent ++ (stream, delivery c) ∷ [];
  }

  -- the loop after it came to its next write, or to its end
  abbrev goes_on : Talker → Floor → List ℕ × Option (ℕ × List ℕ) → Floor
  goes_on t floor (shut, none) = finish_multicast stream t shut floor
  goes_on t floor (shut, some (c, rest)) =
      set_phase stream t (writing c rest shut msg as_text)
        (record floor { sent = floor.sent ++ (stream, delivery c) ∷ [] })

  goes_on_lem :
      (t : Talker) (floor : Floor) (at : List ℕ × Option (ℕ × List ℕ))
      → (elim at.1 [
        | none ↦ finish_multicast stream t at.0 floor
        | some (c, rest) ↦
            set_phase stream t
              (writing c rest at.0 msg as_text)
              (record floor { sent = floor.sent ++ (stream, delivery c) ∷ [] })
      ])
        ≡ goes_on t floor at
  goes_on_lem t floor (shut, none) = refl
  goes_on_lem t floor (shut, some (c, rest)) = refl

  resume_lem :
      (t : Talker) (cs closed : List ℕ) (floor : Floor)
      → resumed t cs closed floor ≡ goes_on t floor (advance streams.is_open stream cs closed)
  unfolding resume
  resume_lem t cs closed floor = goes_on_lem t floor (advance streams.is_open stream cs closed)

  advance-own :
      (c : ℕ) (cs closed : List ℕ)
      → (c == stream) ≡ true
      → advance streams.is_open stream (c ∷ cs) closed ≡ advance streams.is_open stream cs closed
  unfolding advance
  advance-own c cs closed own = rw own refl

  advance-shut :
      (c : ℕ) (cs closed : List ℕ)
      → (c == stream) ≡ false
      → streams.is_open c ≡ false
      → advance streams.is_open stream (c ∷ cs) closed
        ≡ advance streams.is_open stream cs (closed ++ c ∷ [])
  unfolding advance
  advance-shut c cs closed other shut = rw other (rw shut refl)

  advance-writes :
      (c : ℕ) (cs closed : List ℕ)
      → (c == stream) ≡ false
      → streams.is_open c ≡ true
      → advance streams.is_open stream (c ∷ cs) closed ≡ (closed, some (c, cs))
  unfolding advance
  advance-writes c cs closed other on = rw other (rw on refl)

  pub resume-own :
      (t : Talker) (c : ℕ) (cs closed : List ℕ) (floor : Floor)
      → (c == stream) ≡ true
      → resumed t (c ∷ cs) closed floor ≡ resumed t cs closed floor
  resume-own t c cs closed floor own =
      resume_lem t (c ∷ cs) closed floor
      ∙ ap (goes_on t floor) (advance-own c cs closed own)
      ∙ sym (resume_lem t cs closed floor)

  pub resume-shut :
      (t : Talker) (c : ℕ) (cs closed : List ℕ) (floor : Floor)
      → (c == stream) ≡ false
      → streams.is_open c ≡ false
      → resumed t (c ∷ cs) closed floor ≡ resumed t cs (closed ++ c ∷ []) floor
  resume-shut t c cs closed floor other shut =
      resume_lem t (c ∷ cs) closed floor
      ∙ ap (goes_on t floor) (advance-shut c cs closed other shut)
      ∙ sym (resume_lem t cs (closed ++ c ∷ []) floor)

  pub resume-writes :
      (t : Talker) (c : ℕ) (cs closed : List ℕ) (floor : Floor)
      → t.group ≡ g
      → (c == stream) ≡ false
      → streams.is_open c ≡ true
      → resumed t (c ∷ cs) closed floor ≡ written c cs closed floor
  resume-writes t c cs closed floor of other on =
      resume_lem t (c ∷ cs) closed floor
      ∙ ap (goes_on t floor) (advance-writes c cs closed other on)
      ∙ (rw of refl)
