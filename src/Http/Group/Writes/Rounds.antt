-- ===== src/Http/Group/Writes/Rounds.antt =====
-- One round of sends of a multicast, client by client.
use socker.Prelude.{
  ℕ, ◌≡◌, refl, Bool, true, false, Option, none, some, List, [], ◌∷◌, ◌==◌, nat_eq,
}
use socker.Text.{Text}
use socker.Http.Group.{Streams, Delivered, Round, send_round}

module _ (streams : Streams) (stream : ℕ) (msg : Text) (as_text : Bool) where
  abbrev round_of : List ℕ → Option Text → Round
  round_of cs ec = send_round streams stream msg as_text cs ec

  abbrev pub delivery : ℕ → Delivered
  delivery c = record { to = c; message = msg; as_text = as_text }

  pub round-nil : (ec : Option Text) → round_of [] ec ≡ record { sent = []; closed = []; ec = ec }
  unfolding send_round
  round-nil ec = refl

  pub round-own :
      (c : ℕ) (cs : List ℕ) (ec : Option Text)
      → (c == stream) ≡ true
      → round_of (c ∷ cs) ec ≡ round_of cs ec
  unfolding send_round
  round-own c cs ec own = rw own refl

  pub round-shut :
      (c : ℕ) (cs : List ℕ) (ec : Option Text)
      → (c == stream) ≡ false
      → streams.is_open c ≡ false
      → round_of (c ∷ cs) ec ≡ record (round_of cs ec) { closed = c ∷ (round_of cs ec).closed }
  unfolding send_round
  round-shut c cs ec other shut = rw other (rw shut refl)

  pub round-failed :
      (c : ℕ) (cs : List ℕ) (ec : Option Text) (e : Text)
      → (c == stream) ≡ false
      → streams.is_open c ≡ true
      → streams.write c ≡ some e
      → round_of (c ∷ cs) ec ≡ record { sent = delivery c ∷ []; closed = []; ec = some e }
  unfolding send_round
  round-failed c cs ec e other on bad = rw other (rw on (rw bad refl))

  pub round-written :
      (c : ℕ) (cs : List ℕ) (ec : Option Text)
      → (c == stream) ≡ false
      → streams.is_open c ≡ true
      → streams.write c ≡ none
      → round_of (c ∷ cs) ec
        ≡ record (round_of cs none) { sent = delivery c ∷ (round_of cs none).sent }
  unfolding send_round
  round-written c cs ec other on fine = rw other (rw on (rw fine refl))
