-- ===== src/Tests/Groups.antt =====
-- Tests of the websocket groups.
use socker.Prelude.{
  ℕ, ◌≡◌, refl, ◌≢◌, ◌↔◌, ◌⊎◌, inl, inr, true, not, none, some, List, [], ◌∷◌, map, Has, ◌==◌,
  nat_eq,
}
use socker.Assoc.{get, put}
use socker.Text.{bytes, text_eq, text_beq, tolower}
use socker.Http.Group.{
  Clients, closes, join, to_multicast, erase_all, Streams, Delivered, message, Turn,
  multicast_message,
}
use socker.Boost.Reference.{reference}
use socker.Http.Group.Writes
use socker.Http.Group.Writes.{
  Talker, reading, empty_floor, resume, advance, finish_multicast, after_read, read_ends,
  write_ends,
}
use socker.Http.Group.Writes.Floors.{IsInside}
use socker.Http.Registrar.{emplace}
use socker.Http.Group.Delivery.{multicast_message_lem}

-- the stream 3 is closed
abbrev streams : Streams
streams = record { is_open = λ c. not (c == 3); write = λ c. none }

abbrev clients : Clients
clients = (bytes "/g", 1 ∷ 2 ∷ 3 ∷ []) ∷ (bytes "/h", 1 ∷ []) ∷ []

found_group : get (bytes "/g") clients ≡ some (1 ∷ 2 ∷ 3 ∷ [])
unfolding get text_beq
found_group = refl

closes_test : closes clients ≡ 1 ∷ 2 ∷ 3 ∷ 1 ∷ []
unfolding closes
closes_test = refl

multicast_message_lem_example :
    (((◌≢◌ {A = ℕ} 2 1) × (streams.is_open 2 ≡ true))
      → Has 2 (
          map
            (λ (d : Delivered). d.to)
            (multicast_message streams 1 (bytes "hi") true (bytes "/g") none clients).1.sent))
    × ((ds : List ℕ) × (get
            (bytes "/g")
            (multicast_message streams 1 (bytes "hi") true (bytes "/g") none clients).0
          ≡ some ds)
        × (Has 2 ds ↔ ((◌≡◌ {A = ℕ} 2 1) ⊎ (streams.is_open 2 ≡ true))))
multicast_message_lem_example =
    multicast_message_lem streams 1 (bytes "hi") true (λ c. refl) (bytes "/g") none clients
      (1 ∷ 2 ∷ 3 ∷ []) 2 found_group (inr (inl refl))

abbrev turn : Turn
turn = record { own_open = true; read = message (bytes "x") true; streams = streams }

-- 1 and 2 are in the group /g, 3 is in /h; 3 speaks between the two writes of 1
abbrev talk : List Writes.Event
talk =
    Writes.accepts 1 (bytes "/G") none
    ∷ Writes.accepts 2 (bytes "/g") none
    ∷ Writes.accepts 3 (bytes "/h") none
    ∷ Writes.accepts 4 (bytes "/g") none
    ∷ Writes.reads 1 true (message (bytes "x") true) (λ c. true)
    ∷ Writes.reads 3 true (message (bytes "y") true) (λ c. true)
    ∷ Writes.writes 1 none (λ c. true)
    ∷ []

talk_tests :
    (map {B = ℕ × ℕ}
        (λ (m : ℕ × Delivered). (m.0, m.1.to))
        (Writes.run reference talk empty_floor).sent
      ≡ (1, 2) ∷ (1, 4) ∷ [])
    × (get 1
          (Writes.run reference
            (Writes.writes 1 none (λ c. true) ∷ [])
            (Writes.run reference talk empty_floor)).talkers
        ≡ some (record { group = bytes "/g"; phase = reading }))
unfolding Writes.run Writes.step Writes.enter resume advance finish_multicast after_read read_ends
    write_ends get put join emplace to_multicast text_beq tolower erase_all
talk_tests = (refl, refl)

empty_floor-IsInside : IsInside empty_floor
unfolding get
empty_floor-IsInside = record {
  member = λ x g h. absurd h;
  bound = λ s t h. absurd (nothing h);
  local = tt;
}
  where
    nothing : {t : Talker} → none ≡ some t → ⊥
    nothing h = cc
