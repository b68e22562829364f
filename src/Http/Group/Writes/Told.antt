-- ===== src/Http/Group/Writes/Told.antt =====
-- A turn of a conversation, and what it tells the others, case by case.
use socker.Prelude.{
  ℕ, ◌≡◌, refl, ◌∙◌, Bool, not, Option, none, some, List, [], nat_eq, if◌then◌else◌,
}
use socker.Text.{Text, text_eq}
use socker.Assoc.{get, put}
use socker.Boost.{Boost}
use socker.Http.Group.{
  Clients, Streams, ReadResult, Turn, erase_all, send_round, multicast_message, to_multicast,
}
use socker.Http.Group.Rooms
use socker.Http.Group.Rooms.{Rooms, Conversation, end_loop, take_turn}
use socker.Http.Group.Writes.{talker, reading, returned, Talker, Floor, reads, read_ends, step, run}
use socker.Http.Group.Writes.Runs.{run-none, run-cons}
use socker.Http.Group.Writes.Turns.{conversation, rooms_of, told, small_steps, conversation-get}

module _ (boost : Boost) where
  -- a turn for which the rooms stay as they are
  pub turn_nobody :
      (stream : ℕ) (t : Turn) (floor : Floor)
      → get stream floor.talkers ≡ none
      → Rooms.step boost (rooms_of floor) (Rooms.turns stream t) ≡ rooms_of floor
  unfolding Rooms.step
  turn_nobody stream t floor nobody =
      rw (conversation-get stream floor.talkers, Rooms.step) (rw nobody refl)

  pub turn_taken :
      (stream : ℕ) (t : Turn) (c : Talker) (floor : Floor)
      → get stream floor.talkers ≡ some c
      → Rooms.step boost (rooms_of floor) (Rooms.turns stream t)
        ≡ take_turn stream t (conversation c) (rooms_of floor)
  unfolding Rooms.step
  turn_taken stream t c floor found =
      rw (conversation-get stream floor.talkers, Rooms.step) (rw found refl)

  pub reads_taken :
      (stream : ℕ) (own_open : Bool) (result : ReadResult) (is_open : ℕ → Bool) (c : Talker)
      (floor : Floor)
      → get stream floor.talkers ≡ some c
      → step boost floor (reads stream own_open result is_open)
        ≡ read_ends stream own_open result is_open c floor
  unfolding step
  reads_taken stream own_open result is_open c floor found = rw (found, step) refl

  pub reads_nobody :
      (stream : ℕ) (own_open : Bool) (result : ReadResult) (is_open : ℕ → Bool) (floor : Floor)
      → get stream floor.talkers ≡ none
      → step boost floor (reads stream own_open result is_open) ≡ floor
  unfolding step
  reads_nobody stream own_open result is_open floor nobody = rw (nobody, step) refl

  pub told_nobody :
      (stream : ℕ) (t : Turn) (floor : Floor)
      → get stream floor.talkers ≡ none
      → told stream t floor ≡ []
  unfolding told
  told_nobody stream t floor nobody = rw (nobody, told) refl

  pub told_returned :
      (stream : ℕ) (t : Turn) (g : Text) (floor : Floor)
      → get stream floor.talkers ≡ some (talker g returned)
      → told stream t floor ≡ []
  unfolding told
  told_returned stream t g floor found = rw (found, told) refl

  pub told_reading :
      (stream : ℕ) (t : Turn) (g : Text) (floor : Floor)
      → get stream floor.talkers ≡ some (talker g reading)
      → told stream t floor ≡ (
          if not t.own_open then [] else elim (to_multicast t.read) [
            | none ↦ []
            | some (m, got_text, ec) ↦
                (multicast_message t.streams stream m got_text g ec floor.clients).1.sent
          ])
  unfolding told
  told_reading stream t g floor found = rw (found, told) refl

  pub multicast_nobody :
      (streams : Streams) (stream : ℕ) (m : Text) (as_text : Bool) (g : Text) (ec : Option Text)
      (clients : Clients)
      → get g clients ≡ none
      → multicast_message streams stream m as_text g ec clients
        ≡ (clients, record { sent = []; closed = []; ec = ec })
  unfolding multicast_message
  multicast_nobody streams stream m as_text g ec clients nobody =
      rw (nobody, multicast_message) refl

  pub multicast_members :
      (streams : Streams) (stream : ℕ) (m : Text) (as_text : Bool) (g : Text) (ec : Option Text)
      (clients : Clients) (cs : List ℕ)
      → get g clients ≡ some cs
      → multicast_message streams stream m as_text g ec clients ≡ (
          let round = send_round streams stream m as_text cs ec in
          (put g (erase_all round.closed cs) clients, round))
  unfolding multicast_message
  multicast_members streams stream m as_text g ec clients cs group =
      rw (group, multicast_message) refl

  -- the turn only reads
  pub run-read :
      (stream : ℕ) (t : Turn) (floor : Floor)
      → told stream t floor ≡ []
      → run boost (small_steps boost floor (Rooms.turns stream t)) floor
        ≡ step boost floor (reads stream t.own_open t.read t.streams.is_open)
  run-read stream t floor nothing = rw nothing (run-cons boost _ [] floor ∙ run-none boost _)
