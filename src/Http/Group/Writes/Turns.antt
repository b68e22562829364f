-- ===== src/Http/Group/Writes/Turns.antt =====
-- The turns of conversations, each of them undisturbed, as runs of the smaller steps.
use socker.Prelude.{
  ℕ, ◌≡◌, ◌⊎◌, refl, ap, inl, inr, Bool, true, false, not, none, some, List, [], ◌∷◌, map, ◌==◌,
  nat_eq, Bool-cases, if◌then◌else◌,
}
use mathlib.Core.Option
use socker.Text.{text_eq}
use socker.Assoc.{Assoc, get, put}
use socker.Boost.{Boost}
use socker.Http.Group.{Delivered, Turn, multicast_message, to_multicast}
use socker.Http.Group.Rooms
use socker.Http.Group.Rooms.{Rooms, Conversation, end_loop, take_turn}
use socker.Http.Group.Writes
use socker.Http.Group.Writes.{
  Phase, reading, writing, returned, Talker, Floor, Event, reads, writes, advance, set_phase,
  finish_multicast, resume, after_read, read_ends, write_ends, enter, step, run,
}
use socker.Http.Group.Writes.Floors.{found-put}
use socker.Http.Group.Writes.Undisturbed.{write_events}

-- whether the loop of a conversation still runs
abbrev pub is_alive : Phase → Bool
is_alive returned = false
is_alive _ = true

abbrev pub conversation : Talker → Conversation
conversation t = record { group = t.group; alive = is_alive t.phase }

-- the conversations, without what each of them waits for
abbrev pub rooms_of : Floor → Rooms
rooms_of floor = record {
  clients = floor.clients;
  conversations = map (λ (entry : ℕ × Talker). (entry.0, conversation entry.1)) floor.talkers;
  sent = floor.sent;
}

-- what a turn sends
unfoldable pub told : ℕ → Turn → Floor → List Delivered
told stream t floor = elim (get stream floor.talkers) [
  | none ↦ []
  | some c ↦
      if not (is_alive c.phase)
      then []
      else if not t.own_open
      then []
      else elim (to_multicast t.read) [
        | none ↦ []
        | some (m, got_text, ec) ↦
            (multicast_message t.streams stream m got_text c.group ec floor.clients).1.sent
      ]
]

-- The small steps of one event of Rooms: those of a turn are its read and its writes.
abbrev pub small_steps : Boost → Floor → Rooms.Event → List Event
small_steps boost floor (Rooms.accepts stream target error) =
    Writes.accepts stream target error ∷ []
small_steps boost floor (Rooms.turns stream t) =
    reads stream t.own_open t.read t.streams.is_open
    ∷ write_events boost t.streams stream (told stream t floor)

-- no multicast is under way
abbrev pub IsIdle : Floor → Type 0
IsIdle floor =
    (s : ℕ) (t : Talker) → get s floor.talkers ≡ some t → (t.phase ≡ reading) ⊎ (t.phase ≡ returned)

pub conversation-get :
    (k : ℕ) (m : Assoc ℕ Talker)
    → get k (map (λ (entry : ℕ × Talker). (entry.0, conversation entry.1)) m)
      ≡ Option.map conversation (get k m)
unfolding get
conversation-get k [] = refl
conversation-get k ((j, t) ∷ m) = elim (Bool-cases (j == k)) [
  | inl same ↦ rw same refl
  | inr other ↦ rw other (conversation-get k m)
]

pub conversation-put :
    (k : ℕ) (t : Talker) (m : Assoc ℕ Talker)
    → map (λ (entry : ℕ × Talker). (entry.0, conversation entry.1)) (put k t m)
      ≡ put k (conversation t) (map (λ (entry : ℕ × Talker). (entry.0, conversation entry.1)) m)
unfolding put
conversation-put k t [] = refl
conversation-put k t ((j, u) ∷ m) = elim (Bool-cases (j == k)) [
  | inl same ↦ rw same refl
  | inr other ↦ rw other (ap (λ n. (j, conversation u) ∷ n) (conversation-put k t m))
]

-- the floor has followed an event of Rooms, and no multicast is under way
abbrev pub Follows : Boost → Floor → Floor → Rooms.Event → Type 0
Follows boost new old e = (rooms_of new ≡ Rooms.step boost (rooms_of old) e) × IsIdle new

pub IsIdle-put :
    (stream : ℕ) (t : Talker) (floor : Floor)
    → (t.phase ≡ reading) ⊎ (t.phase ≡ returned)
    → IsIdle floor
    → (s : ℕ) (u : Talker) → get s (put stream t floor.talkers) ≡ some u
    → (u.phase ≡ reading) ⊎ (u.phase ≡ returned)
IsIdle-put stream t floor still idle s u h = elim (found-put stream s t u floor.talkers h) [
  | inl new ↦ rw new still
  | inr old ↦ idle s u old
]
