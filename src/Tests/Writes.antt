-- ===== src/Tests/Writes.antt =====
-- Tests of websocket conversations in their smallest steps.
use socker.Prelude.{◌≤◌, ◌≡◌, refl, true, none, some, List, [], ◌∷◌, ◌++◌, arith, nat_eq}
use socker.Assoc.{get}
use socker.Boost.Reference.{reference}
use socker.Text.{bytes, text_eq, text_beq}
use socker.Http.Group.{message, Turn}
use socker.Http.Group.Rooms
use socker.Http.Group.Writes
use socker.Http.Group.Writes.{
  Talker, Floor, reading, writing, empty_floor, resume, advance, finish_multicast, after_read,
  read_ends, write_ends,
}
use socker.Http.Group.Writes.Clash.{WritesTo, two_writes}
use socker.Http.Group.Writes.Turns.{rooms_of, IsIdle}
use socker.Http.Group.Writes.Refines.{all_steps, run-all_steps}
use socker.Http.Group.Writes.Ending.{pending, own_writes, run-pending}

abbrev turn : Turn
turn = record {
  own_open = true;
  read = message (bytes "x") true;
  streams = record { is_open = λ c. true; write = λ c. none };
}

abbrev turns : List Rooms.Event
turns =
    Rooms.accepts 1 (bytes "/G") none ∷ Rooms.accepts 2 (bytes "/g") none ∷ Rooms.turns 1 turn ∷ []

empty_floor-IsIdle : IsIdle empty_floor
unfolding get
empty_floor-IsIdle = λ s t h. absurd cc

run-all_steps_example :
    (rooms_of (Writes.run reference (all_steps reference empty_floor turns) empty_floor)
      ≡ Rooms.run reference turns (rooms_of empty_floor))
    × IsIdle (Writes.run reference (all_steps reference empty_floor turns) empty_floor)
run-all_steps_example = run-all_steps reference turns empty_floor empty_floor-IsIdle

-- 1 waits for its write to 2, with 4 behind it
abbrev busy_floor : Floor
busy_floor = record {
  clients = (bytes "/g", 1 ∷ 2 ∷ 4 ∷ []) ∷ [];
  talkers = (1, record { group = bytes "/g"; phase = writing 2 (4 ∷ []) [] (bytes "x") true }) ∷ [];
  sent = [];
}

abbrev ends : List Writes.Event
ends =
    Writes.writes 1 none (λ c. true)
    ∷ Writes.accepts 3 (bytes "/h") none
    ∷ Writes.writes 1 none (λ c. true)
    ∷ []

enough_ends : pending 1 busy_floor ≤ own_writes 1 ends
unfolding get
enough_ends = omega arith

run-pending_example :
    (before : List Writes.Event) × (later : List Writes.Event) × (ends ≡ before ++ later)
    × (pending 1 (Writes.run reference before busy_floor) ≡ 0)
    × (own_writes 1 before ≤ pending 1 busy_floor)
run-pending_example = run-pending reference 1 ends busy_floor enough_ends

-- 1 and 2 read in the group of 0
abbrev reading_floor : Floor
reading_floor = record {
  clients = (bytes "/g", 0 ∷ 1 ∷ 2 ∷ []) ∷ [];
  talkers =
      (1, record { group = bytes "/g"; phase = reading })
      ∷ (2, record { group = bytes "/g"; phase = reading })
      ∷ [];
  sent = [];
}

one_reads : get 1 reading_floor.talkers ≡ some (record { group = bytes "/g"; phase = reading })
unfolding get
one_reads = refl

two_reads : get 2 reading_floor.talkers ≡ some (record { group = bytes "/g"; phase = reading })
unfolding get
two_reads = refl

in_group : get (bytes "/g") reading_floor.clients ≡ some (0 ∷ 1 ∷ 2 ∷ [])
unfolding get text_beq
in_group = refl

abbrev both : List Writes.Event
both =
    Writes.reads 1 true (message (bytes "x") true) (λ c. true)
    ∷ Writes.reads 2 true (message (bytes "y") true) (λ c. true)
    ∷ []

two_writes_example :
    WritesTo reference 1 0 (bytes "x") (Writes.run reference both reading_floor)
    × WritesTo reference 2 0 (bytes "y") (Writes.run reference both reading_floor)
two_writes_example =
    two_writes reference 1 2 0 (1 ∷ 2 ∷ []) (bytes "/g") (bytes "x") (bytes "y") true true
      (λ c. true) (λ c. true) reading_floor one_reads two_reads in_group (λ e. ground arith)
      (λ e. ground arith) (λ e. ground arith) refl refl

-- the writes of 1 end, and 5 comes in between
abbrev one_writes : List Writes.Event
one_writes =
    Writes.writes 1 none (λ c. true)
    ∷ Writes.accepts 5 (bytes "/g") none
    ∷ Writes.writes 1 none (λ c. true)
    ∷ Writes.writes 1 none (λ c. true)
    ∷ []
