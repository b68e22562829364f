-- ===== src/Http/Group/Writes.antt =====
-- The conversations of the WebSocketGroupHandler of Depends/Asula/Include/Asula/HttpServer.hpp in
-- their smallest steps: a conversation runs from one asynchronous call to the next, so other
-- conversations come between the writes of one multicast. A stream is accepted once.
pub mod Floors
pub mod Runs
pub mod Stopping
pub mod Rounds
pub mod Loop
pub mod Undisturbed
pub mod Turns
mod Told
pub mod Follows
pub mod Refines
pub mod Clash
mod Growth
pub mod Reaching
mod Others
pub mod Ending
pub mod Members
pub mod Inside
use socker.Prelude.{
  ℕ, Bool, true, false, not, Option, none, some, List, [], ◌∷◌, ◌++◌, if◌then◌else◌, ◌==◌, nat_eq,
}
use socker.Text.{Text, text_eq}
use socker.Assoc
use socker.Assoc.{Assoc}
use socker.Boost.{Boost}
use socker.Http.Group.{Clients, Delivered, ReadResult, members, join, erase_all, to_multicast}

-- Which asynchronous call a conversation waits for: its read, or a write of a multicast to one
-- client. `rest` are the copied clients behind it, and `closed` those that were found closed.
pub data Phase : Type 0 where
  reading : Phase
  writing : (to : ℕ) → (rest closed : List ℕ) → (message : Text) → (as_text : Bool) → Phase
  returned : Phase

pub record Talker : Type 0 where
  pub group : Text
  pub phase : Phase

abbrev pub talker : Text → Phase → Talker
talker g p = record { group = g; phase = p }

pub record Floor : Type 0 where
  pub clients : Clients
  pub talkers : Assoc ℕ Talker
  pub sent : List (ℕ × Delivered)

abbrev pub empty_floor : Floor
empty_floor = record { clients = []; talkers = []; sent = [] }

-- what ends, and which streams are open then
pub data Event : Type 0 where
  accepts : (stream : ℕ) → (target : Text) → (error : Option Text) → Event
  reads : (stream : ℕ) → (own_open : Bool) → ReadResult → (is_open : ℕ → Bool) → Event
  writes : (stream : ℕ) → (error : Option Text) → (is_open : ℕ → Bool) → Event

-- the loop over the copied clients up to its next write: the closed ones, and who is written to
unfoldable pub advance : (is_open : ℕ → Bool) → ℕ → List ℕ → List ℕ → List ℕ × Option (ℕ × List ℕ)
advance is_open stream [] closed = (closed, none)
advance is_open stream (c ∷ cs) closed =
    let skipped = advance is_open stream cs closed in
    let shut = advance is_open stream cs (closed ++ c ∷ []) in
    if c == stream then skipped else if not (is_open c) then shut else (closed, some (c, cs))

abbrev pub set_phase : ℕ → Talker → Phase → Floor → Floor
set_phase stream t phase floor = record floor {
  talkers = Assoc.put stream (record t { phase = phase }) floor.talkers;
}

-- the end of multicastMessage: the closed clients are erased from the group as it is then
unfoldable pub finish_multicast : ℕ → Talker → List ℕ → Floor → Floor
finish_multicast stream t closed floor = set_phase stream t reading (record floor {
  clients = Assoc.put t.group (erase_all closed (members t.group floor.clients)) floor.clients;
})

-- the loop goes on
unfoldable pub resume :
    (is_open : ℕ → Bool) → ℕ → Talker → Text → Bool → (cs closed : List ℕ) → Floor → Floor
resume is_open stream t msg as_text cs closed floor =
    let (shut, next) = advance is_open stream cs closed in
    elim next [
      | none ↦ finish_multicast stream t shut floor
      | some (c, rest) ↦ set_phase stream t (writing c rest shut msg as_text) (record floor {
        sent = floor.sent ++ (stream, record { to = c; message = msg; as_text = as_text }) ∷ [];
      })
    ]

-- a read ends: is_open of the own stream was tested before it
unfoldable pub after_read : ℕ → Bool → ReadResult → (ℕ → Bool) → Talker → Floor → Floor
after_read stream own_open result is_open t floor =
    if not own_open then set_phase stream t returned floor else elim (to_multicast result) [
      | none ↦ set_phase stream t returned floor
      | some (m, got_text, ec) ↦ elim (Assoc.get t.group floor.clients) [
        | none ↦ floor
        | some cs ↦ resume is_open stream t m got_text cs [] floor
      ]
    ]

-- a conversation goes on after its read
unfoldable pub read_ends : ℕ → Bool → ReadResult → (ℕ → Bool) → Talker → Floor → Floor
read_ends stream own_open result is_open t floor = elim t.phase [
  | reading ↦ after_read stream own_open result is_open t floor
  | writing to rest closed msg as_text ↦ floor
  | returned ↦ floor
]

-- a conversation goes on after a write of a multicast
unfoldable pub write_ends : ℕ → Option Text → (ℕ → Bool) → Talker → Floor → Floor
write_ends stream error is_open t floor = elim t.phase [
  | reading ↦ floor
  | writing to rest closed msg as_text ↦ elim error [
    | some e ↦ finish_multicast stream t closed floor
    | none ↦ resume is_open stream t msg as_text rest closed floor
  ]
  | returned ↦ floor
]

-- handle up to its first read
unfoldable pub enter : Boost → ℕ → Text → Floor → Floor
enter boost stream target floor =
    let group = boost.to_lower_copy target in
    elim (Assoc.get stream floor.talkers) [
      | some t ↦ floor
      | none ↦ record floor {
        clients = join stream group floor.clients;
        talkers = Assoc.put stream (record { group = group; phase = reading }) floor.talkers;
      }
    ]

module _ (boost : Boost) where
  unfoldable pub step : Floor → Event → Floor
  step floor (accepts stream target (some e)) = floor
  step floor (accepts stream target none) = enter boost stream target floor
  step floor (reads stream own_open result is_open) = elim (Assoc.get stream floor.talkers) [
    | none ↦ floor
    | some t ↦ read_ends stream own_open result is_open t floor
  ]
  step floor (writes stream error is_open) = elim (Assoc.get stream floor.talkers) [
    | none ↦ floor
    | some t ↦ write_ends stream error is_open t floor
  ]

  unfoldable pub run : List Event → Floor → Floor
  run [] floor = floor
  run (e ∷ es) floor = run es (step floor e)
