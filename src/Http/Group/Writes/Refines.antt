-- ===== src/Http/Group/Writes/Refines.antt =====
-- The conversations of Rooms, a turn at a time, are runs of the smaller steps of Writes.
use socker.Prelude.{
  ℕ, ◌≡◌, refl, sym, ap, ◌∙◌, inl, inr, none, some, List, [], ◌∷◌, ◌++◌, nat_eq, Bool-cases,
  Option-cases,
}
use socker.Text.{Text, text_eq}
use socker.Assoc.{get}
use socker.Boost.{Boost}
use socker.Http.Group.{Turn, join, to_multicast}
use socker.Http.Group.Rooms
use socker.Http.Group.Rooms.{Rooms, Conversation, end_loop, take_turn}
use socker.Http.Group.Writes
use socker.Http.Group.Writes.{
  talker, Phase, reading, writing, returned, Talker, Floor, Event, reads, writes, advance,
  set_phase, finish_multicast, resume, after_read, read_ends, write_ends, enter, step, run,
}
use socker.Http.Group.Writes.Runs.{run-append, run-none, run-cons}
use socker.Http.Group.Writes.Turns.{
  rooms_of, small_steps, IsIdle, conversation-get, conversation-put, IsIdle-put, Follows,
}
use socker.Http.Group.Writes.Follows.{
  shut-Follows, ends-Follows, nobody-Follows, multicast-Follows, unchanged-Follows,
}
use socker.Http.Group.Writes.Told.{
  turn_nobody, told_nobody, told_returned, turn_taken, reads_taken, reads_nobody, run-read,
}

module _ (boost : Boost) where
  -- the small steps of many events, each turn's before those of the next event
  unfoldable pub all_steps : Floor → List Rooms.Event → List Event
  all_steps floor [] = []
  all_steps floor (e ∷ es) =
      small_steps boost floor e ++ all_steps (run boost (small_steps boost floor e) floor) es

  reading-Follows :
      (stream : ℕ) (t : Turn) (g : Text) (floor : Floor)
      → get stream floor.talkers ≡ some (talker g reading)
      → IsIdle floor
      → Follows boost
          (run boost (small_steps boost floor (Rooms.turns stream t)) floor)
          floor
          (Rooms.turns stream t)
  reading-Follows stream t g floor found idle = elim (Bool-cases t.own_open) [
    | inr shut ↦ shut-Follows boost stream t g floor found shut idle
    | inl on ↦ elim (Option-cases (to_multicast t.read)) [
      | inl ends ↦ ends-Follows boost stream t g floor found on ends idle
      | inr ((m, got_text, ec), tell) ↦ elim (Option-cases (get g floor.clients)) [
        | inl nobody ↦ nobody-Follows boost stream t g floor found m got_text ec on tell nobody idle
        | inr (cs, group) ↦
            multicast-Follows boost stream t g floor found m got_text ec on tell cs group idle
      ]
    ]
  ]

  returned_Follows :
      (stream : ℕ) (t : Turn) (g : Text) (floor : Floor)
      → get stream floor.talkers ≡ some (talker g returned)
      → IsIdle floor
      → Follows boost
          (run boost (small_steps boost floor (Rooms.turns stream t)) floor)
          floor
          (Rooms.turns stream t)
  unfolding read_ends take_turn
  returned_Follows stream t g floor found idle =
      rw
        (run-read boost stream t floor (told_returned boost stream t g floor found)
          ∙ reads_taken boost stream t.own_open t.read t.streams.is_open (talker g returned) floor
              found)
        (unchanged-Follows boost stream t floor
          (turn_taken boost stream t (talker g returned) floor found) idle)

  turn-Follows :
      (stream : ℕ) (t : Turn) (floor : Floor)
      → IsIdle floor
      → Follows boost
          (run boost (small_steps boost floor (Rooms.turns stream t)) floor)
          floor
          (Rooms.turns stream t)
  turn-Follows stream t floor idle = elim (Option-cases (get stream floor.talkers)) [
    | inl nobody ↦
        rw
          (run-read boost stream t floor (told_nobody boost stream t floor nobody)
            ∙ reads_nobody boost stream t.own_open t.read t.streams.is_open floor nobody)
          (unchanged-Follows boost stream t floor (turn_nobody boost stream t floor nobody) idle)
    | inr (c, found) ↦ elim (idle stream c found) [
      | inl reads_ ↦
          reading-Follows stream t c.group floor (found ∙ ap (λ p. some (talker c.group p)) reads_)
            idle
      | inr gone ↦
          returned_Follows stream t c.group floor (found ∙ ap (λ p. some (talker c.group p)) gone)
            idle
    ]
  ]

  enter-Follows :
      (stream : ℕ) (target : Text) (floor : Floor)
      → IsIdle floor
      → Follows boost (enter boost stream target floor) floor (Rooms.accepts stream target none)
  unfolding Rooms.step enter Rooms.enter get
  enter-Follows stream target floor idle = elim (Option-cases (get stream floor.talkers)) [
    | inr (t, taken) ↦
        rw (taken, enter)
          (sym (rw (conversation-get stream floor.talkers, Rooms.enter) (rw taken refl)), idle)
    | inl fresh ↦
        rw (fresh, enter)
          (
            ap
                  (λ cs. record {
                    clients = join stream (boost.to_lower_copy target) floor.clients;
                    conversations = cs;
                    sent = floor.sent;
                  })
                  (conversation-put stream (talker (boost.to_lower_copy target) reading)
                    floor.talkers)
                ∙ sym (rw (conversation-get stream floor.talkers, Rooms.enter) (rw fresh refl)),
            IsIdle-put stream (talker (boost.to_lower_copy target) reading) floor (inl refl) idle,
          )
  ]

  event-Follows :
      (e : Rooms.Event) (floor : Floor)
      → IsIdle floor
      → Follows boost (run boost (small_steps boost floor e) floor) floor e
  unfolding step Rooms.step
  event-Follows (Rooms.turns stream t) floor idle = turn-Follows stream t floor idle
  event-Follows (Rooms.accepts stream target none) floor idle =
      rw
        (run-cons boost (Writes.accepts stream target none) [] floor
          ∙ run-none boost (enter boost stream target floor))
        (enter-Follows stream target floor idle)
  event-Follows (Rooms.accepts stream target (some e)) floor idle =
      rw (run-cons boost (Writes.accepts stream target (some e)) [] floor ∙ run-none boost floor)
        (refl, idle)

  -- On a floor where no multicast is under way, let conversations be accepted and take turns, in any
  -- order. Run as the smaller steps, each turn being its read and, one after the other, the writes
  -- of its multicast, they leave the same clients of the groups, the same conversations running and
  -- the same messages sent as the turns do as a whole, and no multicast is under way at the end.
  pub run-all_steps :
      (es : List Rooms.Event) (floor : Floor)
      → IsIdle floor
      → (rooms_of (run boost (all_steps floor es) floor) ≡ Rooms.run boost es (rooms_of floor))
        × IsIdle (run boost (all_steps floor es) floor)
  unfolding all_steps Rooms.run
  run-all_steps [] floor idle = rw (run-none boost floor) (refl, idle)
  run-all_steps (e ∷ es) floor idle =
      let after = run boost (small_steps boost floor e) floor in
      let (follows, still) = event-Follows e floor idle in
      let (rest, end) = run-all_steps es after still in
      rw (run-append boost (small_steps boost floor e) (all_steps after es) floor)
        (rest ∙ ap (Rooms.run boost es) follows, end)
