-- ===== src/Http/Group/Writes/Follows.antt =====
-- One turn of a conversation is followed by its small steps.
use socker.Prelude.{
  ℕ, ◌≡◌, refl, sym, ap, ◌∙◌, inr, Bool, true, false, Option, none, some, List, [], ◌++◌,
  append-nil, map, nat_eq,
}
use socker.Text.{Text, text_eq}
use socker.Assoc.{get, put, put-get}
use socker.Boost.{Boost}
use socker.Http.Group.{Round, Turn, erase_all, send_round, multicast_message, to_multicast}
use socker.Http.Group.Rooms
use socker.Http.Group.Rooms.{Rooms, Conversation, end_loop, take_turn}
use socker.Http.Group.Writes.{
  talker, reading, returned, Talker, Floor, reads, set_phase, resume, after_read, read_ends, step,
  run,
}
use socker.Http.Group.Writes.Undisturbed.{write_events, after_round, resume-IsRun}
use socker.Http.Group.Writes.Runs.{run-cons}
use socker.Http.Group.Writes.Turns.{
  rooms_of, told, small_steps, IsIdle, conversation-put, IsIdle-put, Follows,
}
use socker.Http.Group.Writes.Told.{
  turn_taken, reads_taken, told_reading, multicast_nobody, multicast_members, run-read,
}

module _ (boost : Boost) where
  -- the loop of the conversation ends
  returned-Follows :
      (stream : ℕ) (t : Turn) (g : Text) (floor : Floor)
      → take_turn stream t (record { group = g; alive = true }) (rooms_of floor)
        ≡ end_loop stream (record { group = g; alive = true }) (rooms_of floor)
      → get stream floor.talkers ≡ some (talker g reading)
      → IsIdle floor
      → Follows boost
          (set_phase stream (talker g reading) returned floor)
          floor
          (Rooms.turns stream t)
  unfolding end_loop
  returned-Follows stream t g floor ends found idle = (
    ap (λ cs. record { clients = floor.clients; conversations = cs; sent = floor.sent })
          (conversation-put stream (talker g returned) floor.talkers)
        ∙ sym (turn_taken boost stream t (talker g reading) floor found ∙ ends),
    IsIdle-put stream (talker g returned) floor (inr refl) idle,
  )

  pub unchanged-Follows :
      (stream : ℕ) (t : Turn) (floor : Floor)
      → Rooms.step boost (rooms_of floor) (Rooms.turns stream t) ≡ rooms_of floor
      → IsIdle floor
      → Follows boost floor floor (Rooms.turns stream t)
  unchanged-Follows stream t floor same idle = (sym same, idle)

  -- the floor after a multicast
  round-Follows :
      (stream : ℕ) (t : Turn) (g : Text) (cs : List ℕ) (round : Round) (floor : Floor)
      → take_turn stream t (record { group = g; alive = true }) (rooms_of floor)
        ≡ record (rooms_of floor) {
          clients = put g (erase_all round.closed cs) floor.clients;
          sent = floor.sent ++ map (λ d. (stream, d)) round.sent;
        }
      → get stream floor.talkers ≡ some (talker g reading)
      → get g floor.clients ≡ some cs
      → IsIdle floor
      → Follows boost
          (after_round boost t.streams stream g floor [] round)
          floor
          (Rooms.turns stream t)
  round-Follows stream t g cs round floor tells found group idle =
      let same = put-get stream (talker g reading) floor.talkers found in
      rw (same, group)
        (sym (turn_taken boost stream t (talker g reading) floor found ∙ tells), idle)

  -- the turn of a conversation that reads
  module _ (stream : ℕ) (t : Turn) (g : Text) (floor : Floor)
      (found : get stream floor.talkers ≡ some (talker g reading)) where
    abbrev before : Talker
    before = talker g reading

    abbrev FollowsTurn : Type 0
    FollowsTurn =
        Follows boost (run boost (small_steps boost floor (Rooms.turns stream t)) floor) floor
          (Rooms.turns stream t)

    read-ends :
        step boost floor (reads stream t.own_open t.read t.streams.is_open)
        ≡ after_read stream t.own_open t.read t.streams.is_open before floor
    unfolding read_ends
    read-ends = reads_taken boost stream t.own_open t.read t.streams.is_open before floor found

    told-shut : t.own_open ≡ false → told stream t floor ≡ []
    told-shut shut = told_reading boost stream t g floor found ∙ rw shut refl

    told-ends : t.own_open ≡ true → to_multicast t.read ≡ none → told stream t floor ≡ []
    told-ends on ends = told_reading boost stream t g floor found ∙ rw on (rw ends refl)

    told-multicast :
        (m : Text) (got_text : Bool) (ec : Option Text)
        → t.own_open ≡ true
        → to_multicast t.read ≡ some (m, got_text, ec)
        → told stream t floor
          ≡ (multicast_message t.streams stream m got_text g ec floor.clients).1.sent
    told-multicast m got_text ec on tell =
        told_reading boost stream t g floor found ∙ rw on (rw tell refl)

    pub shut-Follows : t.own_open ≡ false → IsIdle floor → FollowsTurn
    unfolding after_read take_turn
    shut-Follows shut idle =
        let ended : after_read stream t.own_open t.read t.streams.is_open before floor
            ≡ set_phase stream before returned floor =
          rw shut refl in
        rw (run-read boost stream t floor (told-shut shut) ∙ read-ends ∙ ended)
          (returned-Follows stream t g floor (rw shut refl) found idle)

    pub ends-Follows : t.own_open ≡ true → to_multicast t.read ≡ none → IsIdle floor → FollowsTurn
    unfolding after_read take_turn
    ends-Follows on ends idle =
        let ended : after_read stream t.own_open t.read t.streams.is_open before floor
            ≡ set_phase stream before returned floor =
          rw on (rw ends refl) in
        rw (run-read boost stream t floor (told-ends on ends) ∙ read-ends ∙ ended)
          (returned-Follows stream t g floor (rw on (rw ends refl)) found idle)

    module _ (m : Text) (got_text : Bool) (ec : Option Text) (on : t.own_open ≡ true)
        (tell : to_multicast t.read ≡ some (m, got_text, ec)) where
      pub nobody-Follows : get g floor.clients ≡ none → IsIdle floor → FollowsTurn
      unfolding after_read take_turn
      nobody-Follows nobody idle =
          let silent =
            multicast_nobody boost t.streams stream m got_text g ec floor.clients nobody in
          let nothing : told stream t floor ≡ [] =
            told-multicast m got_text ec on tell ∙ ap (λ r. r.1.sent) silent in
          let ended : after_read stream t.own_open t.read t.streams.is_open before floor ≡ floor =
            rw on (rw tell (rw nobody refl)) in
          rw (run-read boost stream t floor nothing ∙ read-ends ∙ ended) (
            unchanged-Follows stream t floor
              (turn_taken boost stream t before floor found
                ∙ (rw on (rw tell (rw silent (rw (append-nil floor.sent) refl)))))
              idle)

      pub multicast-Follows :
          (cs : List ℕ) → get g floor.clients ≡ some cs → IsIdle floor → FollowsTurn
      unfolding after_read take_turn
      multicast-Follows cs group idle =
          let round = send_round t.streams stream m got_text cs ec in
          let all =
            multicast_members boost t.streams stream m got_text g ec floor.clients cs group in
          let sends : told stream t floor ≡ round.sent =
            told-multicast m got_text ec on tell ∙ ap (λ r. r.1.sent) all in
          let resumed : after_read stream t.own_open t.read t.streams.is_open before floor
              ≡ resume t.streams.is_open stream before m got_text cs [] floor =
            rw on (rw tell (rw group refl)) in
          let ran : run boost (small_steps boost floor (Rooms.turns stream t)) floor
              ≡ after_round boost t.streams stream g floor [] round =
            rw sends (
              run-cons boost _ (write_events boost t.streams stream round.sent) floor
              ∙ ap (run boost (write_events boost t.streams stream round.sent))
                  (read-ends ∙ resumed)
              ∙ resume-IsRun boost t.streams stream g m got_text cs [] before ec floor refl) in
          rw ran (
            round-Follows stream t g cs round floor (rw on (rw tell (rw all refl))) found group
              idle)
