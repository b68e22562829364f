-- ===== src/Http/Group/Writes/Undisturbed.antt =====
-- A multicast that no other conversation disturbs.
use socker.Prelude.{
  ℕ, ◌≡◌, refl, ap, ◌∙◌, inl, inr, Bool, true, false, Option, none, some, List, [], ◌∷◌, ◌++◌,
  append-nil, append_assoc, map, ◌==◌, nat_eq, Bool-cases, Option-cases,
}
use socker.Text.{Text, text_eq}
use socker.Assoc.{put, put-put, get-put_self}
use socker.Boost.{Boost}
use socker.Http.Group.{Streams, Delivered, Round, members, erase_all, send_round}
use socker.Http.Group.Writes.{
  talker, reading, writing, Talker, Floor, Event, writes, advance, finish_multicast, resume,
  write_ends, step, run,
}
use socker.Http.Group.Writes.Runs.{run-none, run-cons}
use socker.Http.Group.Writes.Rounds
use socker.Http.Group.Writes.Loop
use socker.Http.Group.Writes.Loop.{resume-own, resume-shut, resume-writes}
use socker.Http.Group.Writes.Rounds.{round-own, round-shut, round-failed, round-written, round-nil}

module _ (boost : Boost) (streams : Streams) (stream : ℕ) where
  -- the writes of a multicast, one after the other
  abbrev pub write_events : List Delivered → List Event
  write_events ds = map (λ d. writes stream (streams.write d.to) streams.is_open) ds

  -- a floor after a multicast of the stream
  abbrev pub after_round : Text → Floor → List ℕ → Round → Floor
  after_round g floor closed round = record {
    clients = put g (erase_all (closed ++ round.closed) (members g floor.clients)) floor.clients;
    talkers = put stream (talker g reading) floor.talkers;
    sent = floor.sent ++ map (λ d. (stream, d)) round.sent;
  }

  module _ (g msg : Text) (as_text : Bool) where
    abbrev pub resumed : Talker → List ℕ → List ℕ → Floor → Floor
    resumed = Loop.resumed streams stream g msg as_text

    abbrev pub round_of : List ℕ → Option Text → Round
    round_of cs ec = send_round streams stream msg as_text cs ec

    abbrev delivery : ℕ → Delivered
    delivery c = Rounds.delivery streams stream msg as_text c

    abbrev pub written : ℕ → List ℕ → List ℕ → Floor → Floor
    written = Loop.written streams stream g msg as_text

    resume-nil :
        (t : Talker) (closed : List ℕ) (floor : Floor)
        → t.group ≡ g
        → resumed t [] closed floor
          ≡ after_round g floor closed (record { sent = []; closed = []; ec = none })
    unfolding resume advance finish_multicast
    resume-nil t closed floor of = rw of (rw (append-nil closed, append-nil floor.sent) refl)

    step-failed :
        (c : ℕ) (cs closed : List ℕ) (floor : Floor) (e : Text)
        → streams.write c ≡ some e
        → step boost (written c cs closed floor) (writes stream (streams.write c) streams.is_open)
          ≡ finish_multicast stream
              (talker g (writing c cs closed msg as_text))
              closed
              (written c cs closed floor)
    unfolding step write_ends
    step-failed c cs closed floor e bad =
        rw (get-put_self stream (talker g (writing c cs closed msg as_text)) floor.talkers, step)
          (rw bad refl)

    step-written :
        (c : ℕ) (cs closed : List ℕ) (floor : Floor)
        → streams.write c ≡ none
        → step boost (written c cs closed floor) (writes stream (streams.write c) streams.is_open)
          ≡ resumed
              (talker g (writing c cs closed msg as_text))
              cs
              closed
              (written c cs closed floor)
    unfolding step write_ends
    step-written c cs closed floor fine =
        rw (get-put_self stream (talker g (writing c cs closed msg as_text)) floor.talkers, step)
          (rw fine refl)

    finish-written :
        (c : ℕ) (cs closed : List ℕ) (floor : Floor)
        → finish_multicast stream
            (talker g (writing c cs closed msg as_text))
            closed
            (written c cs closed floor)
          ≡ after_round g floor closed (record { sent = delivery c ∷ []; closed = []; ec = none })
    unfolding finish_multicast
    finish-written c cs closed floor =
        rw
          (
            append-nil closed,
            put-put stream (talker g reading) (talker g (writing c cs closed msg as_text))
                floor.talkers,
          )
          refl

    -- what the rest of a loop does, if it is resumed and its writes end one after the other
    abbrev pub IsRun : List ℕ → Type 0
    IsRun cs =
        (closed : List ℕ) (t : Talker) (ec : Option Text) (floor : Floor)
        → t.group ≡ g
        → run boost (write_events (round_of cs ec).sent) (resumed t cs closed floor)
          ≡ after_round g floor closed (round_of cs ec)

    after-written :
        (c : ℕ) (cs closed : List ℕ) (floor : Floor) (r : Round)
        → after_round g (written c cs closed floor) closed r
          ≡ after_round g floor closed (record r { sent = delivery c ∷ r.sent })
    after-written c cs closed floor r =
        rw
          (put-put stream (talker g reading) (talker g (writing c cs closed msg as_text))
            floor.talkers)
          (rw (append_assoc floor.sent) refl)

    write-IsRun :
        (c : ℕ) (cs : List ℕ)
        → (c == stream) ≡ false
        → streams.is_open c ≡ true
        → IsRun cs
        → IsRun (c ∷ cs)
    write-IsRun c cs other on ih closed t ec floor of =
        rw (resume-writes streams stream g msg as_text t c cs closed floor of other on)
          (elim (Option-cases (streams.write c)) [
            | inr (e, bad) ↦ rw (round-failed streams stream msg as_text c cs ec e other on bad) (
                run-cons boost _ [] (written c cs closed floor)
                ∙ run-none boost _
                ∙ step-failed c cs closed floor e bad
                ∙ finish-written c cs closed floor)
            | inl fine ↦ rw (round-written streams stream msg as_text c cs ec other on fine) (
                run-cons boost _ (write_events (round_of cs none).sent) (written c cs closed floor)
                ∙ ap (run boost (write_events (round_of cs none).sent))
                    (step-written c cs closed floor fine)
                ∙ ih closed (talker g (writing c cs closed msg as_text)) none
                    (written c cs closed floor) refl
                ∙ after-written c cs closed floor (round_of cs none))
          ])

    pub resume-IsRun : (cs : List ℕ) → IsRun cs
    resume-IsRun [] closed t ec floor of =
        rw (round-nil streams stream msg as_text ec)
          (run-none boost _ ∙ resume-nil t closed floor of)
    resume-IsRun (c ∷ cs) closed t ec floor of = elim (Bool-cases (c == stream)) [
      | inl own ↦
          rw
            (
              resume-own streams stream g msg as_text t c cs closed floor own,
              round-own streams stream msg as_text c cs ec own,
            )
            (resume-IsRun cs closed t ec floor of)
      | inr other ↦ elim (Bool-cases (streams.is_open c)) [
        | inl on ↦ write-IsRun c cs other on (resume-IsRun cs) closed t ec floor of
        | inr shut ↦
            rw
              (
                resume-shut streams stream g msg as_text t c cs closed floor other shut,
                round-shut streams stream msg as_text c cs ec other shut,
              )
              (resume-IsRun cs (closed ++ c ∷ []) t ec floor of ∙ rw (append_assoc closed) refl)
      ]
    ]
