-- ===== src/Http/Group/Writes/Reaching.antt =====
-- A message reaches the members of its group, also when conversations come between its writes.
use socker.Prelude.{
  ℕ, ◌≤◌, ◌≡◌, ◌≢◌, ◌⊎◌, ◌∙◌, refl, ap, inl, inr, Bool, true, Option, none, some, List, [], ◌∷◌,
  ◌++◌, arith, ◌==◌, nat_eq, Bool-cases, Option-cases, Has, All, length,
}
use socker.Text.{Text, text_eq}
use socker.Assoc.{get, get-put_self}
use socker.Boost.{Boost}
use socker.Http.Group.{Delivered, message, to_multicast}
use socker.Http.Group.Writes.{
  talker, Phase, reading, writing, Floor, Event, accepts, reads, writes, advance, resume,
  after_read, read_ends, write_ends, step, run,
}
use socker.Http.Group.Writes.Stopping.{advance-Covers}
use socker.Http.Group.Writes.Others.{
  accepts-SameTalker, reads-SameTalker, writes-SameTalker, busy-SameTalker,
}
use socker.Http.Group.Writes.Ending.{pending, own_writes, resume-pending, run-pending}
use socker.Http.Group.Writes.Runs.{run-append, run-cons}
use socker.Http.Group.Writes.Growth.{Has-append_last, step-Grows, run-Grows}

-- the message of a stream to x
abbrev pub delivery : ℕ → ℕ → Text → Bool → ℕ × Delivered
delivery stream x msg as_text = (stream, record { to = x; message = msg; as_text = as_text })

module _ (stream x : ℕ) (msg : Text) (as_text : Bool) (other : x ≢ stream) where
  -- the message was sent to x, or its multicast is under way with x behind
  abbrev IsOwed : Floor → Type 0
  IsOwed floor =
      Has (delivery stream x msg as_text) floor.sent
      ⊎ ((g : Text) × (to : ℕ) × (rest : List ℕ) × (closed : List ℕ) × (get stream floor.talkers
            ≡ some (talker g (writing to rest closed msg as_text)))
          × Has x rest)

  resume-IsOwed :
      (is_open : ℕ → Bool) (g : Text) (p : Phase) (cs closed : List ℕ) (floor : Floor)
      → is_open x ≡ true
      → Has x cs
      → IsOwed (resume is_open stream (talker g p) msg as_text cs closed floor)
  unfolding resume
  resume-IsOwed is_open g p cs closed floor on has =
      let covers = advance-Covers is_open stream x cs closed on has other in
      elim (Option-cases (advance is_open stream cs closed).1) [
        | inl ends ↦ absurd (other (rw ends at covers))
        | inr ((c, rest), next) ↦ elim (rw next at covers) [
          | inl its ↦ inl (rw (next, resume) (rw its (Has-append_last _ floor.sent)))
          | inr behind ↦ inr (
            g,
            c,
            rest,
            (advance is_open stream cs closed).0,
            (rw (next, resume) (get-put_self stream _ floor.talkers)),
            behind,
          )
        ]
      ]

  -- a write of the stream succeeds, and the loop finds x open
  abbrev pub IsSmooth : Event → Type 0
  IsSmooth (writes j error is_open) = j ≡ stream → (error ≡ none) × (is_open x ≡ true)
  IsSmooth _ = Unit

  module _ (boost : Boost) where
    write-IsOwed :
        (error : Option Text) (is_open : ℕ → Bool) (g : Text) (to : ℕ) (rest closed : List ℕ)
        (floor : Floor)
        → get stream floor.talkers ≡ some (talker g (writing to rest closed msg as_text))
        → Has x rest
        → error ≡ none
        → is_open x ≡ true
        → IsOwed (step boost floor (writes stream error is_open))
    unfolding step write_ends
    write-IsOwed (some e) is_open g to rest closed floor found has ok on = absurd cc
    write-IsOwed none is_open g to rest closed floor found has ok on =
        rw (found, step)
          (resume-IsOwed is_open g (writing to rest closed msg as_text) rest closed floor on has)

    step-IsOwed :
        (e : Event) (floor : Floor) → IsSmooth e → IsOwed floor → IsOwed (step boost floor e)
    step-IsOwed e floor smooth (inl sent) =
        inl (step-Grows (delivery stream x msg as_text) boost e floor sent)
    step-IsOwed (accepts j target error) floor smooth (inr (g, to, rest, closed, found, has)) =
        inr (
          g,
          to,
          rest,
          closed,
          accepts-SameTalker boost stream j target error _ floor found ∙ found,
          has,
        )
    step-IsOwed (reads j own_open result is_open) floor smooth
          (inr (g, to, rest, closed, found, has)) =
        elim (Bool-cases (j == stream)) [
          | inr ne ↦ inr (
            g,
            to,
            rest,
            closed,
            reads-SameTalker boost stream j own_open result is_open floor ne ∙ found,
            has,
          )
          | inl own ↦ inr (
            g,
            to,
            rest,
            closed,
            (rw ((nat_eq.beq_iff j stream).0 own) (
                busy-SameTalker boost stream own_open result is_open g msg to rest closed as_text
                  floor found
                ∙ found)),
            has,
          )
        ]
    step-IsOwed (writes j error is_open) floor smooth (inr (g, to, rest, closed, found, has)) =
        elim (Bool-cases (j == stream)) [
          | inr ne ↦ inr (
            g,
            to,
            rest,
            closed,
            writes-SameTalker boost stream j error is_open floor ne ∙ found,
            has,
          )
          | inl own ↦
              let its = (nat_eq.beq_iff j stream).0 own in
              let (ok, on) = smooth its in
              rw its (write-IsOwed error is_open g to rest closed floor found has ok on)
        ]

    run-IsOwed :
        (es : List Event) (floor : Floor)
        → All IsSmooth es
        → IsOwed floor
        → IsOwed (run boost es floor)
    unfolding run
    run-IsOwed [] floor smooth owed = owed
    run-IsOwed (e ∷ es) floor (smooth, smooths) owed =
        run-IsOwed es (step boost floor e) smooths (step-IsOwed e floor smooth owed)

    -- when the multicast is over the message was sent
    over-sent :
        (floor : Floor)
        → pending stream floor ≡ 0
        → IsOwed floor
        → Has (delivery stream x msg as_text) floor.sent
    over-sent floor over (inl sent) = sent
    over-sent floor over (inr (g, to, rest, closed, found, has)) =
        absurd (omega (arith, rw found at over))

    All-before : {A : Type 0} (P : A → Type 0) (xs ys : List A) → All P (xs ++ ys) → All P xs
    All-before P [] ys all = tt
    All-before P (y ∷ xs) ys (p, all) = (p, All-before P xs ys all)

    read-resumes :
        (g : Text) (cs : List ℕ) (is_open : ℕ → Bool) (floor : Floor)
        → get stream floor.talkers ≡ some (talker g reading)
        → get g floor.clients ≡ some cs
        → step boost floor (reads stream true (message msg as_text) is_open)
          ≡ resume is_open stream (talker g reading) msg as_text cs [] floor
    unfolding step read_ends after_read to_multicast
    read-resumes g cs is_open floor found group = rw (found, step) (rw group refl)

    enough-sent :
        (es : List Event) (floor : Floor)
        → All IsSmooth es
        → pending stream floor ≤ own_writes stream es
        → IsOwed floor
        → Has (delivery stream x msg as_text) (run boost es floor).sent
    enough-sent es floor smooth enough owed =
        let (before, later, split, over, few) = run-pending boost stream es floor enough in
        let begun =
          run-IsOwed before floor (All-before IsSmooth before later (rw split at smooth)) owed in
        rw split (
          rw (run-append boost before later floor) (
            run-Grows (delivery stream x msg as_text) boost later (run boost before floor)
              (over-sent (run boost before floor) over begun)))

    -- Let the stream read, in a group with these members, of which x is another one. If it gets a
    -- message, and then, of any events, as many are ends of its writes as there are members, and
    -- these writes succeed and the loop finds x open each time, then the message was sent to x:
    -- whatever the other conversations do meanwhile, leaving and joining the group included.
    pub run-reaches :
        (g : Text) (cs : List ℕ) (is_open : ℕ → Bool) (es : List Event) (floor : Floor)
        → get stream floor.talkers ≡ some (talker g reading)
        → get g floor.clients ≡ some cs
        → Has x cs
        → is_open x ≡ true
        → All IsSmooth es
        → length cs ≤ own_writes stream es
        → Has
            (delivery stream x msg as_text)
            (run boost (reads stream true (message msg as_text) is_open ∷ es) floor).sent
    run-reaches g cs is_open es floor found group has on smooth enough =
        let first = read-resumes g cs is_open floor found group in
        let begun = resume is_open stream (talker g reading) msg as_text cs [] floor in
        rw
          (run-cons boost (reads stream true (message msg as_text) is_open) es floor
            ∙ ap (run boost es) first)
          (enough-sent es begun smooth
            (omega (
              arith,
              enough,
              resume-pending is_open stream (talker g reading) msg as_text cs [] floor,
            ))
            (resume-IsOwed is_open g reading cs [] floor on has))
