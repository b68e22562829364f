-- ===== src/Http/Group/Writes/Growth.antt =====
-- Messages that were sent stay sent.
use socker.Prelude.{
  ℕ, refl, inl, inr, Bool, true, false, Option, none, some, List, [], ◌∷◌, ◌++◌, nat_eq,
  Option-cases, Has,
}
use socker.Text.{Text, text_eq}
use socker.Assoc.{get}
use socker.Boost.{Boost}
use socker.Http.Group.{Delivered, ReadResult, to_multicast}
use socker.Http.Group.Writes.{
  talker, Phase, reading, writing, returned, Talker, Floor, Event, accepts, reads, writes, advance,
  finish_multicast, resume, after_read, read_ends, write_ends, enter, step, run,
}

pub Has-append_left : {A : Type 0} (a : A) (xs ys : List A) → Has a xs → Has a (xs ++ ys)
Has-append_left a [] ys has = absurd has
Has-append_left a (x ∷ xs) ys (inl e) = inl e
Has-append_left a (x ∷ xs) ys (inr has) = inr (Has-append_left a xs ys has)

pub Has-append_last : {A : Type 0} (a : A) (xs : List A) → Has a (xs ++ a ∷ [])
Has-append_last a [] = inl refl
Has-append_last a (x ∷ xs) = inr (Has-append_last a xs)

module _ (d : ℕ × Delivered) where
  -- the message stays sent
  abbrev pub Grows : Floor → Floor → Type 0
  Grows new old = Has d old.sent → Has d new.sent

  finish-Grows :
      (stream : ℕ) (t : Talker) (closed : List ℕ) (floor : Floor)
      → Grows (finish_multicast stream t closed floor) floor
  unfolding finish_multicast
  finish-Grows stream t closed floor has = has

  resume-Grows :
      (is_open : ℕ → Bool) (stream : ℕ) (t : Talker) (msg : Text) (as_text : Bool)
      (cs closed : List ℕ) (floor : Floor)
      → Grows (resume is_open stream t msg as_text cs closed floor) floor
  unfolding resume
  resume-Grows is_open stream t msg as_text cs closed floor has =
      elim (Option-cases (advance is_open stream cs closed).1) [
        | inl ends ↦ rw (ends, resume) (finish-Grows stream t _ floor has)
        | inr ((c, rest), next) ↦ rw (next, resume) (Has-append_left d floor.sent _ has)
      ]

  after_read-Grows :
      (stream : ℕ) (own_open : Bool) (result : ReadResult) (is_open : ℕ → Bool) (t : Talker)
      (floor : Floor)
      → Grows (after_read stream own_open result is_open t floor) floor
  unfolding after_read
  after_read-Grows stream false result is_open t floor has = has
  after_read-Grows stream true result is_open t floor has =
      elim (Option-cases (to_multicast result)) [
        | inl ends ↦ rw (ends, after_read) has
        | inr ((m, got_text, ec), told) ↦ elim (Option-cases (get t.group floor.clients)) [
          | inl nobody ↦ rw (told, after_read) (rw nobody has)
          | inr (cs, group) ↦
              rw (told, after_read)
                (rw group (resume-Grows is_open stream t m got_text cs [] floor has))
        ]
      ]

  read_ends-Grows :
      (stream : ℕ) (own_open : Bool) (result : ReadResult) (is_open : ℕ → Bool) (g : Text)
      (p : Phase) (floor : Floor)
      → Grows (read_ends stream own_open result is_open (talker g p) floor) floor
  unfolding read_ends
  read_ends-Grows stream own_open result is_open g reading floor has =
      after_read-Grows stream own_open result is_open (talker g reading) floor has
  read_ends-Grows stream own_open result is_open g (writing to rest closed msg as_text) floor has =
      has
  read_ends-Grows stream own_open result is_open g returned floor has = has

  write_ends-Grows :
      (stream : ℕ) (error : Option Text) (is_open : ℕ → Bool) (g : Text) (p : Phase) (floor : Floor)
      → Grows (write_ends stream error is_open (talker g p) floor) floor
  unfolding write_ends
  write_ends-Grows stream error is_open g reading floor has = has
  write_ends-Grows stream (some e) is_open g (writing to rest closed msg as_text) floor has =
      finish-Grows stream (talker g (writing to rest closed msg as_text)) closed floor has
  write_ends-Grows stream none is_open g (writing to rest closed msg as_text) floor has =
      resume-Grows is_open stream (talker g (writing to rest closed msg as_text)) msg as_text rest
        closed floor has
  write_ends-Grows stream error is_open g returned floor has = has

  module _ (boost : Boost) where
    pub step-Grows : (e : Event) (floor : Floor) → Grows (step boost floor e) floor
    unfolding step enter
    step-Grows (accepts stream target (some e)) floor has = has
    step-Grows (accepts stream target none) floor has =
        elim (Option-cases (get stream floor.talkers)) [
          | inl fresh ↦ rw (fresh, enter) has
          | inr (t, taken) ↦ rw (taken, enter) has
        ]
    step-Grows (reads stream own_open result is_open) floor has =
        elim (Option-cases (get stream floor.talkers)) [
          | inl nobody ↦ rw (nobody, step) has
          | inr (t, found) ↦
              rw (found, step)
                (read_ends-Grows stream own_open result is_open t.group t.phase floor has)
        ]
    step-Grows (writes stream error is_open) floor has =
        elim (Option-cases (get stream floor.talkers)) [
          | inl nobody ↦ rw (nobody, step) has
          | inr (t, found) ↦
              rw (found, step) (write_ends-Grows stream error is_open t.group t.phase floor has)
        ]

    pub run-Grows : (es : List Event) (floor : Floor) → Grows (run boost es floor) floor
    unfolding run
    run-Grows [] floor has = has
    run-Grows (e ∷ es) floor has = run-Grows es (step boost floor e) (step-Grows e floor has)
