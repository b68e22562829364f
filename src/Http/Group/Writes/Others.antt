-- ===== src/Http/Group/Writes/Others.antt =====
-- A conversation is left alone by the reads and writes of the others.
use socker.Prelude.{
  ℕ, ◌≡◌, refl, inl, inr, Bool, true, false, Option, none, some, List, [], arith, ◌==◌, nat_eq,
  Bool-cases, Option-cases,
}
use socker.Text.{Text, text_eq}
use socker.Assoc.{Assoc, get, put, get-put}
use socker.Boost.{Boost}
use socker.Http.Group.{ReadResult, to_multicast}
use socker.Http.Group.Writes.{
  talker, Phase, reading, writing, returned, Talker, Floor, accepts, reads, writes, advance,
  finish_multicast, resume, after_read, read_ends, write_ends, enter, step,
}

-- what the events of another stream leave alone
abbrev pub SameTalker : ℕ → Floor → Floor → Type 0
SameTalker s new old = get s new.talkers ≡ get s old.talkers

put-SameTalker :
    (s stream : ℕ) (t : Talker) (m : Assoc ℕ Talker)
    → (stream == s) ≡ false
    → get s (put stream t m) ≡ get s m
put-SameTalker s stream t m other = rw (get-put stream s t m) (rw other refl)

finish-SameTalker :
    (s stream : ℕ) (t : Talker) (closed : List ℕ) (floor : Floor)
    → (stream == s) ≡ false
    → SameTalker s (finish_multicast stream t closed floor) floor
unfolding finish_multicast
finish-SameTalker s stream t closed floor other =
    put-SameTalker s stream (record t { phase = reading }) floor.talkers other

resume-SameTalker :
    (s : ℕ) (is_open : ℕ → Bool) (stream : ℕ) (t : Talker) (msg : Text) (as_text : Bool)
    (cs closed : List ℕ) (floor : Floor)
    → (stream == s) ≡ false
    → SameTalker s (resume is_open stream t msg as_text cs closed floor) floor
unfolding resume
resume-SameTalker s is_open stream t msg as_text cs closed floor other =
    elim (Option-cases (advance is_open stream cs closed).1) [
      | inl ends ↦ rw (ends, resume) (finish-SameTalker s stream t _ floor other)
      | inr ((c, rest), next) ↦
          rw (next, resume)
            (put-SameTalker s stream (record t { phase = writing c rest _ msg as_text })
              floor.talkers other)
    ]

after_read-SameTalker :
    (s stream : ℕ) (own_open : Bool) (result : ReadResult) (is_open : ℕ → Bool) (t : Talker)
    (floor : Floor)
    → (stream == s) ≡ false
    → SameTalker s (after_read stream own_open result is_open t floor) floor
unfolding after_read
after_read-SameTalker s stream false result is_open t floor other =
    put-SameTalker s stream (record t { phase = returned }) floor.talkers other
after_read-SameTalker s stream true result is_open t floor other =
    elim (Option-cases (to_multicast result)) [
      | inl ends ↦
          rw (ends, after_read)
            (put-SameTalker s stream (record t { phase = returned }) floor.talkers other)
      | inr ((m, got_text, ec), told) ↦ elim (Option-cases (get t.group floor.clients)) [
        | inl nobody ↦ rw (told, after_read) (rw nobody refl)
        | inr (cs, group) ↦
            rw (told, after_read)
              (rw group (resume-SameTalker s is_open stream t m got_text cs [] floor other))
      ]
    ]

pub read_ends-SameTalker :
    (s stream : ℕ) (own_open : Bool) (result : ReadResult) (is_open : ℕ → Bool) (g : Text)
    (p : Phase) (floor : Floor)
    → (stream == s) ≡ false
    → SameTalker s (read_ends stream own_open result is_open (talker g p) floor) floor
unfolding read_ends
read_ends-SameTalker s stream own_open result is_open g reading floor other =
    after_read-SameTalker s stream own_open result is_open (talker g reading) floor other
read_ends-SameTalker s stream own_open result is_open g (writing to rest closed msg as_text) floor
      other =
    refl
read_ends-SameTalker s stream own_open result is_open g returned floor other = refl

pub write_ends-SameTalker :
    (s stream : ℕ) (error : Option Text) (is_open : ℕ → Bool) (g : Text) (p : Phase) (floor : Floor)
    → (stream == s) ≡ false
    → SameTalker s (write_ends stream error is_open (talker g p) floor) floor
unfolding write_ends
write_ends-SameTalker s stream error is_open g reading floor other = refl
write_ends-SameTalker s stream (some e) is_open g (writing to rest closed msg as_text) floor other =
    finish-SameTalker s stream (talker g (writing to rest closed msg as_text)) closed floor other
write_ends-SameTalker s stream none is_open g (writing to rest closed msg as_text) floor other =
    resume-SameTalker s is_open stream (talker g (writing to rest closed msg as_text)) msg as_text
      rest closed floor other
write_ends-SameTalker s stream error is_open g returned floor other = refl

module _ (boost : Boost) where
  pub reads-SameTalker :
      (s stream : ℕ) (own_open : Bool) (result : ReadResult) (is_open : ℕ → Bool) (floor : Floor)
      → (stream == s) ≡ false
      → SameTalker s (step boost floor (reads stream own_open result is_open)) floor
  unfolding step
  reads-SameTalker s stream own_open result is_open floor other =
      elim (Option-cases (get stream floor.talkers)) [
        | inl nobody ↦ rw (nobody, step) refl
        | inr (t, found) ↦
            rw (found, step)
              (read_ends-SameTalker s stream own_open result is_open t.group t.phase floor other)
      ]

  pub writes-SameTalker :
      (s stream : ℕ) (error : Option Text) (is_open : ℕ → Bool) (floor : Floor)
      → (stream == s) ≡ false
      → SameTalker s (step boost floor (writes stream error is_open)) floor
  unfolding step
  writes-SameTalker s stream error is_open floor other =
      elim (Option-cases (get stream floor.talkers)) [
        | inl nobody ↦ rw (nobody, step) refl
        | inr (t, found) ↦
            rw (found, step)
              (write_ends-SameTalker s stream error is_open t.group t.phase floor other)
      ]

  -- an accept changes no conversation that is there
  pub accepts-SameTalker :
      (s stream : ℕ) (target : Text) (error : Option Text) (t : Talker) (floor : Floor)
      → get s floor.talkers ≡ some t
      → SameTalker s (step boost floor (accepts stream target error)) floor
  unfolding step enter
  accepts-SameTalker s stream target (some e) t floor found = refl
  accepts-SameTalker s stream target none t floor found =
      elim (Option-cases (get stream floor.talkers)) [
        | inr (u, taken) ↦ rw (taken, enter) refl
        | inl fresh ↦ elim (Bool-cases (stream == s)) [
          | inl same ↦ absurd (ground (arith, nat_eq.beq_iff stream s, same, fresh, found))
          | inr other ↦
              rw (fresh, enter)
                (put-SameTalker s stream (talker (boost.to_lower_copy target) reading) floor.talkers
                  other)
        ]
      ]

  -- a conversation that does not read is left alone by a read that ends
  pub busy-SameTalker :
      (s : ℕ) (own_open : Bool) (result : ReadResult) (is_open : ℕ → Bool) (g msg : Text) (to : ℕ)
      (rest closed : List ℕ) (as_text : Bool) (floor : Floor)
      → get s floor.talkers ≡ some (talker g (writing to rest closed msg as_text))
      → SameTalker s (step boost floor (reads s own_open result is_open)) floor
  unfolding step read_ends
  busy-SameTalker s own_open result is_open g msg to rest closed as_text floor found =
      rw (found, step) found
