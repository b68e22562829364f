-- ===== src/Http/Group/Writes/Members.antt =====
-- The groups of streams: which events of conversations can change them.
use socker.Prelude.{
  ◌⊎◌, sym, arith, ℕ, ◌≡◌, refl, ap, inl, inr, Bool, true, false, Option, none, some, List, [],
  ◌==◌, nat_eq, Bool-cases, Option-cases,
}
use socker.Text.{Text, text_eq}
use socker.Assoc.{Assoc, get, put, get-put}
use socker.Boost.{Boost}
use socker.Http.Group.{ReadResult, to_multicast}
use socker.Http.Group.Writes.{
  enter, reading, talker, Phase, reading, writing, returned, Talker, Floor, reads, writes, advance,
  finish_multicast, resume, after_read, read_ends, write_ends, step,
}
use socker.Http.Group.Writes.Floors.{group_in, group_of}

abbrev pub SameGroups : Floor → Floor → Type 0
SameGroups new old = (x : ℕ) → group_of x new ≡ group_of x old

put-SameGroups :
    (stream x : ℕ) (t u : Talker) (m : Assoc ℕ Talker)
    → get stream m ≡ some t
    → u.group ≡ t.group
    → group_in x (put stream u m) ≡ group_in x m
put-SameGroups stream x t u m found same = elim (Bool-cases (stream == x)) [
  | inr other ↦ rw (get-put stream x u m) (rw other refl)
  | inl its ↦
      let at_x : get x m ≡ some t = rw ((nat_eq.beq_iff stream x).0 its) at found in
      rw (get-put stream x u m) (rw its (rw at_x (ap some same)))
]

finish_multicast-SameGroups :
    (stream : ℕ) (t : Talker) (closed : List ℕ) (floor : Floor)
    → get stream floor.talkers ≡ some t
    → SameGroups (finish_multicast stream t closed floor) floor
unfolding finish_multicast
finish_multicast-SameGroups stream t closed floor found x =
    put-SameGroups stream x t (record t { phase = reading }) floor.talkers found refl

resume-SameGroups :
    (is_open : ℕ → Bool) (stream : ℕ) (t : Talker) (msg : Text) (as_text : Bool)
    (cs closed : List ℕ) (floor : Floor)
    → get stream floor.talkers ≡ some t
    → SameGroups (resume is_open stream t msg as_text cs closed floor) floor
unfolding resume
resume-SameGroups is_open stream t msg as_text cs closed floor found x =
    elim (Option-cases (advance is_open stream cs closed).1) [
      | inl ends ↦ rw (ends, resume) (finish_multicast-SameGroups stream t _ floor found x)
      | inr ((c, rest), next) ↦
          rw (next, resume)
            (put-SameGroups stream x t (record t { phase = writing c rest _ msg as_text })
              floor.talkers found refl)
    ]

returned-SameGroups :
    (stream : ℕ) (t : Talker) (floor : Floor)
    → get stream floor.talkers ≡ some t
    → (x : ℕ)
    → group_in x (put stream (record t { phase = returned }) floor.talkers) ≡ group_of x floor
returned-SameGroups stream t floor found x =
    put-SameGroups stream x t (record t { phase = returned }) floor.talkers found refl

after_read-SameGroups :
    (stream : ℕ) (own_open : Bool) (result : ReadResult) (is_open : ℕ → Bool) (t : Talker)
    (floor : Floor)
    → get stream floor.talkers ≡ some t
    → SameGroups (after_read stream own_open result is_open t floor) floor
unfolding after_read
after_read-SameGroups stream false result is_open t floor found x =
    returned-SameGroups stream t floor found x
after_read-SameGroups stream true result is_open t floor found x =
    elim (Option-cases (to_multicast result)) [
      | inl ends ↦ rw (ends, after_read) (returned-SameGroups stream t floor found x)
      | inr ((m, got_text, ec), told) ↦ elim (Option-cases (get t.group floor.clients)) [
        | inl nobody ↦ rw (told, after_read) (rw nobody refl)
        | inr (cs, group) ↦
            rw (told, after_read)
              (rw group (resume-SameGroups is_open stream t m got_text cs [] floor found x))
      ]
    ]

read_ends-SameGroups :
    (stream : ℕ) (own_open : Bool) (result : ReadResult) (is_open : ℕ → Bool) (g : Text) (p : Phase)
    (floor : Floor)
    → get stream floor.talkers ≡ some (talker g p)
    → SameGroups (read_ends stream own_open result is_open (talker g p) floor) floor
unfolding read_ends
read_ends-SameGroups stream own_open result is_open g reading floor found x =
    after_read-SameGroups stream own_open result is_open (talker g reading) floor found x
read_ends-SameGroups stream own_open result is_open g (writing to rest closed msg as_text) floor
      found x =
    refl
read_ends-SameGroups stream own_open result is_open g returned floor found x = refl

write_ends-SameGroups :
    (stream : ℕ) (error : Option Text) (is_open : ℕ → Bool) (g : Text) (p : Phase) (floor : Floor)
    → get stream floor.talkers ≡ some (talker g p)
    → SameGroups (write_ends stream error is_open (talker g p) floor) floor
unfolding write_ends
write_ends-SameGroups stream error is_open g reading floor found x = refl
write_ends-SameGroups stream (some e) is_open g (writing to rest closed msg as_text) floor found x =
    finish_multicast-SameGroups stream (talker g (writing to rest closed msg as_text)) closed floor
      found x
write_ends-SameGroups stream none is_open g (writing to rest closed msg as_text) floor found x =
    resume-SameGroups is_open stream (talker g (writing to rest closed msg as_text)) msg as_text
      rest closed floor found x
write_ends-SameGroups stream error is_open g returned floor found x = refl

module _ (boost : Boost) where
  pub reads-SameGroups :
      (stream : ℕ) (own_open : Bool) (result : ReadResult) (is_open : ℕ → Bool) (floor : Floor)
      → SameGroups (step boost floor (reads stream own_open result is_open)) floor
  unfolding step
  reads-SameGroups stream own_open result is_open floor x =
      elim (Option-cases (get stream floor.talkers)) [
        | inl nobody ↦ rw (nobody, step) refl
        | inr (t, found) ↦
            rw (found, step)
              (read_ends-SameGroups stream own_open result is_open t.group t.phase floor found x)
      ]

  pub writes-SameGroups :
      (stream : ℕ) (error : Option Text) (is_open : ℕ → Bool) (floor : Floor)
      → SameGroups (step boost floor (writes stream error is_open)) floor
  unfolding step
  writes-SameGroups stream error is_open floor x = elim (Option-cases (get stream floor.talkers)) [
    | inl nobody ↦ rw (nobody, step) refl
    | inr (t, found) ↦
        rw (found, step) (write_ends-SameGroups stream error is_open t.group t.phase floor found x)
  ]

-- the groups after a websocket was accepted
pub enter-group_of :
    (boost : Boost) (j k : ℕ) (target g : Text) (floor : Floor)
    → group_of j (enter boost k target floor) ≡ some g
    → (group_of j floor ≡ some g) ⊎ ((j ≡ k) × (g ≡ boost.to_lower_copy target))
unfolding enter
enter-group_of boost j k target g floor h = elim (Option-cases (get k floor.talkers)) [
  | inr (t, taken) ↦ inl (rw (taken, enter) at h)
  | inl fresh ↦ elim (Bool-cases (k == j)) [
    | inl same ↦ inr (
      sym ((nat_eq.beq_iff k j).0 same),
      ground (
        arith,
        rw same at (
            rw
              (get-put k j (record { group = boost.to_lower_copy target; phase = reading })
                floor.talkers)
              at (rw (fresh, enter) at h)),
      ),
    )
    | inr other ↦ inl (
        rw other at (
          rw
            (get-put k j (record { group = boost.to_lower_copy target; phase = reading })
              floor.talkers)
            at (rw (fresh, enter) at h)))
  ]
]
