-- ===== src/Http/Group/Writes/Inside.antt =====
-- Messages stay in their group, also when conversations come between the writes of a multicast.
use socker.Prelude.{
  ℕ, ◌≡◌, refl, inl, inr, Bool, true, false, Option, none, some, List, [], ◌∷◌, nat_eq,
  Option-cases, All, Has,
}
use socker.Text.{Text, text_eq}
use socker.Assoc.{get, put}
use socker.Boost.{Boost}
use socker.Http.Group.{ReadResult, members, join, erase_all, to_multicast}
use socker.Http.Group.Leaving.{Has-erase_all}
use socker.Http.Group.Members.{Has-put, Has-join}
use socker.Http.Group.Writes.{
  talker, Phase, reading, writing, returned, Talker, Floor, Event, accepts, reads, writes, advance,
  set_phase, finish_multicast, resume, after_read, read_ends, write_ends, enter, step, run,
}
use socker.Http.Group.Writes.Stopping.{advance-IsStop}
use socker.Http.Group.Writes.Floors.{
  group_of, IsInside, changed, changed-IsInside, rephased-IsInside,
}

finish_multicast-IsInside :
    (stream : ℕ) (t : Talker) (closed : List ℕ) (floor : Floor)
    → get stream floor.talkers ≡ some t
    → IsInside floor
    → IsInside (finish_multicast stream t closed floor)
unfolding finish_multicast
finish_multicast-IsInside stream t closed floor found ok =
    rephased-IsInside stream (record t { phase = reading })
      (put t.group (erase_all closed (members t.group floor.clients)) floor.clients) floor
      (inr (rw found refl))
      (λ x g h. inr (elim (Has-put x g t.group _ floor.clients h) [
        | inr old ↦ ok.member x g old
        | inl (same, has) ↦
            rw same (
              ok.member x t.group
                ((Has-erase_all x closed (members t.group floor.clients)).0 has).0)
      ]))
      tt ok

-- the floor while a write to a client is waited for
abbrev written : ℕ → Talker → Text → Bool → ℕ → List ℕ → List ℕ → Floor → Floor
written stream t msg as_text c rest shut floor =
    changed stream (record t { phase = writing c rest shut msg as_text }) floor.clients
      ((stream, record { to = c; message = msg; as_text = as_text }) ∷ []) floor

resume-ends :
    (is_open : ℕ → Bool) (stream : ℕ) (t : Talker) (msg : Text) (as_text : Bool)
    (cs closed : List ℕ) (floor : Floor)
    → (advance is_open stream cs closed).1 ≡ none
    → resume is_open stream t msg as_text cs closed floor
      ≡ finish_multicast stream t (advance is_open stream cs closed).0 floor
unfolding resume
resume-ends is_open stream t msg as_text cs closed floor ends = rw (ends, resume) refl

resume-writes :
    (is_open : ℕ → Bool) (stream : ℕ) (t : Talker) (msg : Text) (as_text : Bool)
    (cs closed : List ℕ) (floor : Floor) (c : ℕ) (rest : List ℕ)
    → (advance is_open stream cs closed).1 ≡ some (c, rest)
    → resume is_open stream t msg as_text cs closed floor
      ≡ written stream t msg as_text c rest (advance is_open stream cs closed).0 floor
unfolding resume
resume-writes is_open stream t msg as_text cs closed floor c rest next = rw (next, resume) refl

resume-IsInside :
    (is_open : ℕ → Bool) (stream : ℕ) (t : Talker) (msg : Text) (as_text : Bool)
    (cs closed : List ℕ) (floor : Floor)
    → get stream floor.talkers ≡ some t
    → All (λ x. group_of x floor ≡ some t.group) cs
    → IsInside floor
    → IsInside (resume is_open stream t msg as_text cs closed floor)
resume-IsInside is_open stream t msg as_text cs closed floor found all ok =
    let stop = advance-IsStop floor t.group is_open stream cs closed all in
    let shut = (advance is_open stream cs closed).0 in
    elim (Option-cases (advance is_open stream cs closed).1) [
      | inl ends ↦
          rw (resume-ends is_open stream t msg as_text cs closed floor ends)
            (finish_multicast-IsInside stream t shut floor found ok)
      | inr ((c, rest), next) ↦
          let (c_in, rest_in, other) = rw next at stop in
          rw (resume-writes is_open stream t msg as_text cs closed floor c rest next) (
            changed-IsInside stream (record t { phase = writing c rest shut msg as_text })
              floor.clients ((stream, record { to = c; message = msg; as_text = as_text }) ∷ [])
              floor (inr (rw found refl)) (λ x g h. inr (ok.member x g h)) rest_in
              ((t.group, rw found refl, c_in, other), tt) ok)
    ]

All-members :
    (floor : Floor) (g : Text) (cs : List ℕ)
    → ((x : ℕ) → Has x cs → group_of x floor ≡ some g)
    → All (λ x. group_of x floor ≡ some g) cs
All-members floor g [] h = tt
All-members floor g (c ∷ cs) h = (h c (inl refl), All-members floor g cs (λ x m. h x (inr m)))

returned-IsInside :
    (stream : ℕ) (t : Talker) (floor : Floor)
    → get stream floor.talkers ≡ some t
    → IsInside floor
    → IsInside (set_phase stream t returned floor)
returned-IsInside stream t floor found ok =
    rephased-IsInside stream (record t { phase = returned }) floor.clients floor
      (inr (rw found refl)) (λ x g h. inr (ok.member x g h)) tt ok

multicast-IsInside :
    (is_open : ℕ → Bool) (stream : ℕ) (t : Talker) (m : Text) (got_text : Bool) (floor : Floor)
    (cs : List ℕ)
    → get stream floor.talkers ≡ some t
    → get t.group floor.clients ≡ some cs
    → IsInside floor
    → IsInside (resume is_open stream t m got_text cs [] floor)
multicast-IsInside is_open stream t m got_text floor cs found group ok =
    resume-IsInside is_open stream t m got_text cs [] floor found
      (All-members floor t.group cs (λ x h. ok.member x t.group (rw group h))) ok

after_read-IsInside :
    (stream : ℕ) (own_open : Bool) (result : ReadResult) (is_open : ℕ → Bool) (t : Talker)
    (floor : Floor)
    → get stream floor.talkers ≡ some t
    → IsInside floor
    → IsInside (after_read stream own_open result is_open t floor)
unfolding after_read
after_read-IsInside stream false result is_open t floor found ok =
    returned-IsInside stream t floor found ok
after_read-IsInside stream true result is_open t floor found ok =
    elim (Option-cases (to_multicast result)) [
      | inl ends ↦ rw (ends, after_read) (returned-IsInside stream t floor found ok)
      | inr ((m, got_text, ec), told) ↦ elim (Option-cases (get t.group floor.clients)) [
        | inl nobody ↦ rw (told, after_read) (rw nobody ok)
        | inr (cs, group) ↦
            rw (told, after_read)
              (rw group (multicast-IsInside is_open stream t m got_text floor cs found group ok))
      ]
    ]

read_ends-IsInside :
    (stream : ℕ) (own_open : Bool) (result : ReadResult) (is_open : ℕ → Bool) (g : Text) (p : Phase)
    (floor : Floor)
    → get stream floor.talkers ≡ some (talker g p)
    → IsInside floor
    → IsInside (read_ends stream own_open result is_open (talker g p) floor)
unfolding read_ends
read_ends-IsInside stream own_open result is_open g reading floor found ok =
    after_read-IsInside stream own_open result is_open (talker g reading) floor found ok
read_ends-IsInside stream own_open result is_open g (writing to rest closed msg as_text) floor found
      ok =
    ok
read_ends-IsInside stream own_open result is_open g returned floor found ok = ok

write_ends-IsInside :
    (stream : ℕ) (error : Option Text) (is_open : ℕ → Bool) (g : Text) (p : Phase) (floor : Floor)
    → get stream floor.talkers ≡ some (talker g p)
    → IsInside floor
    → IsInside (write_ends stream error is_open (talker g p) floor)
unfolding write_ends
write_ends-IsInside stream error is_open g reading floor found ok = ok
write_ends-IsInside stream (some e) is_open g (writing to rest closed msg as_text) floor found ok =
    finish_multicast-IsInside stream (talker g (writing to rest closed msg as_text)) closed floor
      found ok
write_ends-IsInside stream none is_open g (writing to rest closed msg as_text) floor found ok =
    resume-IsInside is_open stream (talker g (writing to rest closed msg as_text)) msg as_text rest
      closed floor found (ok.bound stream (talker g (writing to rest closed msg as_text)) found) ok
write_ends-IsInside stream error is_open g returned floor found ok = ok

module _ (boost : Boost) where
  enter-IsInside :
      (stream : ℕ) (target : Text) (floor : Floor)
      → IsInside floor
      → IsInside (enter boost stream target floor)
  unfolding enter
  enter-IsInside stream target floor ok = elim (Option-cases (get stream floor.talkers)) [
    | inr (t, taken) ↦ rw (taken, enter) ok
    | inl fresh ↦
        let group = boost.to_lower_copy target in
        rw (fresh, enter)
          (rephased-IsInside stream (talker group reading) (join stream group floor.clients) floor
            (inl (rw fresh refl))
            (λ x g h. elim (Has-join x stream g group floor.clients h) [
              | inl new ↦ inl new
              | inr old ↦ inr (ok.member x g old)
            ])
            tt ok)
  ]

  pub step-IsInside : (e : Event) (floor : Floor) → IsInside floor → IsInside (step boost floor e)
  unfolding step
  step-IsInside (accepts stream target (some e)) floor ok = ok
  step-IsInside (accepts stream target none) floor ok = enter-IsInside stream target floor ok
  step-IsInside (reads stream own_open result is_open) floor ok =
      elim (Option-cases (get stream floor.talkers)) [
        | inl nobody ↦ rw (nobody, step) ok
        | inr (t, found) ↦
            rw (found, step)
              (read_ends-IsInside stream own_open result is_open t.group t.phase floor found ok)
      ]
  step-IsInside (writes stream error is_open) floor ok =
      elim (Option-cases (get stream floor.talkers)) [
        | inl nobody ↦ rw (nobody, step) ok
        | inr (t, found) ↦
            rw (found, step)
              (write_ends-IsInside stream error is_open t.group t.phase floor found ok)
      ]

  -- If the members of each group, and the clients that its multicasts are still to write to, are
  -- streams that were accepted for it, and each message went from a stream to another stream of the
  -- same group, then so it is after any accepts, reads and writes, in whatever order those of the
  -- conversations come: other conversations may come between the writes of one multicast.
  pub run-IsInside :
      (es : List Event) (floor : Floor) → IsInside floor → IsInside (run boost es floor)
  unfolding run
  run-IsInside [] floor ok = ok
  run-IsInside (e ∷ es) floor ok = run-IsInside es _ (step-IsInside e floor ok)
