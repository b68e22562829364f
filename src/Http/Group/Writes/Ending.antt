-- ===== src/Http/Group/Writes/Ending.antt =====
-- Each multicast comes to its end.
use socker.Prelude.{
  ℕ, zero, suc, ◌⊎◌, ◌+◌, ◌≤◌, ◌<◌, ◌≡◌, refl, ap, inl, inr, Bool, Option, none, some, List, [],
  ◌∷◌, ◌++◌, arith, ◌==◌, nat_eq, Bool-cases, Option-cases, if◌then◌else◌, length,
}
use socker.Text.{Text, text_eq}
use socker.Assoc.{get, get-put_self}
use socker.Boost.{Boost}
use socker.Http.Group.Writes.{
  talker, Phase, reading, writing, returned, Talker, Floor, Event, accepts, reads, writes, advance,
  finish_multicast, resume, write_ends, step, run,
}
use socker.Http.Group.Writes.Others.{
  accepts-SameTalker, reads-SameTalker, writes-SameTalker, busy-SameTalker,
}

abbrev pub pending_of : Phase → ℕ
pending_of reading = 0
pending_of (writing to rest closed msg as_text) = suc (length rest)
pending_of returned = 0

abbrev pub pending_in : Option Talker → ℕ
pending_in none = 0
pending_in (some t) = pending_of t.phase

-- how many writes the multicast of a stream may still wait for, or 0 when there is none
abbrev pub pending : ℕ → Floor → ℕ
pending s floor = pending_in (get s floor.talkers)

-- how many writes of the stream end
abbrev pub own_writes : ℕ → List Event → ℕ
own_writes s [] = 0
own_writes s (writes stream error is_open ∷ es) =
    if stream == s then suc (own_writes s es) else own_writes s es
own_writes s (_ ∷ es) = own_writes s es

abbrev Shorter : List ℕ → Option (ℕ × List ℕ) → Type 0
Shorter cs none = Unit
Shorter cs (some (c, rest)) = length rest < length cs

Shorter-tail :
    (c : ℕ) (cs : List ℕ) (next : Option (ℕ × List ℕ)) → Shorter cs next → Shorter (c ∷ cs) next
Shorter-tail c cs none h = tt
Shorter-tail c cs (some (d, rest)) h = omega (arith, h)

advance-Shorter :
    (is_open : ℕ → Bool) (stream : ℕ) (cs closed : List ℕ)
    → Shorter cs (advance is_open stream cs closed).1
unfolding advance
advance-Shorter is_open stream [] closed = tt
advance-Shorter is_open stream (c ∷ cs) closed = elim (Bool-cases (c == stream)) [
  | inl own ↦ rw own (Shorter-tail c cs _ (advance-Shorter is_open stream cs closed))
  | inr other ↦ rw other (elim (Bool-cases (is_open c)) [
    | inr shut ↦
        rw shut (Shorter-tail c cs _ (advance-Shorter is_open stream cs (closed ++ c ∷ [])))
    | inl on ↦ rw on (omega arith)
  ])
]

finish-pending :
    (stream : ℕ) (t : Talker) (closed : List ℕ) (floor : Floor)
    → pending stream (finish_multicast stream t closed floor) ≡ 0
unfolding finish_multicast
finish-pending stream t closed floor =
    rw (get-put_self stream (record t { phase = reading }) floor.talkers) refl

pub resume-pending :
    (is_open : ℕ → Bool) (stream : ℕ) (t : Talker) (msg : Text) (as_text : Bool)
    (cs closed : List ℕ) (floor : Floor)
    → pending stream (resume is_open stream t msg as_text cs closed floor) ≤ length cs
unfolding resume
resume-pending is_open stream t msg as_text cs closed floor =
    let short = advance-Shorter is_open stream cs closed in
    elim (Option-cases (advance is_open stream cs closed).1) [
      | inl ends ↦
          rw (ends, resume)
            (omega (arith, finish-pending stream t (advance is_open stream cs closed).0 floor))
      | inr ((c, rest), next) ↦
          rw (next, resume)
            (rw
              (get-put_self stream
                (record t {
                  phase = writing c rest (advance is_open stream cs closed).0 msg as_text;
                })
                floor.talkers)
              (omega (arith, rw next at short)))
    ]

write_ends-pending :
    (stream : ℕ) (error : Option Text) (is_open : ℕ → Bool) (g : Text) (p : Phase) (floor : Floor)
    → 0 < pending_of p
    → pending stream (write_ends stream error is_open (talker g p) floor) < pending_of p
unfolding write_ends
write_ends-pending stream error is_open g reading floor busy = omega (arith, busy)
write_ends-pending stream (some e) is_open g (writing to rest closed msg as_text) floor busy =
    omega
      (arith, finish-pending stream (talker g (writing to rest closed msg as_text)) closed floor)
write_ends-pending stream none is_open g (writing to rest closed msg as_text) floor busy = omega (
  arith,
  resume-pending is_open stream (talker g (writing to rest closed msg as_text)) msg as_text rest
      closed floor,
)
write_ends-pending stream error is_open g returned floor busy = omega (arith, busy)

zero_or_more : (n : ℕ) → (n ≡ 0) ⊎ (0 < n)
zero_or_more zero = inl refl
zero_or_more (suc n) = inr (omega arith)

module _ (boost : Boost) where
  -- the event is an end of a write of the stream
  abbrev one_write : ℕ → Event → ℕ
  one_write s e = own_writes s (e ∷ [])

  own_writes-cons :
      (s : ℕ) (e : Event) (es : List Event)
      → own_writes s (e ∷ es) ≡ one_write s e + own_writes s es
  own_writes-cons s (accepts stream target error) es = omega arith
  own_writes-cons s (reads stream own_open result is_open) es = omega arith
  own_writes-cons s (writes stream error is_open) es = elim (Bool-cases (stream == s)) [
    | inl same ↦ rw same (omega arith)
    | inr other ↦ rw other (omega arith)
  ]

  write-pending :
      (s : ℕ) (error : Option Text) (is_open : ℕ → Bool) (t : Talker) (floor : Floor)
      → get s floor.talkers ≡ some t
      → 0 < pending_of t.phase
      → pending s (step boost floor (writes s error is_open)) + 1 ≤ pending_of t.phase
  unfolding step
  write-pending s error is_open t floor found busy =
      rw (found, step)
        (omega (arith, write_ends-pending s error is_open t.group t.phase floor busy))

  -- A multicast that is under way comes nearer to its end by each of its own writes, and is not
  -- touched by the other events.
  step-pending :
      (s : ℕ) (e : Event) (g msg : Text) (to : ℕ) (rest closed : List ℕ) (as_text : Bool)
      (floor : Floor)
      → get s floor.talkers ≡ some (talker g (writing to rest closed msg as_text))
      → pending s (step boost floor e) + one_write s e ≤ pending s floor
  step-pending s (accepts stream target error) g msg to rest closed as_text floor found =
      rw (accepts-SameTalker boost s stream target error _ floor found) (omega arith)
  step-pending s (reads stream own_open result is_open) g msg to rest closed as_text floor found =
      elim (Bool-cases (stream == s)) [
        | inr other ↦
            rw (reads-SameTalker boost s stream own_open result is_open floor other) (omega arith)
        | inl same ↦ rw ((nat_eq.beq_iff stream s).0 same) (
            rw
              (busy-SameTalker boost s own_open result is_open g msg to rest closed as_text floor
                found)
              (omega arith))
      ]
  step-pending s (writes stream error is_open) g msg to rest closed as_text floor found =
      elim (Bool-cases (stream == s)) [
        | inr other ↦
            rw other (rw (writes-SameTalker boost s stream error is_open floor other) (omega arith))
        | inl same ↦ rw same (
            rw ((nat_eq.beq_iff stream s).0 same)
              (rw found (write-pending s error is_open _ floor found (omega arith))))
      ]

  phase-pending :
      (s : ℕ) (e : Event) (floor : Floor) (g : Text) (p : Phase)
      → get s floor.talkers ≡ some (talker g p)
      → 0 < pending_of p
      → pending s (step boost floor e) + one_write s e ≤ pending s floor
  phase-pending s e floor g reading found busy = omega (arith, busy)
  phase-pending s e floor g returned found busy = omega (arith, busy)
  phase-pending s e floor g (writing to rest closed msg as_text) found busy =
      step-pending s e g msg to rest closed as_text floor found

  busy-pending :
      (s : ℕ) (e : Event) (floor : Floor)
      → 0 < pending s floor
      → pending s (step boost floor e) + one_write s e ≤ pending s floor
  busy-pending s e floor busy = elim (Option-cases (get s floor.talkers)) [
    | inl nobody ↦ omega (arith, rw nobody at busy)
    | inr (t, found) ↦ phase-pending s e floor t.group t.phase found (rw found at busy)
  ]

  -- Let a multicast of the stream s wait for a write to a client, with n copied clients behind it.
  -- If, of any events, at least n + 1 are ends of writes of s, then the multicast is over after some
  -- of the events, of which at most n + 1 are such ends: whatever the other conversations do.
  pub run-pending :
      (s : ℕ) (es : List Event) (floor : Floor)
      → pending s floor ≤ own_writes s es
      → (before : List Event) × (later : List Event) × (es ≡ before ++ later)
        × (pending s (run boost before floor) ≡ 0)
        × (own_writes s before ≤ pending s floor)
  unfolding run
  run-pending s [] floor enough = ([], [], refl, omega (arith, enough), omega arith)
  run-pending s (e ∷ es) floor enough = elim (zero_or_more (pending s floor)) [
    | inl over ↦ ([], e ∷ es, refl, over, omega (arith, over))
    | inr busy ↦
        let nearer = busy-pending s e floor busy in
        let (before, later, split, over, few) =
          run-pending s es (step boost floor e)
            (omega (arith, enough, nearer, own_writes-cons s e es)) in
        (
          e ∷ before,
          later,
          ap (λ xs. e ∷ xs) split,
          over,
          omega (arith, few, nearer, own_writes-cons s e before),
        )
  ]
