-- ===== src/Multicast/Counting.antt =====
-- The calls of a multicast receiver's handler, and what an exception of it does.
use socker.Prelude.{
  ℕ, suc, ◌+◌, ◌%◌, ◌^◌, ◌≡◌, refl, ap, ◌∙◌, ◌⊎◌, inl, inr, true, false, ◌&&◌, Option, some, List,
  [], ◌∷◌, ◌++◌, arith, nat_eq, length, length-append, Bool-cases, Option-cases, sym,
}
use native.Mathlib.Nat.{mod-add-mod}
use socker.Text.{Text}
use socker.Multicast.{
  MulticastReceiver, run_failed, new_receiver, set_local_ip, set_dest_ip, set_port,
  set_message_handler, Setup, joined, failed_before_open, failed_after_open, join_group, start,
  stop, worker_fails, Received, receive_failed, received, do_receive, Event, sets_local_ip,
  sets_dest_ip, sets_port, sets_handler, starts, stops, receives, step, run,
}

-- msgCount_ is the number of the calls of handlers, as far as an int can tell
abbrev IsExact : MulticastReceiver → Type 0
IsExact r = r.msg_count ≡ length r.handled % 2 ^ 32

-- no receive is pending on an open socket
abbrev IsDead : MulticastReceiver → Type 0
IsDead r = (r.receiving ≡ false) × (r.is_open ≡ true)

-- A pending receive needs an open socket, and msgCount_ is exact, or no receive will come.
abbrev IsCounted : MulticastReceiver → Type 0
IsCounted r = ((r.receiving ≡ true) → r.is_open ≡ true) × (IsExact r ⊎ IsDead r)

next_count :
    (n : ℕ) (hs : List (ℕ × Text)) (h : ℕ × Text)
    → n ≡ length hs % 2 ^ 32
    → suc n % 2 ^ 32 ≡ length (hs ++ h ∷ []) % 2 ^ 32
next_count n hs h e =
    ap (λ k. k % 2 ^ 32) (plus_one n)
    ∙ ap (λ k. (k + 1) % 2 ^ 32) e
    ∙ mod-add-mod (length hs) (2 ^ 32) 1
    ∙ ap (λ k. k % 2 ^ 32) (sym (length-append hs (h ∷ [])))
  where
    plus_one : (k : ℕ) → suc k ≡ k + 1
    plus_one k = omega arith

pending-IsExact : (r : MulticastReceiver) → IsCounted r → r.receiving ≡ true → IsExact r
pending-IsExact r (on, inl exact) pending = exact
pending-IsExact r (on, inr (idle, open')) pending = absurd cc

take-IsCounted :
    (m : Text) (thrown : Option Text) (r : MulticastReceiver)
    → r.receiving ≡ true
    → IsCounted r
    → IsCounted (do_receive (received m thrown) r)
unfolding do_receive worker_fails
take-IsCounted m thrown r pending ok = elim (Bool-cases (r.running && r.joinable && r.receiving)) [
  | inr idle ↦ rw idle ok
  | inl on ↦ rw on (elim (Option-cases r.handler) [
    | inl null ↦ rw null ((λ h. absurd cc), inl (pending-IsExact r ok pending))
    | inr (h, there) ↦ rw there (elim (Option-cases thrown) [
      | inr (what, threw) ↦ rw threw ((λ e. absurd cc), inr (refl, ok.0 pending))
      | inl back ↦
          rw back
            (ok.0, inl (next_count r.msg_count r.handled (h, m) (pending-IsExact r ok pending)))
    ])
  ])
]

receive-IsCounted :
    (x : Received) (r : MulticastReceiver) → IsCounted r → IsCounted (do_receive x r)
unfolding do_receive
receive-IsCounted receive_failed r ok = ground arith
receive-IsCounted (received m thrown) r ok = elim (Bool-cases r.receiving) [
  | inl pending ↦ take-IsCounted m thrown r pending ok
  | inr idle ↦ idles m thrown r idle ok
]
  where
    idles :
        (m' : Text) (thrown' : Option Text) (q : MulticastReceiver)
        → q.receiving ≡ false
        → IsCounted q
        → IsCounted (do_receive (received m' thrown') q)
    idles m' thrown' q idle fine = ground (arith, idle, fine)

start-IsCounted :
    (guessed : Text) (setup : Setup) (r : MulticastReceiver)
    → IsCounted r
    → IsCounted (start guessed setup r).0
unfolding start join_group
start-IsCounted guessed joined r ok = ground arith
start-IsCounted guessed (failed_before_open what) r ok = ground arith
start-IsCounted guessed (failed_after_open what) r ok = ground arith

stop-IsCounted : (r : MulticastReceiver) → IsCounted r → IsCounted (stop r)
unfolding stop
stop-IsCounted r ok = ground arith

step-IsCounted : (e : Event) (r : MulticastReceiver) → IsCounted r → IsCounted (step r e)
unfolding step set_local_ip set_dest_ip set_port set_message_handler
step-IsCounted (sets_local_ip ip) r ok = ok
step-IsCounted (sets_dest_ip ip) r ok = ok
step-IsCounted (sets_port port) r ok = ok
step-IsCounted (sets_handler h) r ok = ok
step-IsCounted (starts guessed setup) r ok = start-IsCounted guessed setup r ok
step-IsCounted stops r ok = stop-IsCounted r ok
step-IsCounted (receives x) r ok = receive-IsCounted x r ok

run-IsCounted : (es : List Event) (r : MulticastReceiver) → IsCounted r → IsCounted (run es r)
unfolding run
run-IsCounted [] r ok = ok
run-IsCounted (e ∷ es) r ok = run-IsCounted es (step r e) (step-IsCounted e r ok)

-- a receiver with no receive to come, and the calls of handlers of another one
abbrev Rests : MulticastReceiver → MulticastReceiver → Type 0
Rests new old = IsDead new × (new.handled ≡ old.handled) × (new.msg_count ≡ old.msg_count)

start-Rests :
    (guessed : Text) (setup : Setup) (r : MulticastReceiver)
    → IsDead r
    → Rests (start guessed setup r).0 r
unfolding start
start-Rests guessed setup r dead = ground arith

step-Rests : (e : Event) (r : MulticastReceiver) → IsDead r → Rests (step r e) r
unfolding step set_local_ip set_dest_ip set_port set_message_handler stop do_receive
step-Rests (sets_local_ip ip) r dead = (dead, refl, refl)
step-Rests (sets_dest_ip ip) r dead = (dead, refl, refl)
step-Rests (sets_port port) r dead = (dead, refl, refl)
step-Rests (sets_handler h) r dead = (dead, refl, refl)
step-Rests (starts guessed setup) r dead = start-Rests guessed setup r dead
step-Rests stops r dead = ground arith
step-Rests (receives x) r dead = ground arith

run-Rests : (es : List Event) (r : MulticastReceiver) → IsDead r → Rests (run es r) r
unfolding run
run-Rests [] r dead = (dead, refl, refl)
run-Rests (e ∷ es) r dead =
    let (still, handled, count) = step-Rests e r dead in
    let (stills, handleds, counts) = run-Rests es (step r e) still in
    (stills, handleds ∙ handled, counts ∙ count)

throws :
    (h : ℕ) (message what : Text) (r : MulticastReceiver)
    → r.running ≡ true
    → r.joinable ≡ true
    → r.receiving ≡ true
    → r.handler ≡ some h
    → let s = do_receive (received message (some what)) r in
      (s.receiving ≡ false)
      × (s.is_open ≡ r.is_open)
      × (s.handled ≡ r.handled ++ (h, message) ∷ [])
      × (s.msg_count ≡ r.msg_count)
      × (s.err ≡ run_failed what)
      × (s.running ≡ true)
unfolding do_receive worker_fails
throws h message what r on worker pending there =
    rw on (rw worker (rw pending (rw there (refl, refl, refl, refl, refl, on))))

-- Let any events happen to a new receiver, after which it waits for a message, and has a handler. Then
-- msgCount_ is the number of the calls of handlers modulo 2^32. If the next message makes the handler
-- throw, then the error says so, isRunning is true still, and whatever is done with the receiver later,
-- a stop, a start or another handler included, no handler is called again, and this last call is not
-- counted.
pub run-throws :
    (local_ip dest_ip : Text) (port : ℕ) (first : Option ℕ) (before later : List Event) (h : ℕ)
    (message what : Text)
    → (run before (new_receiver local_ip dest_ip port first)).running ≡ true
    → (run before (new_receiver local_ip dest_ip port first)).joinable ≡ true
    → (run before (new_receiver local_ip dest_ip port first)).receiving ≡ true
    → (run before (new_receiver local_ip dest_ip port first)).handler ≡ some h
    → let r = run before (new_receiver local_ip dest_ip port first) in
      let s = step r (receives (received message (some what))) in
      let t = run later s in
      (r.msg_count ≡ length r.handled % 2 ^ 32)
      × (s.err ≡ run_failed what)
      × (s.running ≡ true)
      × (t.handled ≡ r.handled ++ (h, message) ∷ [])
      × (t.msg_count ≡ r.msg_count)
unfolding step
run-throws local_ip dest_ip port first before later h message what on worker pending there =
    let r = run before (new_receiver local_ip dest_ip port first) in
    let ok =
      run-IsCounted before (new_receiver local_ip dest_ip port first)
        ((λ e. absurd cc), inl refl) in
    let (idle, opened, handled, count, why, still) =
      throws h message what r on worker pending there in
    let (dead, handleds, counts) =
      run-Rests later (do_receive (received message (some what)) r) (idle, opened ∙ ok.0 pending) in
    (pending-IsExact r ok pending, why, still, handleds ∙ handled, counts ∙ count)
