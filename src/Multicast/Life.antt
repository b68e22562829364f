-- ===== src/Multicast/Life.antt =====
-- How the life of a multicast receiver ends.
use socker.Prelude.{
  ℕ, ◌≡◌, refl, ap, ◌∙◌, ◌⊎◌, inl, true, false, Option, none, some, List, [], ◌∷◌, ◌++◌, arith,
  nat_eq, All,
}
use socker.Text.{Text}
use socker.Multicast.{
  MulticastReceiver, new_receiver, set_local_ip, set_dest_ip, set_port, set_message_handler, Setup,
  joined, join_group, start, stop, destroy, Received, receive_failed, received, worker_fails,
  do_receive, receive_all, Event, sets_local_ip, sets_dest_ip, sets_port, sets_handler, starts,
  stops, receives, step, run,
}
use socker.Multicast.Restart.{CanStart, receive_stopped}

-- no worker is left behind: io_ runs still, or no worker is joinable
abbrev IsTidy : MulticastReceiver → Type 0
IsTidy r = (r.running ≡ true) ⊎ (r.joinable ≡ false)

abbrev pub IsNoStart : Event → Type 0
IsNoStart (starts guessed setup) = ⊥
IsNoStart _ = Unit

abbrev pub IsNoStop : Event → Type 0
IsNoStop stops = ⊥
IsNoStop _ = Unit

do_receive-same :
    (x : Received) (r : MulticastReceiver)
    → ((do_receive x r).running ≡ r.running) × ((do_receive x r).joinable ≡ r.joinable)
unfolding do_receive worker_fails
do_receive-same receive_failed r = ground arith
do_receive-same (received message none) r = ground arith
do_receive-same (received message (some what)) r = ground arith

start-running :
    (guessed : Text) (setup : Setup) (r : MulticastReceiver)
    → (start guessed setup r).0.running ≡ r.running
unfolding start join_group
start-running guessed setup r = ground arith

step-running : (e : Event) (r : MulticastReceiver) → IsNoStop e → (step r e).running ≡ r.running
unfolding step set_local_ip set_dest_ip set_port set_message_handler
step-running (sets_local_ip ip) r go = refl
step-running (sets_dest_ip ip) r go = refl
step-running (sets_port port) r go = refl
step-running (sets_handler h) r go = refl
step-running (starts guessed setup) r go = start-running guessed setup r
step-running stops r go = absurd go
step-running (receives x) r go = (do_receive-same x r).0

run-running :
    (es : List Event) (r : MulticastReceiver) → All IsNoStop es → (run es r).running ≡ r.running
unfolding run
run-running [] r go = refl
run-running (e ∷ es) r (go, goes) = run-running es (step r e) goes ∙ step-running e r go

step-IsTidy : (e : Event) (r : MulticastReceiver) → IsNoStart e → IsTidy r → IsTidy (step r e)
unfolding step set_local_ip set_dest_ip set_port set_message_handler stop
step-IsTidy (sets_local_ip ip) r no_start tidy = tidy
step-IsTidy (sets_dest_ip ip) r no_start tidy = tidy
step-IsTidy (sets_port port) r no_start tidy = tidy
step-IsTidy (sets_handler h) r no_start tidy = tidy
step-IsTidy (starts guessed setup) r no_start tidy = absurd no_start
step-IsTidy stops r no_start tidy = ground arith
step-IsTidy (receives x) r no_start tidy = ground (arith, do_receive-same x r)

run-IsTidy :
    (es : List Event) (r : MulticastReceiver) → All IsNoStart es → IsTidy r → IsTidy (run es r)
unfolding run
run-IsTidy [] r no_starts tidy = tidy
run-IsTidy (e ∷ es) r (no_start, no_starts) tidy =
    run-IsTidy es (step r e) no_starts (step-IsTidy e r no_start tidy)

pub run-append :
    (before later : List Event) (r : MulticastReceiver)
    → run (before ++ later) r ≡ run later (run before r)
unfolding run
run-append [] later r = refl
run-append (e ∷ es) later r = run-append es later (step r e)

tidy-destroy : (r : MulticastReceiver) → IsTidy r → (destroy r).1 ≡ false
unfolding destroy stop
tidy-destroy r tidy = ground arith

-- A receiver that is not stopped before its last start is destroyed without ending the program.
pub run-destroy :
    (local_ip dest_ip : Text) (port : ℕ) (h : Option ℕ) (before later : List Event)
    → All IsNoStop before
    → All IsNoStart later
    → (destroy (run (before ++ later) (new_receiver local_ip dest_ip port h))).1 ≡ false
run-destroy local_ip dest_ip port h before later go no_starts =
    let r = new_receiver local_ip dest_ip port h in
    rw (run-append before later r) (
      tidy-destroy (run later (run before r))
        (run-IsTidy later (run before r) no_starts (inl (run-running before r go))))

started_late :
    (guessed : Text) (r : MulticastReceiver)
    → CanStart r
    → let s = start guessed joined (stop r) in
      (s.1 ≡ true) × (s.0.running ≡ false) × (s.0.joinable ≡ true) × (s.0.handled ≡ r.handled)
unfolding start join_group stop
started_late guessed r can = ground arith

left_behind : (r : MulticastReceiver) → r.running ≡ false → r.joinable ≡ true → (destroy r).1 ≡ true
unfolding destroy stop
left_behind r halted worker = ground arith

-- A receiver that can start, and that is stopped before it starts: start returns true where the
-- network lets it join, but no message is handled, and the destructor ends the program.
pub stop-start :
    (guessed : Text) (xs : List Received) (r : MulticastReceiver)
    → CanStart r
    → ((start guessed joined (stop r)).1 ≡ true)
      × ((receive_all xs (start guessed joined (stop r)).0).handled ≡ r.handled)
      × ((destroy (receive_all xs (start guessed joined (stop r)).0)).1 ≡ true)
stop-start guessed xs r can =
    let (ok, halted, worker, handled) = started_late guessed r can in
    let s : MulticastReceiver = (start guessed joined (stop r)).0 in
    let still = receive_stopped xs s halted in
    (
      ok,
      ap (λ (q : MulticastReceiver). q.handled) still ∙ handled,
      rw still (left_behind s halted worker),
    )
