-- ===== src/WebSocketClient/Draining.antt =====
-- The coroutines of a websocket client end once its handler is taken away.
use socker.Prelude.{
  ℕ, suc, ◌-◌, ◌+◌, ◌≡◌, refl, true, Option, none, List, [], ◌∷◌, arith, nat_eq, All,
}
use socker.Text.{Text}
use socker.WebSocketClient.{
  Client, on_message, stop_receiver, receive_next, begin_receive, end_read, open_url, do_send,
  do_close, Event, opens, sets_handler, sends, closes, begins, reads, step, run,
}
use socker.WebSocketClient.Receiver.{KeepsHandler}

-- how often a coroutine begins
abbrev pub begins_in : List Event → ℕ
begins_in [] = 0
begins_in (begins ∷ es) = suc (begins_in es)
begins_in (_ ∷ es) = begins_in es

-- how often a read ends
abbrev pub reads_in : List Event → ℕ
reads_in [] = 0
reads_in (reads result ∷ es) = suc (reads_in es)
reads_in (_ ∷ es) = reads_in es

module _ (cast : Text → Option ℕ) where
  step-drains :
      (e : Event) (c : Client)
      → c.interrupted ≡ true
      → KeepsHandler e
      → ((step cast c e).interrupted ≡ true)
        × ((step cast c e).starting ≡ c.starting - begins_in (e ∷ []))
        × ((step cast c e).waiting ≡ c.waiting - reads_in (e ∷ []))
  unfolding step open_url do_send do_close begin_receive end_read receive_next
  step-drains (opens url net) c h k = ground arith
  step-drains (sets_handler g) c h k = absurd k
  step-drains (sends m) c h k = ground arith
  step-drains (closes after) c h k = ground arith
  step-drains begins c h k = ground arith
  step-drains (reads r) c h k = ground arith

  begins_in-cons :
      (e : Event) (es : List Event) → begins_in (e ∷ es) ≡ begins_in (e ∷ []) + begins_in es
  begins_in-cons (opens url net) es = omega arith
  begins_in-cons (sets_handler g) es = omega arith
  begins_in-cons (sends m) es = omega arith
  begins_in-cons (closes after) es = omega arith
  begins_in-cons begins es = omega arith
  begins_in-cons (reads r) es = omega arith

  reads_in-cons :
      (e : Event) (es : List Event) → reads_in (e ∷ es) ≡ reads_in (e ∷ []) + reads_in es
  reads_in-cons (opens url net) es = omega arith
  reads_in-cons (sets_handler g) es = omega arith
  reads_in-cons (sends m) es = omega arith
  reads_in-cons (closes after) es = omega arith
  reads_in-cons begins es = omega arith
  reads_in-cons (reads r) es = omega arith

  run-drains :
      (es : List Event) (c : Client)
      → c.interrupted ≡ true
      → All KeepsHandler es
      → ((run cast es c).starting ≡ c.starting - begins_in es)
        × ((run cast es c).waiting ≡ c.waiting - reads_in es)
  unfolding run
  run-drains [] c h k = (omega arith, omega arith)
  run-drains (e ∷ es) c h (k, ks) =
      let (still, starting, waiting) = step-drains e c h k in
      let (all_starting, all_waiting) = run-drains es (step cast c e) still ks in
      (omega (arith, begins_in-cons e es), omega (arith, reads_in-cons e es))

  -- After the handler is taken away, and until another is set, every coroutine that begins ends, and
  -- every read that ends ends its coroutine: as many coroutines are left to begin as there were, less
  -- those that began, and as many reads are waited for as before, less those that ended, whatever
  -- calls of the other operations come between.
  pub on_message-drains :
      (es : List Event) (c : Client)
      → All KeepsHandler es
      → ((run cast es (on_message none c)).starting ≡ c.starting - begins_in es)
        × ((run cast es (on_message none c)).waiting ≡ c.waiting - reads_in es)
  unfolding on_message stop_receiver
  on_message-drains es c k = run-drains es (on_message none c) refl k
