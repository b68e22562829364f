-- ===== src/WebSocketClient/Receiver.antt =====
-- Which handlers get the messages of a websocket client, and when a receiver runs.
use socker.Prelude.{ℕ, ◌≡◌, refl, ◌∙◌, true, Option, none, some, List, [], ◌∷◌, arith, nat_eq, All}
use socker.Text.{Text}
use socker.WebSocketClient.{
  Client, on_message, start_receiver, stop_receiver, receive_next, begin_receive, end_read,
  open_url, do_send, do_close, Event, opens, sets_handler, sends, closes, begins, reads, step, run,
}

-- no handler is set by these events
abbrev pub KeepsHandler : Event → Type 0
KeepsHandler (sets_handler h) = ⊥
KeepsHandler _ = Unit

module _ (cast : Text → Option ℕ) where
  -- without a handler nothing is handled
  step-silent :
      (e : Event) (c : Client)
      → c.handler ≡ none
      → KeepsHandler e
      → ((step cast c e).handler ≡ none) × ((step cast c e).handled ≡ c.handled)
  unfolding step open_url do_send do_close begin_receive end_read receive_next
  step-silent (opens url net) c h k = ground arith
  step-silent (sets_handler g) c h k = absurd k
  step-silent (sends m) c h k = ground arith
  step-silent (closes after) c h k = ground arith
  step-silent begins c h k = ground arith
  step-silent (reads r) c h k = ground arith

  run-silent :
      (es : List Event) (c : Client)
      → c.handler ≡ none
      → All KeepsHandler es
      → (run cast es c).handled ≡ c.handled
  unfolding run
  run-silent [] c h k = refl
  run-silent (e ∷ es) c h k =
      let (none', same) = step-silent e c h k.0 in run-silent es (step cast c e) none' k.1 ∙ same

  -- After the handler is taken away no message is handled until another is set, whatever the
  -- coroutines, the network and the other calls do.
  pub on_message-silent :
      (es : List Event) (c : Client)
      → All KeepsHandler es
      → (run cast es (on_message none c)).handled ≡ c.handled
  unfolding on_message stop_receiver
  on_message-silent es c k = run-silent es (on_message none c) refl k

  -- On an open client without a receiver a handler is set, its receiver begins and its read fails:
  -- then no receiver runs, and setting a new handler starts none.
  pub failed_read :
      (h h' : ℕ) (c : Client)
      → c.is_open ≡ true
      → c.thread ≡ none
      → c.starting ≡ 0
      → c.waiting ≡ 0
      → let d : Client =
          run cast (sets_handler (some h) ∷ begins ∷ reads none ∷ sets_handler (some h') ∷ []) c in
        (d.starting ≡ 0) × (d.waiting ≡ 0) × (d.handler ≡ some h')
  unfolding run step on_message start_receiver begin_receive end_read receive_next
  failed_read h h' c op th st wa = ground arith

  -- On an open client without a receiver, a handler that is taken away and set again while its read
  -- is waiting leaves two reads waiting.
  pub two_reads :
      (h h' : ℕ) (c : Client)
      → c.is_open ≡ true
      → c.thread ≡ none
      → c.starting ≡ 0
      → c.waiting ≡ 0
      → (run cast
          (sets_handler (some h)
            ∷ begins
            ∷ sets_handler none
            ∷ sets_handler (some h')
            ∷ begins
            ∷ [])
          c).waiting
        ≡ 2
  unfolding run step on_message start_receiver stop_receiver begin_receive end_read receive_next
  two_reads h h' c op th st wa = ground arith
