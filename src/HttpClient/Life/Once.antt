-- ===== src/HttpClient/Life/Once.antt =====
-- How often a client calls the handler of a send.
use socker.Prelude.{
  ℕ, ◌+◌, ◌≡◌, refl, inl, inr, ◌&&◌, ◌||◌, Option, some, List, [], ◌∷◌, ◌++◌, if◌then◌else◌, ◌==◌,
  nat_eq, is_empty, arith, Bool-cases, Option-cases,
}
use socker.Text.{Text}
use socker.HttpClient.Sending.{Reply, Exchange, do_send}
use socker.HttpClient.Replies.{do_send_lem}
use socker.HttpClient.Life.{
  Waiting, Client, new_client, set_timeout, send, drop, take_number, calls_of, run_waiting, Event,
  sends, runs, sets_timeout, drops, step, run,
}

-- 1 for a send of this number with a handler
abbrev pub weight : ℕ → Waiting → ℕ
weight n w = if w.number == n && w.has_handler then 1 else 0

-- how many sends of this number have a handler
unfoldable pub sent : ℕ → List Event → ℕ
sent n [] = 0
sent n (sends w ∷ es) = weight n w + sent n es
sent n (_ ∷ es) = sent n es

-- how many of them wait
unfoldable pub waiting_in : ℕ → List Waiting → ℕ
waiting_in n [] = 0
waiting_in n (w ∷ ws) = weight n w + waiting_in n ws

-- how many calls were made of the handler
unfoldable pub called : ℕ → List (ℕ × Reply) → ℕ
called n [] = 0
called n ((m, r) ∷ cs) = (if m == n then 1 else 0) + called n cs

waiting_in-append :
    (n : ℕ) (vs ws : List Waiting) → waiting_in n (vs ++ ws) ≡ waiting_in n vs + waiting_in n ws
unfolding waiting_in
waiting_in-append n [] ws = omega arith
waiting_in-append n (v ∷ vs) ws = omega (arith, waiting_in-append n vs ws)

called-append : (n : ℕ) (cs ds : List (ℕ × Reply)) → called n (cs ++ ds) ≡ called n cs + called n ds
unfolding called
called-append n [] ds = omega arith
called-append n ((m, r) ∷ cs) ds = omega (arith, called-append n cs ds)

waiting_in-take_number :
    (k n : ℕ) (ws : List Waiting) (w : Waiting) (rest : List Waiting)
    → take_number k ws ≡ some (w, rest)
    → waiting_in n ws ≡ weight n w + waiting_in n rest
unfolding take_number waiting_in
waiting_in-take_number k n [] w rest e = ground arith
waiting_in-take_number k n (v ∷ ws) w rest e = elim (Bool-cases (v.number == k)) [
  | inl same ↦ ground (arith, same)
  | inr other ↦ elim (Option-cases (take_number k ws)) [
    | inl none' ↦ ground (arith, none')
    | inr ((w', rest'), found) ↦ ground (arith, found, waiting_in-take_number k n ws w' rest' found)
  ]
]

module _ (user_agent : Text) (decimal : ℕ → Text) where
  called-calls_of :
      (n : ℕ) (timeout : Option ℕ) (w : Waiting) (net : Exchange)
      → called n (calls_of user_agent decimal timeout w net) ≡ weight n w
  unfolding called do_send
  called-calls_of n timeout w net = elim (Bool-cases w.has_handler) [
    | inl has ↦
        let (r, one, same, ends) = do_send_lem timeout user_agent decimal w.verb w.request net in
        rw has (rw one (ground arith))
    | inr lacks ↦ rw lacks (ground arith)
  ]

  abbrev total : ℕ → Client → ℕ
  total n c = called n c.calls + waiting_in n c.waiting

  run_waiting-total :
      (n k : ℕ) (net : Exchange) (c : Client)
      → total n (run_waiting user_agent decimal k net c) ≡ total n c
  unfolding run_waiting
  run_waiting-total n k net c = elim (Bool-cases (c.stopped || is_empty c.workers)) [
    | inl idle ↦ rw idle refl
    | inr works ↦ rw works (elim (Option-cases (take_number k c.waiting)) [
      | inl none' ↦ rw none' refl
      | inr ((w, ws), found) ↦ rw found (
          omega (
            arith,
            called-append n c.calls (calls_of user_agent decimal c.timeout w net),
            called-calls_of n c.timeout w net,
            waiting_in-take_number k n c.waiting w ws found,
          ))
    ])
  ]

  step-total :
      (n : ℕ) (e : Event) (c : Client)
      → total n (step user_agent decimal c e) ≡ total n c + sent n (e ∷ [])
  unfolding step sent send set_timeout drop waiting_in
  step-total n (sends w) c = omega (arith, waiting_in-append n c.waiting (w ∷ []))
  step-total n (runs k net) c = omega (arith, run_waiting-total n k net c)
  step-total n (sets_timeout seconds) c = omega arith
  step-total n drops c = omega arith

  sent-cons : (n : ℕ) (e : Event) (es : List Event) → sent n (e ∷ es) ≡ sent n (e ∷ []) + sent n es
  unfolding sent
  sent-cons n (sends w) es = omega arith
  sent-cons n (runs k net) es = omega arith
  sent-cons n (sets_timeout seconds) es = omega arith
  sent-cons n drops es = omega arith

  run-total :
      (n : ℕ) (es : List Event) (c : Client)
      → total n (run user_agent decimal es c) ≡ total n c + sent n es
  unfolding run sent
  run-total n [] c = omega arith
  run-total n (e ∷ es) c =
      omega
        (arith, step-total n e c, sent-cons n e es, run-total n es (step user_agent decimal c e))

  -- Whatever happens to a new client, the handler of each send was called once, or its send still
  -- waits: the calls of a number and the sends of it that wait are together as many as the sends of
  -- it that have a handler.
  pub calls-once :
      (n thread_count : ℕ) (timeout : Option ℕ) (es : List Event)
      → let c = run user_agent decimal es (new_client thread_count timeout) in
        called n c.calls + waiting_in n c.waiting ≡ sent n es
  unfolding new_client called waiting_in
  calls-once n thread_count timeout es =
      omega (arith, run-total n es (new_client thread_count timeout))
