-- ===== src/Http/Group/Delivery.antt =====
-- Who receives a group's message, and who stays in the group.
use socker.Prelude.{
  ℕ, ◌≡◌, refl, ◌≢◌, ◌↔◌, ◌⊎◌, inl, inr, Bool, true, false, Option, none, some, List, [], ◌∷◌, map,
  arith, ◌==◌, nat_eq, Bool-cases, Option-cases, All, Has,
}
use socker.Assoc.{get, get-put_self, get-put_ne}
use socker.Text.{Text, text_eq}
use socker.Http.Group.Leaving.{Has-erase_all}
use socker.Http.Group.{Clients, Streams, Delivered, Round, erase_all, send_round, multicast_message}

module _ (streams : Streams) (stream : ℕ) (msg : Text) (as_text : Bool) where
  abbrev pub round : List ℕ → Option Text → Round
  round cs ec = send_round streams stream msg as_text cs ec

  -- `ec` at the start does not matter to what is sent and found closed.
  pub round-ec :
      (cs : List ℕ) (ec ec' : Option Text)
      → ((round cs ec).sent ≡ (round cs ec').sent) × ((round cs ec).closed ≡ (round cs ec').closed)
  unfolding send_round
  round-ec [] ec ec' = (refl, refl)
  round-ec (c ∷ cs) ec ec' = ground (arith, round-ec cs ec ec')

  -- a delivery of this message to a member other than the sender that is open
  pub record IsDue (cs : List ℕ) (d : Delivered) : Type 0 where
    pub member : Has d.to cs
    pub other : d.to ≢ stream
    pub open_now : streams.is_open d.to ≡ true
    pub same : d.message ≡ msg

  IsDue-cons :
      (c : ℕ) (cs : List ℕ) (ds : List Delivered) → All (IsDue cs) ds → All (IsDue (c ∷ cs)) ds
  IsDue-cons c cs [] h = tt
  IsDue-cons c cs (d ∷ ds) h = (
    record { member = inr h.0.member; other = h.0.other; open_now = h.0.open_now; same = h.0.same },
    IsDue-cons c cs ds h.1,
  )

  pub round-IsDue : (cs : List ℕ) (ec : Option Text) → All (IsDue cs) (round cs ec).sent
  unfolding send_round
  round-IsDue [] ec = tt
  round-IsDue (c ∷ cs) ec = elim (Bool-cases (c == stream)) [
    | inl own ↦ rw own (IsDue-cons c cs _ (round-IsDue cs ec))
    | inr e ↦ rw e (elim (Bool-cases (streams.is_open c)) [
      | inr shut ↦ rw shut (IsDue-cons c cs _ (round-IsDue cs ec))
      | inl op ↦ rw op (elim (Option-cases (streams.write c)) [
        | inl sent ↦ rw (sent, send_round) (first op e, IsDue-cons c cs _ (round-IsDue cs none))
        | inr (err, lost) ↦ rw (lost, send_round) (first op e, tt)
      ])
    ])
  ]
    where
      first :
          streams.is_open c ≡ true
          → (c == stream) ≡ false
          → IsDue (c ∷ cs) (record { to = c; message = msg; as_text = as_text })
      first op e = record {
        member = inl refl;
        other = λ s. ground arith;
        open_now = op;
        same = refl;
      }

  module _ (no_failure : (c : ℕ) → streams.write c ≡ none) where
    round-closed :
        (x : ℕ) (cs : List ℕ) (ec : Option Text)
        → Has x (round cs ec).closed ↔ (Has x cs × (x ≢ stream) × (streams.is_open x ≡ false))
    unfolding send_round
    round-closed x [] ec = ((λ h. absurd h), (λ h. h.0))
    round-closed x (c ∷ cs) ec = elim (Bool-cases (c == stream)) [
      | inl own ↦
          let (to, from) = round-closed x cs ec in
          rw own (
            (λ h. let k = to h in (inr k.0, k.1, k.2)),
            (λ h. elim h.0 [ inl e ↦ absurd (h.1 (ground arith)) | inr m ↦ from (m, h.1, h.2) ]),
          )
      | inr e ↦ rw e (elim (Bool-cases (streams.is_open c)) [
        | inr shut ↦
            let (to, from) = round-closed x cs ec in
            rw shut (
              (λ h. elim h [
                | inl y ↦ (inl y, (λ s. ground arith), rw y shut)
                | inr m ↦ let k = to m in (inr k.0, k.1, k.2)
              ]),
              (λ h. elim h.0 [ inl y ↦ inl y | inr m ↦ inr (from (m, h.1, h.2)) ]),
            )
        | inl op ↦
            let (to, from) = round-closed x cs none in
            rw op (
              rw (no_failure c, send_round)
                (
                  (λ h. let k = to h in (inr k.0, k.1, k.2)),
                  (λ h. elim h.0 [ inl y ↦ absurd (ground arith) | inr m ↦ from (m, h.1, h.2) ]),
                ))
      ])
    ]

    round-sent :
        (x : ℕ) (cs : List ℕ) (ec : Option Text)
        → (Has x cs × (x ≢ stream) × (streams.is_open x ≡ true))
        → Has x (map (λ (d : Delivered). d.to) (round cs ec).sent)
    unfolding send_round
    round-sent x [] ec h = h.0
    round-sent x (c ∷ cs) ec h = elim (Bool-cases (c == stream)) [
      | inl own ↦
          rw own (later h.0 (λ e. h.1 (ground arith)) (λ m. round-sent x cs ec (m, h.1, h.2)))
      | inr e ↦ rw e (elim (Bool-cases (streams.is_open c)) [
        | inr shut ↦ rw shut (later h.0 (λ y. ground arith) (λ m. round-sent x cs ec (m, h.1, h.2)))
        | inl op ↦
            rw op
              (rw (no_failure c, send_round) (now _ h.0 (λ m. round-sent x cs none (m, h.1, h.2))))
      ])
    ]
      where
        later : {P : Type 0} → Has x (c ∷ cs) → (x ≢ c) → (Has x cs → P) → P
        later (inl y) n f = absurd (n y)
        later (inr m) n f = f m

        now : (ds : List ℕ) → Has x (c ∷ cs) → (Has x cs → Has x ds) → Has x (c ∷ ds)
        now ds (inl y) f = inl y
        now ds (inr m) f = inr (f m)

    -- While no write fails, a multicast reaches every member of the group that is open, but the
    -- sender; the members that are closed leave the group, but the sender, and no one else does.
    pub multicast_message_lem :
        (group : Text) (ec : Option Text) (clients : Clients) (cs : List ℕ) (x : ℕ)
        → get group clients ≡ some cs
        → Has x cs
        → (((x ≢ stream) × (streams.is_open x ≡ true))
            → Has x (
                map
                  (λ (d : Delivered). d.to)
                  (multicast_message streams stream msg as_text group ec clients).1.sent))
          × ((ds : List ℕ) × (get group
                  (multicast_message streams stream msg as_text group ec clients).0
                ≡ some ds)
              × (Has x ds ↔ ((x ≡ stream) ⊎ (streams.is_open x ≡ true))))
    unfolding multicast_message
    multicast_message_lem group ec clients cs x found member =
        rw (found, multicast_message)
          (
            (λ h. round-sent x cs ec (member, h.0, h.1)),
            (
              erase_all (round cs ec).closed cs,
              get-put_self group _ clients,
              (
                (λ h. stays ((Has-erase_all x (round cs ec).closed cs).0 h).1),
                (λ h. (Has-erase_all x (round cs ec).closed cs).1 (
                  member,
                  λ m.
                      let k = (round-closed x cs ec).0 m in
                      elim h [ inl e ↦ k.1 e | inr op ↦ absurd (ground arith) ],
                )),
              ),
            ),
          )
      where
        stays : ¬ Has x (round cs ec).closed → (x ≡ stream) ⊎ (streams.is_open x ≡ true)
        stays n = elim (Bool-cases (streams.is_open x)) [
          | inl op ↦ inr op
          | inr shut ↦ elim (Bool-cases (x == stream)) [
            | inl e ↦ inl (ground arith)
            | inr e ↦ absurd (n ((round-closed x cs ec).1 (member, (λ y. ground arith), shut)))
          ]
        ]

  -- Whatever fails, a multicast sends the message itself, and only to open members of the group
  -- other than the sender, and other groups keep their members.
  pub multicast_message-IsDue :
      (group : Text) (ec : Option Text) (clients : Clients) (cs : List ℕ)
      → get group clients ≡ some cs
      → All (IsDue cs) (multicast_message streams stream msg as_text group ec clients).1.sent
        × ((other : Text)
            → group ≢ other
            → get other (multicast_message streams stream msg as_text group ec clients).0
              ≡ get other clients)
  unfolding multicast_message
  multicast_message-IsDue group ec clients cs found =
      rw (found, multicast_message)
        (round-IsDue cs ec, λ other n. get-put_ne group other _ clients n)
