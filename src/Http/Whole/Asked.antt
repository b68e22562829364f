-- ===== src/Http/Whole/Asked.antt =====
-- Who takes part in a websocket conversation has asked for it by an upgrade.
use socker.Prelude.{
  ℕ, ◌≡◌, sym, ◌∙◌, inl, inr, true, Option, none, some, List, [], ◌∷◌, arith, if◌then◌else◌, ◌==◌,
  nat_eq, Bool-cases, Option-cases, All,
}
use socker.Text.{Text}
use socker.Assoc
use socker.Assoc.{get-put, get-erase}
use socker.Boost.{Boost}
use socker.Http.Beast.{Request, Beast}
use socker.Http.Server.{read_failed, received}
use socker.Http.Group.Writes
use socker.Http.Group.Writes.{Talker, reading, Floor, enter}
use socker.Http.Group.Writes.Floors.{group_of, IsInside}
use socker.Http.Group.Writes.Inside.{step-IsInside}
use socker.Http.Group.Writes.Members.{
  enter-group_of, SameGroups, reads-SameGroups, writes-SameGroups,
}
use socker.Http.System
use socker.Http.System.{System, Connection}
use socker.Http.Whole.{
  Whole, Event, connects, requests, upgrades, hears, delivers, resets, stops, floor_of, with_floor,
  is_down, no_upgrade, begin_upgrade, via, read_request, end_upgrade, talk, step, run,
}
use socker.Http.Whole.Ended.{
  ends-HasEnded, ends-HasEnded_self, HasEnded, step-HasEnded, IsHttp, step-server,
}

module _ (boost : Boost) (beast : Beast) (P : ℕ → Text → Type 0) where
  -- The connections that wait for their websocket and those that talk have left their HTTP loop,
  -- after an upgrade with a target that satisfies `P`, which tells the group; and all messages are
  -- inside their groups.
  pub record IsAsked (w : Whole) : Type 0 where
    pub waiting :
        (k : ℕ) (target : Text)
        → Assoc.get k w.upgrades ≡ some target
        → P k target × HasEnded k w.system
    pub talking :
        (k : ℕ) (g : Text)
        → group_of k (floor_of w) ≡ some g
        → HasEnded k w.system × ((target : Text) × P k target × (g ≡ boost.to_lower_copy target))
    pub inside : IsInside (floor_of w)

  -- an upgrade that is read has a target that satisfies `P`
  abbrev pub Permits : Event → Type 0
  Permits (requests k (some req)) = beast.is_upgrade req ≡ true → P k req.target
  Permits _ = Unit

  via-IsAsked :
      (e : System.Event) (w : Whole)
      → IsHttp boost beast e
      → IsAsked w
      → IsAsked (via boost beast e w)
  via-IsAsked e w http ok = record {
    waiting = λ k target h.
        let (p, ended) = ok.waiting k target h in (p, step-HasEnded boost beast k e w.system ended);
    talking = λ k g h.
        let (ended, asked) = ok.talking k g h in
        (step-HasEnded boost beast k e w.system ended, asked);
    inside = rw (step-server boost beast e w.system http) ok.inside;
  }

  begins-IsAsked :
      (k : ℕ) (req : Request) (c : Connection) (w : Whole)
      → P k req.target
      → IsAsked w
      → IsAsked (begin_upgrade k req c w)
  unfolding begin_upgrade
  begins-IsAsked k req c w p ok = elim (Bool-cases c.alive) [
    | inr dead ↦ rw dead ok
    | inl lives ↦ rw lives (record {
      waiting = λ j target h. elim (Bool-cases (k == j)) [
        | inl same ↦
            let its : j ≡ k = sym ((nat_eq.beq_iff k j).0 same) in
            let told : target ≡ req.target =
              ground (arith, rw same at (rw (get-put k j req.target w.upgrades) at h)) in
            rw its (rw told (p, ends-HasEnded_self k c w.system))
        | inr other ↦
            let (q, ended) =
              ok.waiting j target (rw other at (rw (get-put k j req.target w.upgrades) at h)) in
            (q, ends-HasEnded j k c w.system ended)
      ];
      talking = λ j g h.
          let (ended, asked) = ok.talking j g h in (ends-HasEnded j k c w.system ended, asked);
      inside = ok.inside;
    })
  ]

  read_request-IsAsked :
      (k : ℕ) (request : Option Request) (w : Whole)
      → Permits (requests k request)
      → IsAsked w
      → IsAsked (read_request boost beast k request w)
  unfolding read_request
  read_request-IsAsked k none w permit ok = via-IsAsked (System.reads k read_failed) w tt ok
  read_request-IsAsked k (some req) w permit ok = elim (Bool-cases (beast.is_upgrade req)) [
    | inr plain ↦ rw plain (via-IsAsked (System.reads k (received req no_upgrade)) w plain ok)
    | inl up ↦ rw up (elim (Bool-cases (is_down w)) [
      | inl down ↦ rw down ok
      | inr on ↦ rw on (elim (Option-cases (Assoc.get k w.system.connections)) [
        | inl nobody ↦ rw nobody ok
        | inr (c, found) ↦ rw found (begins-IsAsked k req c w (permit up) ok)
      ])
    ])
  ]

  -- reads and writes of conversations
  talk-IsAsked :
      (e : Writes.Event) (w : Whole)
      → SameGroups (Writes.step boost (floor_of w) e) (floor_of w)
      → IsAsked w
      → IsAsked (talk boost beast e w)
  talk-IsAsked e w same ok = record {
    waiting = ok.waiting;
    talking = λ k g h. ok.talking k g (sym (same k) ∙ h);
    inside = step-IsInside boost e (floor_of w) ok.inside;
  }

  refused-IsAsked :
      (k : ℕ) (w : Whole) → IsAsked w → IsAsked (record w { upgrades = Assoc.erase k w.upgrades })
  refused-IsAsked k w ok = record {
    waiting = λ j target h. elim (Bool-cases (k == j)) [
      | inl same ↦ absurd (ground (arith, rw same at (rw (get-erase k j w.upgrades) at h)))
      | inr other ↦ ok.waiting j target (rw other at (rw (get-erase k j w.upgrades) at h))
    ];
    talking = ok.talking;
    inside = ok.inside;
  }

  accepted-IsAsked :
      (k : ℕ) (target : Text) (w : Whole)
      → Assoc.get k w.upgrades ≡ some target
      → IsAsked w
      → IsAsked (with_floor (enter boost k target (floor_of w)) w)
  unfolding Writes.step
  accepted-IsAsked k target w found ok = record {
    waiting = ok.waiting;
    talking = λ j g h. elim (enter-group_of boost j k target g (floor_of w) h) [
      | inl old ↦ ok.talking j g old
      | inr (its, group) ↦
          let (p, ended) = ok.waiting k target found in rw its (ended, (target, p, group))
    ];
    inside = step-IsInside boost (Writes.accepts k target none) (floor_of w) ok.inside;
  }

  end_upgrade-IsAsked :
      (k : ℕ) (error : Option Text) (w : Whole)
      → IsAsked w
      → IsAsked (end_upgrade boost beast k error w)
  unfolding end_upgrade
  end_upgrade-IsAsked k none w ok = elim (Option-cases (Assoc.get k w.upgrades)) [
    | inl nobody ↦ rw (nobody, end_upgrade) ok
    | inr (target, found) ↦
        rw (found, end_upgrade) (refused-IsAsked k _ (accepted-IsAsked k target w found ok))
  ]
  end_upgrade-IsAsked k (some e) w ok = elim (Option-cases (Assoc.get k w.upgrades)) [
    | inl nobody ↦ rw (nobody, end_upgrade) ok
    | inr (target, found) ↦ rw (found, end_upgrade) (refused-IsAsked k w ok)
  ]

  unless_down-IsAsked : (w v : Whole) → IsAsked w → IsAsked v → IsAsked (if is_down w then w else v)
  unless_down-IsAsked w v ok new = elim (Bool-cases (is_down w)) [
    | inl down ↦ rw down ok
    | inr up ↦ rw up new
  ]

  step-IsAsked : (e : Event) (w : Whole) → Permits e → IsAsked w → IsAsked (step boost beast w e)
  unfolding step
  step-IsAsked (connects result outcomes) w permit ok =
      via-IsAsked (System.accepts result outcomes) w tt ok
  step-IsAsked (requests k request) w permit ok = read_request-IsAsked k request w permit ok
  step-IsAsked (upgrades k error) w permit ok =
      unless_down-IsAsked w _ ok (end_upgrade-IsAsked k error w ok)
  step-IsAsked (hears k own_open result is_open) w permit ok = unless_down-IsAsked w _ ok (
      talk-IsAsked (Writes.reads k own_open result is_open) w
        (reads-SameGroups boost k own_open result is_open (floor_of w)) ok)
  step-IsAsked (delivers k error is_open) w permit ok = unless_down-IsAsked w _ ok (
      talk-IsAsked (Writes.writes k error is_open) w
        (writes-SameGroups boost k error is_open (floor_of w)) ok)
  step-IsAsked resets w permit ok = via-IsAsked System.resets_registrar w tt ok
  step-IsAsked stops w permit ok = via-IsAsked System.stops_io w tt ok

  pub run-IsAsked :
      (es : List Event) (w : Whole) → All Permits es → IsAsked w → IsAsked (run boost beast es w)
  unfolding run
  run-IsAsked [] w permits ok = ok
  run-IsAsked (e ∷ es) w (permit, permits) ok =
      run-IsAsked es _ permits (step-IsAsked e w permit ok)
