-- ===== src/Http/Whole/Reaching.antt =====
-- A message reaches the members of its group in a running server.
use socker.Prelude.{
  ℕ, suc, ◌<◌, ◌≤◌, ◌≡◌, ◌≢◌, refl, ap, ◌∙◌, inl, inr, Bool, true, Option, none, some, List, [],
  ◌∷◌, ◌++◌, arith, nat_eq, All, Has, Bool-cases, if◌then◌else◌, ◌==◌, length,
}
use socker.Text.{Text, text_eq}
use socker.Assoc.{get}
use socker.Boost.{Boost}
use socker.Http.Beast.{Beast}
use socker.Http.Server.{Server}
use socker.Http.Group.{message}
use socker.Http.Group.Writes
use socker.Http.Group.Writes.{talker, reading}
use socker.Http.Group.Writes.Ending.{own_writes}
use socker.Http.Group.Writes.Reaching
use socker.Http.Group.Writes.Reaching.{delivery, run-reaches}
use socker.Http.System.{Acceptor, is_listening}
use socker.Http.Whole.{
  Whole, Event, connects, requests, upgrades, hears, delivers, resets, stops, floor_of, begin, step,
  run,
}
use socker.Http.Whole.Plain.{bare_server}
use socker.Http.Whole.Apart.{KeepsRunning}
use socker.Http.Whole.Stop.{run-append}
use socker.Http.Whole.Talks.{
  accept_events, talk_events, talks, IsUp, run-IsUp, run-talks, begin-IsUp,
}

-- how many writes of the socket's conversation end
abbrev pub own_delivers : ℕ → List Event → ℕ
own_delivers s [] = 0
own_delivers s (delivers socket error is_open ∷ es) =
    if socket == s then suc (own_delivers s es) else own_delivers s es
own_delivers s (_ ∷ es) = own_delivers s es

-- a write of the socket's conversation succeeds, and the loop finds x open
abbrev pub IsSmooth : ℕ → ℕ → Event → Type 0
IsSmooth s x (delivers socket error is_open) = socket ≡ s → (error ≡ none) × (is_open x ≡ true)
IsSmooth s x _ = Unit

own_writes-accept :
    (s k : ℕ) (error target : Option Text) (ws : List Writes.Event)
    → own_writes s (accept_events k error target ++ ws) ≡ own_writes s ws
own_writes-accept s k error none ws = refl
own_writes-accept s k error (some target) ws = refl

own_writes-talk :
    (s : ℕ) (e : Event) (es : List Event) (w : Whole) (ws : List Writes.Event)
    → own_writes s ws ≡ own_delivers s es
    → own_writes s (talk_events w e ++ ws) ≡ own_delivers s (e ∷ es)
own_writes-talk s (connects result outcomes) es w ws same = same
own_writes-talk s (requests k request) es w ws same = same
own_writes-talk s (upgrades k error) es w ws same =
    own_writes-accept s k error (get k w.upgrades) ws ∙ same
own_writes-talk s (hears k own_open result is_open) es w ws same = same
own_writes-talk s (delivers k error is_open) es w ws same = elim (Bool-cases (k == s)) [
  | inl own ↦ rw own (ap suc same)
  | inr other ↦ rw other same
]
own_writes-talk s resets es w ws same = same
own_writes-talk s stops es w ws same = same

module _ (s x : ℕ) (msg : Text) (as_text : Bool) (other : x ≢ s) where
  abbrev IsSmoothWrite : Writes.Event → Type 0
  IsSmoothWrite = Reaching.IsSmooth s x msg as_text other

  accept-IsSmooth :
      (k : ℕ) (error target : Option Text) (ws : List Writes.Event)
      → All IsSmoothWrite ws
      → All IsSmoothWrite (accept_events k error target ++ ws)
  accept-IsSmooth k error none ws smooths = smooths
  accept-IsSmooth k error (some target) ws smooths = (tt, smooths)

  talk-IsSmooth :
      (e : Event) (w : Whole) (ws : List Writes.Event)
      → IsSmooth s x e
      → All IsSmoothWrite ws
      → All IsSmoothWrite (talk_events w e ++ ws)
  talk-IsSmooth (connects result outcomes) w ws smooth smooths = smooths
  talk-IsSmooth (requests k request) w ws smooth smooths = smooths
  talk-IsSmooth (upgrades k error) w ws smooth smooths =
      accept-IsSmooth k error (get k w.upgrades) ws smooths
  talk-IsSmooth (hears k own_open result is_open) w ws smooth smooths = (tt, smooths)
  talk-IsSmooth (delivers k error is_open) w ws smooth smooths = (smooth, smooths)
  talk-IsSmooth resets w ws smooth smooths = smooths
  talk-IsSmooth stops w ws smooth smooths = smooths

  module _ (boost : Boost) (beast : Beast) where
    talks-IsSmooth :
        (es : List Event) (w : Whole)
        → All (IsSmooth s x) es
        → All IsSmoothWrite (talks boost beast w es)
    unfolding talks
    talks-IsSmooth [] w smooths = tt
    talks-IsSmooth (e ∷ es) w (smooth, smooths) =
        talk-IsSmooth e w (talks boost beast (step boost beast w e) es) smooth
          (talks-IsSmooth es (step boost beast w e) smooths)

    own_writes-talks :
        (es : List Event) (w : Whole) → own_writes s (talks boost beast w es) ≡ own_delivers s es
    unfolding talks
    own_writes-talks [] w = refl
    own_writes-talks (e ∷ es) w =
        own_writes-talk s e es w (talks boost beast (step boost beast w e) es)
          (own_writes-talks es (step boost beast w e))

    talks-hears :
        (is_open : ℕ → Bool) (es : List Event) (w : Whole)
        → talks boost beast w (hears s true (message msg as_text) is_open ∷ es)
          ≡ Writes.reads s true (message msg as_text) is_open
            ∷ talks boost beast (step boost beast w (hears s true (message msg as_text) is_open)) es
    unfolding talks
    talks-hears is_open es w = refl

    up-reaches :
        (server : Server) (g : Text) (cs : List ℕ) (is_open : ℕ → Bool) (es : List Event)
        (w : Whole)
        → IsUp boost beast server w
        → get s w.talkers ≡ some (talker g reading)
        → get g w.system.server.clients ≡ some cs
        → Has x cs
        → is_open x ≡ true
        → All KeepsRunning es
        → All (IsSmooth s x) es
        → length cs ≤ own_delivers s es
        → Has
            (delivery s x msg as_text)
            (run boost beast (hears s true (message msg as_text) is_open ∷ es) w).sent
    up-reaches server g cs is_open es w up found group has on keeps smooths enough =
        let heard = step boost beast w (hears s true (message msg as_text) is_open) in
        let same =
          run-talks boost beast server (hears s true (message msg as_text) is_open ∷ es) w
            (tt, keeps) up in
        rw
          (ap (λ f. f.sent)
            (same ∙ ap (λ ws. Writes.run boost ws (floor_of w)) (talks-hears is_open es w)))
          (run-reaches s x msg as_text other boost g cs is_open (talks boost beast heard es)
            (floor_of w) found group has on (talks-IsSmooth es heard smooths)
            (omega (arith, enough, own_writes-talks es heard)))

    -- Let a server with threads be started, its acceptor be set up without an error, and any events
    -- but those of stop() happen, after which the conversation of the socket s waits for its read,
    -- in a group with the members cs, of which x is another one. If s gets a message, and then, of
    -- any events but those of stop(), as many are ends of its writes as there are members, and these
    -- writes succeed and the loop finds x open each time, then the message was sent to x: whatever
    -- the other connections and conversations do meanwhile.
    pub run-reached :
        (acceptor : Acceptor) (port : Option ℕ) (server : Server) (before es : List Event)
        (g : Text) (cs : List ℕ) (is_open : ℕ → Bool)
        → is_listening acceptor ≡ true
        → 0 < server.thread_count
        → All KeepsRunning before
        → All KeepsRunning es
        → get s (run boost beast before (begin acceptor port server)).talkers
          ≡ some (talker g reading)
        → get g (run boost beast before (begin acceptor port server)).system.server.clients
          ≡ some cs
        → Has x cs
        → is_open x ≡ true
        → All (IsSmooth s x) es
        → length cs ≤ own_delivers s es
        → Has
            (delivery s x msg as_text)
            (run boost beast
              (before ++ hears s true (message msg as_text) is_open ∷ es)
              (begin acceptor port server)).sent
    run-reached acceptor port server before es g cs is_open on_air threads keep keeps found group
          has on smooths enough =
        let w = begin acceptor port server in
        let up =
          run-IsUp boost beast (bare_server server) before w keep
            (begin-IsUp boost beast acceptor port server on_air threads) in
        rw (run-append boost beast before (hears s true (message msg as_text) is_open ∷ es) w) (
          up-reaches (bare_server server) g cs is_open es (run boost beast before w) up found group
            has on keeps smooths enough)
