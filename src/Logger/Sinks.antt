-- ===== src/Logger/Sinks.antt =====
-- The logger that Logger::init leaves, by the bits of its mode.
use socker.Prelude.{
  ℕ, ◌≡◌, ◌⊎◌, refl, ap, ◌∙◌, ◌+◌, ◌*◌, inl, inr, Bool, true, false, none, some, List, [], ◌∷◌,
  ◌++◌, All, Has, Option-cases, Bool-cases, arith, nat_eq,
}
use socker.Text.{Text, bytes}
use socker.Logger.{
  Sink, console, rotating_file, Spdlog, sinks_of, State, logger, all_open, init, drop,
}
use socker.Logger.Init.{
  chosen, logger-init_fresh, logger-init_taken, logger-drop, make_logger-Made, init-fresh,
}

-- the two low bits of a mode
pub data FileMode : Type 0 where
  no_file rotated not_rotated not_rotated_too : FileMode

abbrev pub file_bits : FileMode → ℕ
file_bits no_file = 0
file_bits rotated = 1
file_bits not_rotated = 2
file_bits not_rotated_too = 3

-- the third bit
abbrev pub console_bit : (quiet : Bool) → ℕ
console_bit false = 0
console_bit true = 4

module _ (name ts : Text) where
  -- a file of 100 MB, and ten more; whether it begins a new one
  abbrev pub file_sink : Bool → Sink
  file_sink rotate_on_open =
      rotating_file (bytes "./logs/" ++ name ++ bytes "_" ++ ts ++ bytes ".log") 104857600 10
        rotate_on_open

  -- the sinks that the mode asks for
  abbrev pub wanted : (quiet : Bool) → FileMode → List Sink
  wanted false no_file = console ∷ []
  wanted false rotated = console ∷ file_sink true ∷ []
  wanted false not_rotated = console ∷ file_sink false ∷ []
  wanted false not_rotated_too = console ∷ file_sink false ∷ []
  wanted true no_file = []
  wanted true rotated = file_sink true ∷ []
  wanted true not_rotated = file_sink false ∷ []
  wanted true not_rotated_too = file_sink false ∷ []

  sinks_of-wanted :
      (quiet : Bool) (f : FileMode) (k : ℕ)
      → sinks_of name ts (8 * k + console_bit quiet + file_bits f) ≡ wanted quiet f
  unfolding sinks_of
  sinks_of-wanted false no_file k = ground arith
  sinks_of-wanted false rotated k = ground arith
  sinks_of-wanted false not_rotated k = ground arith
  sinks_of-wanted false not_rotated_too k = ground arith
  sinks_of-wanted true no_file k = ground arith
  sinks_of-wanted true rotated k = ground arith
  sinks_of-wanted true not_rotated k = ground arith
  sinks_of-wanted true not_rotated_too k = ground arith

module _ (spdlog : Spdlog) where
  abbrev pub Opens : Sink → Type 0
  Opens sink = spdlog.opens sink ≡ true

  -- the constructor of one of the sinks throws
  abbrev pub Throws : List Sink → Type 0
  Throws sinks = (sink : Sink) × Has sink sinks × (spdlog.opens sink ≡ false)

  all_open-cases :
      (sinks : List Sink)
      → ((all_open spdlog sinks ≡ true) × All Opens sinks)
        ⊎ ((all_open spdlog sinks ≡ false) × Throws sinks)
  unfolding all_open
  all_open-cases [] = inl (refl, tt)
  all_open-cases (sink ∷ sinks) = elim (Bool-cases (spdlog.opens sink)) [
    | inr shut ↦ inr (rw shut refl, (sink, inl refl, shut))
    | inl on ↦ elim (all_open-cases sinks) [
      | inl (all, opens) ↦ inl (rw on all, (on, opens))
      | inr (some_, (bad, has, shut)) ↦ inr (rw on some_, (bad, inr has, shut))
    ]
  ]

  -- what init leaves: the logger that was registered under its name, or a new one, or none
  abbrev pub Left : (name level ts : Text) → List Sink → (old new : State spdlog) → Type 0
  Left name level ts sinks old new =
      let log = spdlog.async_logger name sinks in
      ((known : spdlog.Log) × (spdlog.get name old.registry ≡ some known)
        × (logger spdlog new ≡ some known))
      ⊎ ((spdlog.get name old.registry ≡ none)
          × ((All Opens sinks
                × (logger spdlog new ≡ some log)
                × (spdlog.sinks log ≡ sinks)
                × (spdlog.level log new.registry ≡ spdlog.from_str level))
              ⊎ (Throws sinks × (logger spdlog new ≡ none))))

  init_new :
      (name level ts : Text) (mode : ℕ) (s : State spdlog)
      → spdlog.get name s.registry ≡ none
      → Left name level ts (sinks_of name ts mode) s (init spdlog name level ts mode s)
  init_new name level ts mode s fresh =
      let sinks = sinks_of name ts mode in
      let log = spdlog.async_logger name sinks in
      let left = logger-init_fresh spdlog name level ts mode s fresh in
      elim (all_open-cases sinks) [
        | inl (all, opens) ↦ inr (
          fresh,
          inl (
            opens,
            left ∙ ap (λ b. chosen spdlog none b log) all,
            spdlog.async_logger-sinks name sinks,
            (rw (init-fresh spdlog name level ts mode s fresh)
                (make_logger-Made spdlog name level ts mode s.registry fresh all).1),
          ),
        )
        | inr (shut, throws) ↦
            inr (fresh, inr (throws, left ∙ ap (λ b. chosen spdlog none b log) shut))
      ]

  -- A mode is 8 * k plus its three low bits, which tell the sinks: the console unless the bit 4 is set,
  -- and a rotating file unless the bits 1 and 2 are clear, that begins a new file when it is opened
  -- only if they are 1. After init the logger of the program is the one that was registered under the
  -- name, if there was one. Else, if these sinks open, it is a new one with just them, at the level of the
  -- argument; if the constructor of one throws, there is none. After a drop there is none.
  pub logger-init :
      (name level ts : Text) (quiet : Bool) (f : FileMode) (k : ℕ) (s : State spdlog)
      → let after = init spdlog name level ts (8 * k + console_bit quiet + file_bits f) s in
        Left name level ts (wanted name ts quiet f) s after
        × (logger spdlog (drop spdlog after) ≡ none)
  logger-init name level ts quiet f k s =
      let mode = 8 * k + console_bit quiet + file_bits f in
      (
        elim (Option-cases (spdlog.get name s.registry)) [
          | inr (known, taken) ↦
              inl (known, taken, logger-init_taken spdlog name level ts mode known s taken)
          | inl fresh ↦
              rw (← sinks_of-wanted name ts quiet f k) (init_new name level ts mode s fresh)
        ],
        logger-drop spdlog _,
      )
