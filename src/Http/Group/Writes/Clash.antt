-- ===== src/Http/Group/Writes/Clash.antt =====
-- Two conversations that write to the same client.
use socker.Prelude.{
  ℕ, ◌≡◌, refl, sym, ◌∙◌, ◌≢◌, Bool, true, none, some, List, [], ◌∷◌, ◌++◌, nat_eq, beq-false,
}
use socker.Text.{Text, text_eq}
use socker.Assoc.{get, get-put_self, get-put_ne}
use socker.Boost.{Boost}
use socker.Http.Group.{message, to_multicast}
use socker.Http.Group.Writes.{
  talker, reading, writing, Floor, reads, set_phase, after_read, read_ends, step, run,
}
use socker.Http.Group.Writes.Loop.{resume-writes}

module _ (boost : Boost) where
  -- the conversation of a stream waits for its write of the message to c
  abbrev pub WritesTo : ℕ → ℕ → Text → Floor → Type 0
  WritesTo stream c m floor =
      (g : Text) × (rest : List ℕ) × (shut : List ℕ) × (as_text : Bool) × (get stream floor.talkers
        ≡ some (talker g (writing c rest shut m as_text)))

  -- a member of the group that reads a message begins with the first of the members
  abbrev begun : ℕ → Text → ℕ → List ℕ → Text → Bool → Floor → Floor
  begun stream g c cs m as_text floor =
      set_phase stream (talker g reading) (writing c cs [] m as_text) (record floor {
        sent = floor.sent ++ (stream, record { to = c; message = m; as_text = as_text }) ∷ [];
      })

  read-begins :
      (stream c : ℕ) (cs : List ℕ) (g m : Text) (as_text : Bool) (is_open : ℕ → Bool)
      (floor : Floor)
      → get stream floor.talkers ≡ some (talker g reading)
      → get g floor.clients ≡ some (c ∷ cs)
      → c ≢ stream
      → is_open c ≡ true
      → step boost floor (reads stream true (message m as_text) is_open)
        ≡ begun stream g c cs m as_text floor
  unfolding step read_ends after_read to_multicast
  read-begins stream c cs g m as_text is_open floor found group other on =
      rw (found, step)
        (rw group (
          resume-writes (record { is_open = is_open; write = λ k. none }) stream g m as_text
            (talker g reading) c cs [] floor refl (beq-false c stream other) on))

  -- Let the streams a and b read, in a group whose first member is another stream c, which is open.
  -- If both get a message, one after the other, before a's write to c ends, then the two wait for
  -- their writes to c at the same time.
  pub two_writes :
      (a b c : ℕ) (cs : List ℕ) (g m m' : Text) (as_text as_text' : Bool)
      (is_open is_open' : ℕ → Bool) (floor : Floor)
      → get a floor.talkers ≡ some (talker g reading)
      → get b floor.talkers ≡ some (talker g reading)
      → get g floor.clients ≡ some (c ∷ cs)
      → a ≢ b
      → c ≢ a
      → c ≢ b
      → is_open c ≡ true
      → is_open' c ≡ true
      → WritesTo a c m (
          run boost
            (reads a true (message m as_text) is_open
              ∷ reads b true (message m' as_text') is_open'
              ∷ [])
            floor)
        × WritesTo b c m' (
            run boost
              (reads a true (message m as_text) is_open
                ∷ reads b true (message m' as_text') is_open'
                ∷ [])
              floor)
  unfolding run
  two_writes a b c cs g m m' as_text as_text' is_open is_open' floor at_a at_b group ab ca cb on
        on' =
      let first = read-begins a c cs g m as_text is_open floor at_a group ca on in
      let mid : Floor = begun a g c cs m as_text floor in
      let still_b : get b mid.talkers ≡ some (talker g reading) =
        get-put_ne a b _ floor.talkers ab ∙ at_b in
      let second = read-begins b c cs g m' as_text' is_open' mid still_b group cb on' in
      let last : Floor = begun b g c cs m' as_text' mid in
      rw first (
        rw second (
          (
            g,
            cs,
            [],
            as_text,
            get-put_ne b a _ mid.talkers (λ e. ab (sym e)) ∙ get-put_self a _ floor.talkers,
          ),
          (g, cs, [], as_text', get-put_self b _ mid.talkers),
        ))
