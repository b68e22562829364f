-- ===== src/Http/Arguments/RoundTrip.antt =====
-- parseArguments reads back a query that was put together from pairs.
use socker.Prelude.{
  ℕ, ◌≡◌, refl, ◌∙◌, ◌≢◌, true, false, List, [], ◌∷◌, ◌++◌, append-nil, append_assoc, arith,
  if◌then◌else◌, nat_eq, All,
}
use mathlib.Core.List.{foldl, foldl-append}
use socker.Assoc.{Assoc, put}
use socker.Boost.{Boost}
use socker.Text.{Text, text_eq}
use socker.Http.Arguments.{Parsing, store_pair, parse_char, parse_query}

-- a character with no meaning of its own in a query
abbrev pub IsClean : ℕ → Type 0
IsClean c = (c ≢ b'&') × (c ≢ b'=') × (c ≢ b'#')

-- a key that is not empty and a value, both of clean characters
abbrev pub IsPair : Text × Text → Type 0
IsPair (key, value) = (key ≢ []) × All IsClean key × All IsClean value

abbrev pub render_pair : Text × Text → Text
render_pair (key, value) = key ++ b'=' ∷ value

-- k1=v1&k2=v2&...&kn=vn
pub render : List (Text × Text) → Text
render [] = []
render (p ∷ []) = render_pair p
render (p ∷ q ∷ ps) = render_pair p ++ b'&' ∷ render (q ∷ ps)

module _ (boost : Boost) where
  -- the pairs put one after the other, a later one over an earlier one of the same key
  pub put_pairs : List (Text × Text) → Assoc Text Text → Assoc Text Text
  put_pairs [] args = args
  put_pairs ((key, value) ∷ ps) args = put_pairs ps (put (boost.to_lower_copy key) value args)

  abbrev start : Assoc Text Text → Parsing
  start args = record { key = []; value = []; in_key_turn = true; args = args }

  parse_char-IsClean :
      (p : Parsing) (c : ℕ)
      → IsClean c
      → parse_char boost p c ≡ (
          if p.in_key_turn
          then record p { key = p.key ++ c ∷ [] }
          else record p { value = p.value ++ c ∷ [] })
  unfolding parse_char
  parse_char-IsClean p c h = ground arith

  parse_key :
      (key done value : Text) (args : Assoc Text Text)
      → All IsClean key
      → foldl
          (parse_char boost)
          (record { key = done; value = value; in_key_turn = true; args = args })
          key
        ≡ record { key = done ++ key; value = value; in_key_turn = true; args = args }
  parse_key [] done value args h = rw append-nil
  parse_key (c ∷ key) done value args h =
      rw (parse_char-IsClean _ c h.0)
        (parse_key key (done ++ c ∷ []) value args h.1 ∙ rw (append_assoc done (c ∷ []) key))

  parse_value :
      (value key done : Text) (args : Assoc Text Text)
      → All IsClean value
      → foldl
          (parse_char boost)
          (record { key = key; value = done; in_key_turn = false; args = args })
          value
        ≡ record { key = key; value = done ++ value; in_key_turn = false; args = args }
  parse_value [] key done args h = rw append-nil
  parse_value (c ∷ value) key done args h =
      rw (parse_char-IsClean _ c h.0)
        (parse_value value key (done ++ c ∷ []) args h.1 ∙ rw (append_assoc done (c ∷ []) value))

  parse_pair :
      (p : Text × Text) (args : Assoc Text Text)
      → IsPair p
      → foldl (parse_char boost) (start args) (render_pair p)
        ≡ record { key = p.0; value = p.1; in_key_turn = false; args = args }
  parse_pair (key, value) args h =
      rw foldl-append
        (rw (parse_key key [] [] args h.1) (unfold parse_char in parse_value value key [] args h.2))

  parse_ampersand : (p : Parsing) → parse_char boost p b'&' ≡ start (store_pair boost p)
  unfolding parse_char
  parse_ampersand p = refl

  store_pair-IsPair :
      (p : Text × Text) (args : Assoc Text Text)
      → IsPair p
      → store_pair boost (record { key = p.0; value = p.1; in_key_turn = false; args = args })
        ≡ put (boost.to_lower_copy p.0) p.1 args
  unfolding store_pair
  store_pair-IsPair ([], value) args h = absurd (h.0 refl)
  store_pair-IsPair (c ∷ key, value) args h = refl

  store_render :
      (ps : List (Text × Text)) (args : Assoc Text Text)
      → All IsPair ps
      → store_pair boost (foldl (parse_char boost) (start args) (render ps)) ≡ put_pairs ps args
  unfolding put_pairs render
  store_render [] args h = unfold store_pair in refl
  store_render (p ∷ []) args h = rw (parse_pair p args h.0) (store_pair-IsPair p args h.0)
  store_render (p ∷ q ∷ ps) args h = rw foldl-append (
      rw (parse_pair p args h.0) (
        rw (parse_ampersand _) (
          rw (store_pair-IsPair p args h.0)
            (store_render (q ∷ ps) (put (boost.to_lower_copy p.0) p.1 args) h.1))))

  -- A query made of pairs with clean characters and keys that are not empty gives just these pairs,
  -- the keys in lower case, a later pair over an earlier one of the same key.
  pub parse_query-render :
      (ps : List (Text × Text)) → All IsPair ps → parse_query boost (render ps) ≡ put_pairs ps []
  unfolding parse_query
  parse_query-render ps h = store_render ps [] h
