-- ===== src/Http/Route/Split.antt =====
-- splitUrl: what the tokens of a url are, and which urls give a list of tokens.
use socker.Prelude.{
  ℕ, ◌≡◌, refl, sym, ap, ◌∙◌, ◌≢◌, inl, inr, Bool, true, false, List, [], ◌∷◌, ◌++◌, map,
  append-nil, append_assoc, arith, nat_eq, Bool-cases, All,
}
use socker.Boost.{Boost}
use socker.Text.{Text, bytes, tolower, split_on, split_step, any_of, merge_adjacent}
use socker.Text.Laws.{before, substr_to-find_first_of}
use socker.Http.Route.{erase_empty, split_url}

module _ (sep : ℕ → Bool) where
  -- Compression does not change the first piece outside a run of separators, nor the pieces that
  -- are not empty.
  abbrev AgreesOutside : Text → Type 0
  AgreesOutside s =
      (p : Text) × (ps : List Text) × (qs : List Text) × (split_on sep (merge_adjacent sep false s)
        ≡ p ∷ ps)
      × (split_on sep s ≡ p ∷ qs)
      × (erase_empty ps ≡ erase_empty qs)

  abbrev AgreesInside : Text → Type 0
  AgreesInside s =
      erase_empty (split_on sep (merge_adjacent sep true s)) ≡ erase_empty (split_on sep s)

  agrees : (s : Text) → AgreesOutside s × AgreesInside s
  unfolding split_on merge_adjacent erase_empty
  agrees [] = (([], [], [], refl, refl, refl), refl)
  agrees (c ∷ s) = elim (Bool-cases (sep c)) [
    | inl e ↦ (
      ([], split_on sep (merge_adjacent sep true s), split_on sep s, rw e, rw e, (agrees s).1),
      rw e (agrees s).1,
    )
    | inr e ↦
        let (p, ps, qs, hp, hq, h) = (agrees s).0 in
        (
          (c ∷ p, ps, qs, rw e (rw hp), rw e (rw hq), h),
          rw e (rw e (rw (hp, hq) (ap (λ r. (c ∷ p) ∷ r) h))),
        )
  ]

  split_on-merge_adjacent :
      (s : Text)
      → erase_empty (split_on sep (merge_adjacent sep false s)) ≡ erase_empty (split_on sep s)
  unfolding erase_empty
  split_on-merge_adjacent s =
      let (p, ps, qs, hp, hq, h) = (agrees s).0 in rw (hp, hq) (ground (arith, h))

-- what the characters of a token are
abbrev pub IsTokenChar : ℕ → Type 0
IsTokenChar c = (c ≢ b'/') × (c ≢ b'?') × (tolower c ≡ c)

abbrev pub IsToken : Text → Type 0
IsToken t = (t ≢ []) × All IsTokenChar t

abbrev slash : ℕ → Bool
slash = any_of (bytes "/")

-- Every piece is free of separators.
split_on-All :
    (P : ℕ → Type 0) (sep : ℕ → Bool) (s : Text)
    → All (λ c. sep c ≡ false → P c) s
    → All (All P) (split_on sep s)
unfolding split_on
split_on-All P sep [] h = (tt, tt)
split_on-All P sep (c ∷ s) h = elim (Bool-cases (sep c)) [
  | inl e ↦ rw e (tt, split_on-All P sep s h.1)
  | inr e ↦ rw e (step (split_on sep s) (h.0 e) (split_on-All P sep s h.1))
]
  where
    step : (ps : List Text) → P c → All (All P) ps → All (All P) (split_step false c ps)
    step [] pc h = ((pc, tt), tt)
    step (p ∷ ps) pc (hp, hps) = ((pc, hp), hps)

erase_empty-All :
    (P : ℕ → Type 0) (ts : List Text)
    → All (All P) ts
    → All (λ t. (t ≢ []) × All P t) (erase_empty ts)
unfolding erase_empty
erase_empty-All P [] h = tt
erase_empty-All P ([] ∷ ts) h = erase_empty-All P ts h.1
erase_empty-All P ((c ∷ t) ∷ ts) h = (((λ e. cc), h.0), erase_empty-All P ts h.1)

erase_empty-eq : (ts : List Text) → All IsToken ts → erase_empty ts ≡ ts
unfolding erase_empty
erase_empty-eq [] h = refl
erase_empty-eq ([] ∷ ts) h = absurd (h.0.0 refl)
erase_empty-eq ((c ∷ t) ∷ ts) h = ap (λ r. (c ∷ t) ∷ r) (erase_empty-eq ts h.1)

before-All : (s : Text) → All (λ c. slash c ≡ false → IsTokenChar c) (map tolower (before b'?' s))
unfolding before tolower any_of
before-All [] = tt
before-All (c ∷ s) = ground (arith, before-All s)

module _ (boost : Boost) where
  -- The tokens of a url are the non-empty pieces between the slashes of its lower-case part before
  -- the first question mark: compression adds nothing.
  pub split_url_lem :
      (url : Text)
      → split_url boost url
        ≡ erase_empty (split_on (any_of (bytes "/")) (map tolower (before b'?' url)))
  unfolding split_url
  split_url_lem url = simp (
    boost.to_lower_copy_lem, boost.split-compress, split_on-merge_adjacent, substr_to-find_first_of,
  )

  -- No token is empty, and none holds a slash, a question mark or an upper-case letter.
  pub split_url-IsToken : (url : Text) → All IsToken (split_url boost url)
  split_url-IsToken url =
      rw (split_url_lem url)
        (erase_empty-All IsTokenChar _ (split_on-All IsTokenChar slash _ (before-All url)))

-- the url of a list of tokens
pub join : List Text → Text
join [] = []
join (t ∷ ts) = b'/' ∷ t ++ join ts

split_on-append :
    (t s q : Text) (qs : List Text)
    → All IsTokenChar t
    → split_on slash s ≡ q ∷ qs
    → split_on slash (t ++ s) ≡ (t ++ q) ∷ qs
unfolding split_on any_of
split_on-append [] s q qs h e = e
split_on-append (c ∷ t) s q qs h e = rw (split_on-append t s q qs h.1 e) (ground arith)

split_on-join : (ts : List Text) → All IsToken ts → split_on slash (join ts) ≡ [] ∷ ts
unfolding split_on any_of join
split_on-join [] h = refl
split_on-join (t ∷ ts) h =
    ap (λ r. [] ∷ r)
      (split_on-append t (join ts) [] ts h.0.1 (split_on-join ts h.1)
        ∙ ap (λ r. r ∷ ts) (append-nil t))

before-tokens :
    (t s : Text)
    → All IsTokenChar t
    → map tolower (before b'?' (t ++ s)) ≡ t ++ map tolower (before b'?' s)
unfolding before
before-tokens [] s h = refl
before-tokens (c ∷ t) s h = ground (arith, before-tokens t s)

before-join :
    (ts : List Text) (s : Text)
    → All IsToken ts
    → map tolower (before b'?' (join ts ++ s)) ≡ join ts ++ map tolower (before b'?' s)
unfolding before join tolower
before-join [] s h = refl
before-join (t ∷ ts) s h =
    ap (λ r. b'/' ∷ r)
      (ap (λ r. map tolower (before b'?' r)) (append_assoc t (join ts) s)
        ∙ before-tokens t (join ts ++ s) h.0.1
        ∙ ap (λ r. t ++ r) (before-join ts s h.1)
        ∙ sym (append_assoc t (join ts) _))

split_url-join_rest :
    (boost : Boost) (ts : List Text) (s : Text)
    → All IsToken ts
    → before b'?' s ≡ []
    → split_url boost (join ts ++ s) ≡ ts
unfolding erase_empty
split_url-join_rest boost ts s h e =
    rw (split_url_lem boost (join ts ++ s)) (
      rw (before-join ts s h)
        (rw e (rw append-nil (rw (split_on-join ts h) (erase_empty-eq ts h)))))

-- A list of tokens comes back from its url, with and without a query behind it.
pub split_url-join :
    (boost : Boost) (ts : List Text) (query : Text)
    → All IsToken ts
    → (split_url boost (join ts) ≡ ts) × (split_url boost (join ts ++ b'?' ∷ query) ≡ ts)
unfolding before
split_url-join boost ts query h = (
  ap (split_url boost) (sym (append-nil (join ts))) ∙ split_url-join_rest boost ts [] h refl,
  split_url-join_rest boost ts (b'?' ∷ query) h refl,
)
