-- ===== src/Http/Server/Files.antt =====
-- Which file a request can reach when no hook answers it.
use socker.Prelude.{
  ◌≡◌, refl, inl, inr, false, none, [], ◌∷◌, map, arith, nat_eq, Bool-cases, Option-cases,
}
use socker.Boost.{Boost}
use socker.Text.{Text, text_eq, bytes, find, tolower, back, is_prefix}
use socker.Text.Dots.{NoDots, NoDots-append, none-find, find-none}
use socker.Http.Beast.{Request}
use socker.Http.Uri.{decode_uri, decode_loop, decode_char, cat_path, is_slash}
use socker.Http.Uri.Decode.{decode_uri_keeps_dots_out}
use socker.Http.Uri.Path.{cat_path_keeps_dots_out}
use socker.Http.Session.{Wire, new_session, local_path}
use socker.Http.Registrar.{is_illegal}

-- what the check of the target lets through
legal_target :
    (target : Text)
    → is_illegal target ≡ false
    → (path : Text) × (target ≡ b'/' ∷ path) × (find (bytes "..") target ≡ none)
unfolding is_illegal
legal_target [] h = cc
legal_target (c ∷ url) h = elim (Option-cases (find (bytes "..") (c ∷ url))) [
  | inl e ↦ (url, ground arith, e)
  | inr (pos, e) ↦ absurd (ground (arith, rw (e, is_illegal) at h))
]

index-NoDots : NoDots (bytes "index.html")
unfolding find is_prefix
index-NoDots = find-none (bytes "index.html") refl

module _ (boost : Boost) where
  decode_uri-slash : (path : Text) → (rest : Text) × (decode_uri boost (b'/' ∷ path) ≡ b'/' ∷ rest)
  unfolding decode_uri decode_loop decode_char tolower
  decode_uri-slash path = (map tolower (decode_loop boost 0 path), boost.to_lower_copy_lem _)

  -- For a request that the checks let through, the path of the file that replyLocalFile opens has no
  -- `..` in it, if the server's directory has none.
  pub local_path_has_no_dots :
      (root : Text) (req : Request) (w : Wire)
      → find (bytes "..") root ≡ none
      → is_illegal req.target ≡ false
      → find (bytes "..") (local_path (new_session boost root req w)) ≡ none
  unfolding new_session
  local_path_has_no_dots root req w clean legal =
      let (path, starts, dots) = legal_target req.target legal in
      let (rest, href) = decode_uri-slash path in
      let joined : find (bytes "..") (cat_path root (decode_uri boost req.target)) ≡ none =
        rw (starts, href)
          (cat_path_keeps_dots_out root rest clean
            (rw href at (decode_uri_keeps_dots_out boost (b'/' ∷ path) (rw starts at dots)))) in
      elim (Bool-cases (is_slash (back (decode_uri boost req.target)))) [
        | inl e ↦
            rw e
              (none-find _ (NoDots-append _ _ b'i' (find-none _ joined) index-NoDots (omega arith)))
        | inr e ↦ rw e joined
      ]
