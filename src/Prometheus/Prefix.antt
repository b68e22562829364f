-- ===== src/Prometheus/Prefix.antt =====
-- The prefix of urls is put in once, and a service is found after its registration.
use socker.Prelude.{
  ◌≡◌, refl, ◌⊎◌, inl, inr, true, false, some, [], ◌∷◌, ◌++◌, arith, nat_eq, Bool-cases, beq_refl,
}
use socker.Text.{Text, bytes, is_prefix, text_eq}
use socker.Boost.{Boost}
use socker.Assoc.{get-put_self}
use socker.Context.{add_service, get_service}
use socker.Prometheus.{Service, Prometheus, full_url, slashed, is_kept, register_service, route}
use socker.Http.Route.{new_route}
use socker.Http.Registrar.{HookFunc}

is_prefix-append : (a s : Text) → is_prefix a (a ++ s) ≡ true
unfolding is_prefix
is_prefix-append [] s = refl
is_prefix-append (x ∷ a) s = rw (beq_refl x) (is_prefix-append a s)

module _ (boost : Boost) where
  slashed_slash : (u : Text) → is_prefix (bytes "/") (slashed boost u) ≡ true
  unfolding slashed
  slashed_slash u = elim (Bool-cases (is_prefix (bytes "/") u)) [
    | inl e ↦ rw (boost.starts_with_lem u (bytes "/")) (rw e e)
    | inr e ↦ rw (boost.starts_with_lem u (bytes "/")) (rw e (is_prefix-append (bytes "/") u))
  ]

  slashed-eq : (u : Text) → is_prefix (bytes "/") u ≡ true → slashed boost u ≡ u
  unfolding slashed
  slashed-eq u e = rw (boost.starts_with_lem u (bytes "/")) (rw e)

  -- the urls that a second pass leaves alone
  settled :
      (prefix u : Text)
      → is_prefix (bytes "/") u ≡ true
      → is_kept boost prefix u ≡ true
      → full_url boost prefix u ≡ u
  unfolding full_url
  settled prefix u slash kept = rw (slashed-eq u slash) (rw kept)

  kept-prefix : (prefix u : Text) → is_kept boost prefix (prefix ++ u) ≡ true
  unfolding is_kept
  kept-prefix prefix u =
      rw (boost.starts_with_lem (prefix ++ u) prefix)
        (rw (is_prefix-append prefix u) (ground arith))

  -- A url that has got its prefix does not get it again, if the prefix begins with a slash.
  pub full_url_idempotent :
      (rest url : Text)
      → full_url boost (b'/' ∷ rest) (full_url boost (b'/' ∷ rest) url)
        ≡ full_url boost (b'/' ∷ rest) url
  unfolding full_url slashed
  full_url_idempotent rest url =
      elim (Bool-cases (is_kept boost (b'/' ∷ rest) (slashed boost url))) [
        | inl e ↦
            let once : full_url boost (b'/' ∷ rest) url ≡ slashed boost url =
              rw (full_url, e) refl in
            rw once (settled (b'/' ∷ rest) (slashed boost url) (slashed_slash url) e)
        | inr e ↦
            let once : full_url boost (b'/' ∷ rest) url ≡ (b'/' ∷ rest) ++ slashed boost url =
              rw (full_url, e) refl in
            rw once (
              settled (b'/' ∷ rest) ((b'/' ∷ rest) ++ slashed boost url)
                (is_prefix-append (bytes "/") (rest ++ slashed boost url))
                (kept-prefix (b'/' ∷ rest) (slashed boost url)))
      ]

  -- A service whose init succeeds is found in the context by its name; one whose init fails leaves
  -- the server and its own routes as they were, and the context as init left it.
  pub register_service_lem :
      (si : Service) (p : Prometheus)
      → (((si.init p.context).1 ≡ true)
          × (get_service si.name (register_service boost si p).0.context ≡ some si.id))
        ⊎ (((si.init p.context).1 ≡ false)
            × (register_service boost si p ≡ (record p { context = (si.init p.context).0 }, si)))
  unfolding register_service get_service add_service
  register_service_lem si p = elim (Bool-cases (si.init p.context).1) [
    | inl ok ↦ inl (ok, rw ok (get-put_self si.name si.id (si.init p.context).0.services))
    | inr failed ↦ inr (failed, rw failed)
  ]

  route-slashed : (m u : Text) (h : HookFunc) → (route boost m u h).url ≡ slashed boost u
  unfolding route slashed new_route
  route-slashed m u h = refl

  -- A route that ROUTE makes is hooked at the url of its text: the slash that it puts in front is not
  -- put in again.
  pub full_url-route :
      (prefix m u : Text) (h : HookFunc)
      → full_url boost prefix (route boost m u h).url ≡ full_url boost prefix u
  unfolding full_url
  full_url-route prefix m u h =
      rw (route-slashed m u h) (rw (slashed-eq (slashed boost u) (slashed_slash u)) refl)
