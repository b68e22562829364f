-- ===== src/HttpClient/Urls.antt =====
-- What makeRequest reads out of a url: which urls come back from their text, and which do not.
use socker.Prelude.{
  ℕ, suc, ◌≤◌, ◌≡◌, refl, ap, ◌∙◌, ◌≢◌, ◌⊎◌, inl, inr, Bool, true, false, Option, none, some, List,
  [], ◌∷◌, ◌++◌, append_assoc, arith, if◌then◌else◌, nat_eq, length, drop, is_empty, length-append,
  All, All-append,
}
use socker.Text.{Text, bytes, text_eq, find_first_of_from, split_on, any_of, is_prefix}
use socker.Text.Laws.{
  IsClean, find_first_of_from-append, find_first_of_from-none, drop-append, no_colon, no_slash,
}
use socker.Assoc.{Assoc}
use socker.Boost.{Boost}
use socker.HttpClient.Request.{
  Url, to_string, fixed_url, make_request, get_item, is_found, substr_from,
}

abbrev seps : ℕ → Bool
seps = any_of (bytes ":/")

split_on-separator :
    (a : Text) (d : ℕ) (s : Text)
    → IsClean a
    → seps d ≡ true
    → split_on seps (a ++ d ∷ s) ≡ a ∷ split_on seps s
unfolding split_on any_of
split_on-separator [] d s h e = rw e
split_on-separator (x ∷ a) d s h e = rw (split_on-separator a d s h.1 e) (ground arith)

-- the two protocols of a valid url
abbrev pub IsHttp : Text → Type 0
IsHttp p = (p ≡ bytes "http") ⊎ (p ≡ bytes "https")

-- the search behind a protocol starts within the host
abbrev BehindProtocol : Text → Text → ℕ → ℕ → Type 0
BehindProtocol p t d n =
    (m : ℕ) × (find_first_of_from d 9 (p ++ (bytes "://" ++ t)) ≡ some m)
    × (drop m (p ++ (bytes "://" ++ t)) ≡ drop n t)

found_behind :
    (p : Text) (d : ℕ) (t : Text) (n : ℕ)
    → IsHttp p
    → ((k : ℕ) → k ≤ 2 → find_first_of_from d k t ≡ some n)
    → BehindProtocol p t d n
unfolding find_first_of_from
found_behind p d t n (inl e) h =
    rw e (suc (suc (suc (suc (suc (suc (suc n)))))), rw (h 2 (omega arith)), refl)
found_behind p d t n (inr e) h =
    rw e (suc (suc (suc (suc (suc (suc (suc (suc n))))))), rw (h 1 (omega arith)), refl)

none_behind :
    (p : Text) (d : ℕ) (t : Text)
    → IsHttp p
    → All (λ x. x ≢ d) t
    → find_first_of_from d 9 (p ++ (bytes "://" ++ t)) ≡ none
unfolding find_first_of_from
none_behind p d t (inl e) h = rw e (rw (find_first_of_from-none d 2 t h))
none_behind p d t (inr e) h = rw e (rw (find_first_of_from-none d 1 t h))

split-protocol :
    (p t : Text)
    → IsHttp p
    → split_on seps (p ++ (bytes "://" ++ t)) ≡ p ∷ [] ∷ [] ∷ split_on seps t
unfolding split_on any_of
split-protocol p t (inl e) =
    rw e (split_on-separator (bytes "http") b':' (bytes "//" ++ t) (ground arith) refl)
split-protocol p t (inr e) =
    rw e (split_on-separator (bytes "https") b':' (bytes "//" ++ t) (ground arith) refl)

starts-protocol : (p t : Text) → IsHttp p → is_prefix (bytes "http") (p ++ t) ≡ true
unfolding is_prefix
starts-protocol p t (inl e) = rw e refl
starts-protocol p t (inr e) = rw e refl

abbrev pub a_url : Text → Text → Text → Text → Url
a_url protocol host port r = record {
  protocol = protocol;
  host = host;
  port = port;
  resource = b'/' ∷ r;
}

module _ (boost : Boost) where
  fixed_url-http : (url : Text) → is_prefix (bytes "http") url ≡ true → fixed_url boost url ≡ url
  unfolding fixed_url
  fixed_url-http url h = rw boost.starts_with_lem (rw h)

  abbrev or_default : Text → Text
  or_default port = if is_empty port then bytes "80" else port

  -- makeRequest from the pieces, the two searches and the start of the url
  make_request-pieces :
      (url p host r : Text) (more : List Text) (found : Bool) (head : Assoc Text Text) (body : Text)
      (timeout : Option ℕ)
      → is_prefix (bytes "http") url ≡ true
      → split_on seps url ≡ p ∷ [] ∷ [] ∷ host ∷ more
      → is_found (find_first_of_from b':' 9 url) ≡ found
      → substr_from (find_first_of_from b'/' 9 url) url ≡ b'/' ∷ r
      → (make_request boost url head body timeout).url ≡ record {
        protocol = p;
        host = host;
        port = or_default (if found then get_item more 0 else []);
        resource = b'/' ∷ r;
      }
  unfolding make_request is_prefix
  make_request-pieces url p host r more found head body timeout http pieces colon rest =
      rw (fixed_url-http url http, boost.split_lem, pieces, colon, rest, boost.starts_with_lem) refl

  -- A url of HTTP or HTTPS with a host of at least two characters, a port and a resource that begins
  -- with a slash comes back from its text, if no colon or slash is in the host and the port.
  pub make_request-to_string :
      (p host port r : Text) (head : Assoc Text Text) (body : Text) (timeout : Option ℕ)
      → IsHttp p
      → 2 ≤ length host
      → IsClean host
      → IsClean port
      → is_empty port ≡ false
      → (make_request boost (to_string (a_url p host port r)) head body timeout).url
        ≡ a_url p host port r
  unfolding to_string any_of
  make_request-to_string p host port r head body timeout http len hc pc filled =
      let (m, colon, _) =
        found_behind p b':' (host ++ b':' ∷ (port ++ b'/' ∷ r)) (length host) http (λ k le.
          find_first_of_from-append b':' k host (port ++ b'/' ∷ r) (omega (arith, le, len))
            (no_colon host hc)) in
      let to_port : Text = host ++ b':' ∷ port in
      let (m', slash, rest) =
        found_behind p b'/' (to_port ++ b'/' ∷ r) (length to_port) http (λ k le.
          find_first_of_from-append b'/' k to_port r
            (omega (arith, le, len, length-append host (b':' ∷ port)))
            (All-append (λ x. x ≢ b'/') host (b':' ∷ port) (no_slash host hc)
              ((λ e. ground arith), no_slash port pc))) in
      let same : to_port ++ b'/' ∷ r ≡ host ++ b':' ∷ (port ++ b'/' ∷ r) =
        append_assoc host (b':' ∷ port) (b'/' ∷ r) in
      make_request-pieces _ p host r (port ∷ split_on seps r) true head body timeout
        (starts-protocol p _ http)
        (split-protocol p _ http
          ∙ ap (λ ts. p ∷ [] ∷ [] ∷ ts)
              (split_on-separator host b':' (port ++ b'/' ∷ r) hc refl
                ∙ ap (λ ts. host ∷ ts) (split_on-separator port b'/' r pc refl)))
        (rw colon)
        (rw (rw same at slash) (rw same at rest ∙ rw⁻¹ same (drop-append to_port (b'/' ∷ r))))
      ∙ rw filled refl

  -- the parts of a url that has no port
  no_port :
      (p host r : Text) (found : Bool) (head : Assoc Text Text) (body : Text) (timeout : Option ℕ)
      → IsHttp p
      → 2 ≤ length host
      → IsClean host
      → is_found (find_first_of_from b':' 9 (p ++ (bytes "://" ++ (host ++ b'/' ∷ r)))) ≡ found
      → (make_request boost (p ++ (bytes "://" ++ (host ++ b'/' ∷ r))) head body timeout).url
        ≡ a_url p host (or_default (if found then get_item (split_on seps r) 0 else [])) r
  unfolding any_of
  no_port p host r found head body timeout http len hc colon =
      let (m, slash, rest) = found_behind p b'/' (host ++ b'/' ∷ r) (length host) http (λ k le.
        find_first_of_from-append b'/' k host r (omega (arith, le, len)) (no_slash host hc)) in
      make_request-pieces _ p host r (split_on seps r) found head body timeout
        (starts-protocol p _ http)
        (split-protocol p _ http
          ∙ ap (λ ts. p ∷ [] ∷ [] ∷ ts) (split_on-separator host b'/' r hc refl))
        colon (rw slash (rest ∙ drop-append host (b'/' ∷ r)))

  -- A url of HTTP or HTTPS without a port, with a host of at least two characters and no colon
  -- behind the protocol, gets port 80, and its host and path are kept.
  pub make_request-default_port :
      (p host r : Text) (head : Assoc Text Text) (body : Text) (timeout : Option ℕ)
      → IsHttp p
      → 2 ≤ length host
      → IsClean host
      → All (λ c. c ≢ b':') r
      → (make_request boost (p ++ (bytes "://" ++ (host ++ b'/' ∷ r))) head body timeout).url
        ≡ a_url p host (bytes "80") r
  make_request-default_port p host r head body timeout http len hc rc =
      no_port p host r false head body timeout http len hc (
        rw (
          none_behind p b':' (host ++ b'/' ∷ r) http (
            All-append (λ c. c ≢ b':') host (b'/' ∷ r) (no_colon host hc)
              ((λ e. ground arith), rc))))

  -- A url of HTTP or HTTPS without a port, but with a colon in its path behind a first part that is
  -- not empty: that first part becomes the port.
  pub make_request-colon_in_path :
      (p host part r : Text) (head : Assoc Text Text) (body : Text) (timeout : Option ℕ)
      → IsHttp p
      → 2 ≤ length host
      → IsClean host
      → IsClean part
      → is_empty part ≡ false
      → (make_request boost
          (p ++ (bytes "://" ++ (host ++ b'/' ∷ (part ++ b':' ∷ r))))
          head
          body
          timeout).url
        ≡ a_url p host part (part ++ b':' ∷ r)
  unfolding any_of
  make_request-colon_in_path p host part r head body timeout http len hc pc filled =
      let path : Text = host ++ b'/' ∷ part in
      let (m, colon, _) = found_behind p b':' (path ++ b':' ∷ r) (length path) http (λ k le.
        find_first_of_from-append b':' k path r
          (omega (arith, le, len, length-append host (b'/' ∷ part)))
          (All-append (λ c. c ≢ b':') host (b'/' ∷ part) (no_colon host hc)
            ((λ e. ground arith), no_colon part pc))) in
      let same : path ++ b':' ∷ r ≡ host ++ b'/' ∷ (part ++ b':' ∷ r) =
        append_assoc host (b'/' ∷ part) (b':' ∷ r) in
      no_port p host (part ++ b':' ∷ r) true head body timeout http len hc (rw (rw same at colon))
      ∙ rw (split_on-separator part b':' r pc refl) (rw filled refl)
