-- ===== src/WebSocketClient/Urls.antt =====
-- UrlFromString: which urls it takes apart, and which it refuses.
use socker.Prelude.{
  ℕ, suc, ◌-◌, ◌≡◌, refl, ap, ◌≢◌, ◌↔◌, true, false, Option, none, some, [], ◌∷◌, ◌++◌,
  append_assoc, arith, ltb, nat_eq, length, take, drop, is_empty, length-append, All, All-append,
}
use socker.Text.{Text, bytes, find_first_of, is_prefix, tolower, text_beq, text_eq}
use socker.Text.Laws.{
  IsClean, find_first_of-append, find_first_of-none, drop-append, take-append, no_colon, no_slash,
}
use socker.WebSocketClient.{Url, is_valid, port_text, url_parts, url_from_string}

abbrev ws_url : Text → ℕ → Text → Url
ws_url host port target = record {
  protocol = bytes "ws";
  host = host;
  port = port;
  target = target;
}

drop-part : (a : Text) (d : ℕ) (s : Text) → drop (suc (length a)) (a ++ d ∷ s) ≡ s
drop-part [] d s = refl
drop-part (x ∷ a) d s = drop-part a d s

take-part : (a : Text) (d : ℕ) (s : Text) → take (suc (length a)) (a ++ d ∷ s) ≡ a ++ d ∷ []
take-part [] d s = refl
take-part (x ∷ a) d s = ap (λ t. x ∷ t) (take-part a d s)

-- The text that the cast gets: the port and the slash.
cut_port :
    (host port r : Text)
    → port_text
        (length host)
        (some (length (host ++ b':' ∷ port)))
        (host ++ b':' ∷ (port ++ b'/' ∷ r))
      ≡ port ++ bytes "/"
cut_port host port r =
    let longer : ltb (length (host ++ b':' ∷ port)) (length host) ≡ false =
      rw (length-append host (b':' ∷ port)) (ground arith) in
    let count : length (host ++ b':' ∷ port) - length host ≡ suc (length port) =
      omega (arith, length-append host (b':' ∷ port)) in
    rw longer (rw count (rw (drop-part host b':' (port ++ b'/' ∷ r)) (take-part port b'/' r)))

module _ (cast : Text → Option ℕ) where
  url_parts-refused :
      (colon : ℕ) (slash : Option ℕ) (temp : Text)
      → cast (port_text colon slash temp) ≡ none
      → is_valid (url_parts cast (some colon) slash temp) ≡ false
  unfolding url_parts is_valid
  url_parts-refused colon slash temp h = rw (url_parts, h) (ground arith)

  url_parts-port :
      (host port : Text) (n : ℕ)
      → cast port ≡ some n
      → url_parts cast (some (length host)) none (host ++ b':' ∷ port) ≡ ws_url host n (bytes "/")
  unfolding url_parts
  url_parts-port host port n read =
      rw (url_parts, drop-part host b':' port, read, take-append host (b':' ∷ port)) refl

  -- A url without a port and without a colon in its path gives its host and its path, with port 80,
  -- and is valid.
  pub url_from_string-path :
      (host r : Text)
      → is_empty host ≡ false
      → IsClean host
      → All (λ c. c ≢ b':') r
      → (url_from_string cast (bytes "ws://" ++ (host ++ b'/' ∷ r)) ≡ ws_url host 80 (b'/' ∷ r))
        × (is_valid (url_from_string cast (bytes "ws://" ++ (host ++ b'/' ∷ r))) ≡ true)
  unfolding url_from_string url_parts is_valid is_prefix tolower text_beq
  url_from_string-path host r filled hc rc =
      let colon : find_first_of b':' (host ++ b'/' ∷ r) ≡ none =
        find_first_of-none b':' _ (
          All-append (λ c. c ≢ b':') host (b'/' ∷ r) (no_colon host hc)
            ((λ e. ground arith), rc)) in
      let slash = find_first_of-append b'/' host r (no_slash host hc) in
      let same : url_from_string cast (bytes "ws://" ++ (host ++ b'/' ∷ r))
          ≡ ws_url host 80 (b'/' ∷ r) =
        rw (colon, slash, take-append, drop-append) refl in
      (same, rw same (rw filled refl))

  -- A url with a port and without a path gives its host and the port that the cast reads, with the
  -- path `/`, and is valid if and only if the port is not 0.
  pub url_from_string-port :
      (host port : Text) (n : ℕ)
      → is_empty host ≡ false
      → IsClean host
      → All (λ c. c ≢ b'/') port
      → cast port ≡ some n
      → (url_from_string cast (bytes "ws://" ++ (host ++ b':' ∷ port)) ≡ ws_url host n (bytes "/"))
        × ((is_valid (url_from_string cast (bytes "ws://" ++ (host ++ b':' ∷ port))) ≡ true)
            ↔ (n ≢ 0))
  unfolding url_from_string is_valid is_prefix tolower text_beq
  url_from_string-port host port n filled hc pc read =
      let slash : find_first_of b'/' (host ++ b':' ∷ port) ≡ none = find_first_of-none b'/' _ (
        All-append (λ c. c ≢ b'/') host (b':' ∷ port) (no_slash host hc)
          ((λ e. ground arith), pc)) in
      let colon = find_first_of-append b':' host port (no_colon host hc) in
      let same : url_from_string cast (bytes "ws://" ++ (host ++ b':' ∷ port))
          ≡ ws_url host n (bytes "/") =
        rw (colon, slash) (url_parts-port host port n read) in
      (same, rw same (ground (arith, filled)))

  -- A url with a port and a path is never valid, because the cast, which refuses a text that ends in
  -- a slash, gets the port with the slash behind it.
  pub url_from_string-port_and_path :
      (host port r : Text)
      → ((s : Text) → cast (s ++ bytes "/") ≡ none)
      → IsClean host
      → IsClean port
      → is_valid (url_from_string cast (bytes "ws://" ++ (host ++ b':' ∷ (port ++ b'/' ∷ r))))
        ≡ false
  unfolding url_from_string is_prefix tolower
  url_from_string-port_and_path host port r refuses hc pc =
      let to_port : Text = host ++ b':' ∷ port in
      let temp : Text = host ++ b':' ∷ (port ++ b'/' ∷ r) in
      let same : to_port ++ b'/' ∷ r ≡ temp = append_assoc host (b':' ∷ port) (b'/' ∷ r) in
      let slash : find_first_of b'/' temp ≡ some (length to_port) = rw same at (
        find_first_of-append b'/' to_port r (
          All-append (λ c. c ≢ b'/') host (b':' ∷ port) (no_slash host hc)
            ((λ e. ground arith), no_slash port pc))) in
      let colon = find_first_of-append b':' host (port ++ b'/' ∷ r) (no_colon host hc) in
      rw (colon, slash) (url_parts-refused _ _ temp (rw (cut_port host port r) (refuses port)))
