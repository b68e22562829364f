-- ===== src/HttpClient/Request.antt =====
-- Url, Request and makeRequest of Depends/Asula/Include/Asula/HttpClient.hpp.
use socker.Prelude.{
  ℕ, Bool, true, false, not, ◌&&◌, ◌||◌, Option, none, some, List, [], ◌++◌, if◌then◌else◌, ◌==◌,
  nat_eq, get_elem?, drop, is_empty,
}
use mathlib.Core.Option
use socker.Text.{Text, bytes, text_eq, find_first_of_from}
use socker.Assoc.{Assoc}
use socker.Boost.{Boost}

pub record Url : Type 0 where
  pub protocol : Text
  pub host : Text
  pub port : Text
  pub resource : Text

-- Url::isValid
unfoldable pub is_valid : Url → Bool
is_valid u = (u.protocol == bytes "http" || u.protocol == bytes "https") && not (is_empty u.host)

-- Url::toString
unfoldable pub to_string : Url → Text
to_string u = u.protocol ++ (bytes "://" ++ (u.host ++ (bytes ":" ++ (u.port ++ u.resource))))

-- `head` in the order of iteration; the timeout is an int, none for one below 0
pub record Request : Type 0 where
  pub url : Url
  pub head : Assoc Text Text
  pub body : Text
  pub timeout : Option ℕ

-- GET_ITEM(pos)
abbrev pub get_item : List Text → ℕ → Text
get_item token pos = Option.get_or (get_elem? token pos) []

-- pos != npos
abbrev pub is_found : Option ℕ → Bool
is_found none = false
is_found (some pos) = true

-- s.substr(pos), empty where pos is npos
abbrev pub substr_from : Option ℕ → Text → Text
substr_from none s = []
substr_from (some pos) s = drop pos s

module _ (boost : Boost) where
  -- the url with its protocol in front
  unfoldable pub fixed_url : Text → Text
  fixed_url url =
      if boost.starts_with url (bytes "http")
      then url
      else bytes "http" ++ (if boost.starts_with url (bytes ":") then url else bytes "://" ++ url)

  -- makeRequest(url, head, body, timeout)
  unfoldable pub make_request : Text → Assoc Text Text → Text → Option ℕ → Request
  make_request url head body timeout =
      let fixed = fixed_url url in
      let token = boost.split fixed (bytes ":/") false in
      let has_port = is_found (find_first_of_from b':' 9 fixed) in
      let port = if has_port then get_item token 4 else [] in
      let res = substr_from (find_first_of_from b'/' 9 fixed) fixed in
      record {
        url = record {
          protocol = get_item token 0;
          host = get_item token 3;
          port = if is_empty port then bytes "80" else port;
          resource = if boost.starts_with res (bytes "/") then res else bytes "/" ++ res;
        };
        head = head;
        body = body;
        timeout = timeout;
      }
