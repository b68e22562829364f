-- ===== src/HttpClient/Sending.antt =====
-- Reply, Client::doSend and the calls on it of Depends/Asula/Include/Asula/HttpClient.hpp. What the
-- network does with a request is an argument: how each asynchronous call ends. A response is its
-- status, its headers in order and its body.
use socker.Prelude.{
  ℕ, Bool, true, false, not, Option, none, some, List, [], ◌∷◌, if◌then◌else◌, ltb, nat_eq, length,
}
use mathlib.Core.List.{foldl}
use socker.Text.{Text, bytes, text_eq}
use socker.Assoc.{Assoc, put}
use socker.Boost.{Boost}
use socker.HttpClient.Request.{is_valid, Request, make_request}

-- a response of Beast
pub record Received : Type 0 where
  pub result : ℕ
  pub fields : List (Text × Text)
  pub body : Text

pub record Reply : Type 0 where
  pub code : ℕ
  pub head : Assoc Text Text
  pub body : Text
  pub raw : Received

-- Reply(raw)
unfoldable pub new_reply : Received → Reply
new_reply raw = record {
  code = raw.result;
  head = foldl (λ head it. put it.0 it.1 head) [] raw.fields;
  body = raw.body;
  raw = raw;
}

-- how the shutdown of the socket ends: `not_connected` is the error that the code lets pass
pub data Shutdown : Type 0 where
  shut : Shutdown
  not_connected : Shutdown
  shutdown_failed : Text → Shutdown

-- how the calls of doSend end, each as if it was reached: none, or the message of the error
pub record Exchange : Type 0 where
  pub resolve : Option Text
  pub connect : Option Text
  pub write : Option Text
  pub read : Option Text
  pub response : Received
  pub shutdown : Shutdown

-- the request that is written: the calls of `set`, in order
pub record Written : Type 0 where
  pub verb : ℕ
  pub target : Text
  pub fields : List (Text × Text)
  pub body : Text

-- What doSend did: the replies that the handler got, the time limit that was set and the request
-- that was handed to the stream.
pub record Done : Type 0 where
  pub replies : List Reply
  pub expires : Option ℕ
  pub written : Option Written

-- Reply{{ status, VERSION, body }}
abbrev pub failure : ℕ → Text → List Reply
failure status body = new_reply (record { result = status; fields = []; body = body }) ∷ []

-- A promise that each reply sets: none stands for one that is never set, or set twice.
abbrev pub set_once : List Reply → Option Reply
set_once (r ∷ []) = some r
set_once _ = none

abbrev positive : Option ℕ → Option ℕ
positive none = none
positive (some n) = if ltb 0 n then some n else none

-- the client's settings, the version string of Beast and the text of a number
module _ (timeout : Option ℕ) (user_agent : Text) (decimal : ℕ → Text) where
  -- the limit that is set on the stream: that of the request, else the client's
  unfoldable pub expires_after : Request → Option ℕ
  expires_after req = elim (positive req.timeout) [ some n ↦ some n | none ↦ positive timeout ]

  unfoldable pub written_request : ℕ → Request → Written
  written_request verb req = record {
    verb = verb;
    target = req.url.resource;
    fields =
        (bytes "Host", req.url.host)
        ∷ (bytes "User-Agent", user_agent)
        ∷ (bytes "Content-Length", decimal (length req.body))
        ∷ req.head;
    body = req.body;
  }

  -- what the read and the shutdown give
  unfoldable pub finish_reply : Exchange → List Reply
  finish_reply net = elim net.read [
    | some message ↦ failure 500 message
    | none ↦ elim net.shutdown [
      | shutdown_failed message ↦ failure 500 message
      | _ ↦ new_reply net.response ∷ []
    ]
  ]

  -- doSend(verb, req, func): `has_handler` is func != nullptr
  unfoldable pub do_send : (has_handler : Bool) → ℕ → Request → Exchange → Done
  do_send false verb req net = record { replies = []; expires = none; written = none }
  do_send true verb req net =
      let limit = expires_after req in
      let out = some (written_request verb req) in
      if not (is_valid req.url)
      then record { replies = failure 404 (bytes "invalid url"); expires = none; written = none }
      else elim net.resolve [
        | some e ↦ record {
          replies = failure 404 (bytes "resolve host failed");
          expires = none;
          written = none;
        }
        | none ↦ elim net.connect [
          | some e ↦ record {
            replies = failure 599 (bytes "connect to host failed");
            expires = limit;
            written = none;
          }
          | none ↦ elim net.write [
            | some e ↦ record {
              replies = failure 500 (bytes "send request failed");
              expires = limit;
              written = out;
            }
            | none ↦ record { replies = finish_reply net; expires = limit; written = out }
          ]
        ]
      ]

  -- syncSend(verb, req)
  unfoldable pub sync_send : ℕ → Request → Exchange → Option Reply
  sync_send verb req net = set_once (do_send true verb req net).replies

-- The calls that take a url; `make_request` is that of `boost`. verb::get is 2, verb::post 4,
-- verb::put 5 and verb::delete_ 1.
module _ (boost : Boost) (timeout : Option ℕ) (user_agent : Text) (decimal : ℕ → Text) where
  -- get(url, head, func, timeout)
  unfoldable pub get_url : Bool → Text → Assoc Text Text → Option ℕ → Exchange → Done
  get_url has_handler url head limit =
      do_send timeout user_agent decimal has_handler 2 (make_request boost url head [] limit)

  -- post(url, head, body, func, timeout)
  unfoldable pub post_url : Bool → Text → Assoc Text Text → Text → Option ℕ → Exchange → Done
  post_url has_handler url head body limit =
      do_send timeout user_agent decimal has_handler 4 (make_request boost url head body limit)

  -- put(url, head, body, func, timeout)
  unfoldable pub put_url : Bool → Text → Assoc Text Text → Text → Option ℕ → Exchange → Done
  put_url has_handler url head body limit =
      do_send timeout user_agent decimal has_handler 5 (make_request boost url head body limit)

  -- del(url, head, body, func, timeout)
  unfoldable pub del_url : Bool → Text → Assoc Text Text → Text → Option ℕ → Exchange → Done
  del_url has_handler url head body limit =
      do_send timeout user_agent decimal has_handler 1 (make_request boost url head body limit)

  -- syncGet(url, head, timeout)
  unfoldable pub sync_get_url : Text → Assoc Text Text → Option ℕ → Exchange → Option Reply
  sync_get_url url head limit =
      sync_send timeout user_agent decimal 2 (make_request boost url head [] limit)

  -- syncPost(url, head, body, timeout)
  unfoldable pub sync_post_url : Text → Assoc Text Text → Text → Option ℕ → Exchange → Option Reply
  sync_post_url url head body limit =
      sync_send timeout user_agent decimal 4 (make_request boost url head body limit)

  -- syncPut(url, head, body, timeout)
  unfoldable pub sync_put_url : Text → Assoc Text Text → Text → Option ℕ → Exchange → Option Reply
  sync_put_url url head body limit =
      sync_send timeout user_agent decimal 5 (make_request boost url head body limit)

  -- syncDel(url, head, body, timeout)
  unfoldable pub sync_del_url : Text → Assoc Text Text → Text → Option ℕ → Exchange → Option Reply
  sync_del_url url head body limit =
      sync_send timeout user_agent decimal 1 (make_request boost url head body limit)
