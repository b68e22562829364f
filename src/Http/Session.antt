-- ===== src/Http/Session.antt =====
-- Session and SendLambda of Depends/Asula/Include/Asula/HttpServer.hpp, without handleRequest
-- and parseArguments. Assertions are compiled out.
pub mod Replies
pub mod Files
pub mod Getters
use socker.Prelude.{
  ℕ, zero, suc, ◌%◌, ◌^◌, ◌+◌, Bool, true, false, not, ◌&&◌, Option, none, some, List, [], ◌∷◌,
  ◌++◌, if◌then◌else◌, ◌==◌, nat_eq, drop, is_empty,
}
use mathlib.Core.Option
use mathlib.Core.List.{foldl}
use socker.Text.{Text, bytes, text_eq, find_first_of, rfind, back}
use socker.Assoc.{Assoc, get, put}
use socker.Boost.{Boost}
use socker.Http.Beast.{
  Request, Body, string_body, empty_body, file_body, Response, FileOpen, no_such_file, open_failed,
  opened, Beast,
}
use socker.Http.Uri.{minetype, cat_path, decode_uri, is_slash}

-- What SendLambda refers to: `close_`, `ec_` and the stream. `outcomes` are the error codes that
-- the next writes end with, where none is success; a write beyond them succeeds.
pub record Wire : Type 0 where
  pub close : Bool
  pub ec : Option Text
  pub written : List Response
  pub outcomes : List (Option Text)

pub record Session : Type 0 where
  pub root : Text
  pub req : Request
  pub send : Wire
  pub href : Text
  pub args : Assoc Text Text
  pub rep_status_code : ℕ
  pub rep_content_len : ℕ
  pub replied : Bool

pub data ContextType : Type 0 where
  default json xml text : ContextType

abbrev context_types : ContextType → Text
context_types default = bytes "text/plain"
context_types json = bytes "application/json"
context_types xml = bytes "application/xml"
context_types text = bytes "text/plain"

abbrev pub http_server_version : Text
http_server_version = bytes "Asula/1.0 HTTP Server, based on boost beast"

-- (int)n as a bit pattern
abbrev pub to_int : ℕ → ℕ
to_int n = n % 2 ^ 32

abbrev next_outcome : List (Option Text) → Option Text
next_outcome [] = none
next_outcome (o ∷ os) = o

abbrev later_outcomes : List (Option Text) → List (Option Text)
later_outcomes [] = []
later_outcomes (o ∷ os) = os

module _ (boost : Boost) where
  -- Session(root, req, send)
  unfoldable pub new_session : Text → Request → Wire → Session
  new_session root req send = record {
    root = root;
    req = req;
    send = send;
    href = decode_uri boost req.target;
    args = [];
    rep_status_code = 200;
    rep_content_len = 0;
    replied = false;
  }

  -- arg(key, value)
  unfoldable pub arg : Text → Text → Session → Text
  arg key value s = Option.get_or (get (boost.to_lower_copy key) s.args) value

-- addArgument(key, val)
unfoldable pub add_argument : Text → Text → Session → Session
add_argument key val s = record s { args = put key val s.args }

-- the path that replyLocalFile() puts together
abbrev pub local_path : Session → Text
local_path s =
    let path = cat_path s.root s.href in
    if is_slash (back s.href) then path ++ bytes "index.html" else path

module _ (beast : Beast) where
  -- SendLambda::operator()
  unfoldable pub send_message : Response → Wire → Wire
  send_message msg w = record {
    close = beast.need_eof msg;
    ec = next_outcome w.outcomes;
    written = w.written ++ msg ∷ [];
    outcomes = later_outcomes w.outcomes;
  }

  -- reply(rep)
  unfoldable pub reply : Response → Session → Session
  reply rep s = if s.replied then s else record s {
    replied = true;
    rep_status_code = rep.result;
    rep_content_len = to_int (beast.payload_size rep);
    send = send_message rep s.send;
  }

  -- what replyText puts together
  unfoldable pub text_response : ContextType → Text → ℕ → Request → Response
  text_response type body status req = beast.prepare_payload (record {
    result = status;
    version = req.version;
    fields = put (bytes "Content-Type") (context_types type ++ bytes "; charset=utf-8") [];
    content_length = none;
    keep_alive = req.keep_alive;
    body = string_body body;
  })

  -- replyText<type>(text, status)
  unfoldable pub reply_text : ContextType → Text → ℕ → Session → Session
  reply_text type body status s = reply (text_response type body status s.req) s

  unfoldable pub reply_bad_request : Text → Session → Session
  reply_bad_request why s = reply_text default why 400 s

  unfoldable pub reply_not_found : Text → Session → Session
  reply_not_found what s =
      let res = if is_empty what then s.req.target else what in
      reply_text default (bytes "The resource '" ++ (res ++ bytes "' was not found.")) 404 s

  unfoldable pub reply_unauthorized : Session → Session
  reply_unauthorized s = reply_text default (bytes "Unauthorized request.") 401 s

  unfoldable pub reply_server_error : Text → Session → Session
  reply_server_error what s =
      reply_text default (bytes "An error occurred: '" ++ (what ++ bytes "'.")) 500 s

  -- the headers of the file's response
  unfoldable pub file_fields : Text → Text → Assoc Text Text
  file_fields path name =
      let mtype = minetype path in
      let typed : Assoc Text Text =
        put (bytes "Content-Type") mtype (put (bytes "Server") http_server_version []) in
      if is_empty mtype
      then elim (rfind b'/' path) [
        | none ↦ typed
        | some pos ↦
            put (bytes "Content-Disposition")
              (bytes "attachment;filename="
                ++ (if is_empty name then drop (pos + 1) path else name))
              typed
      ]
      else typed

  -- replyLocalFile(path, name); verb::head is 3
  unfoldable pub reply_file : Text → Text → Session → Session
  reply_file path name s = elim (beast.open_file path) [
    | no_such_file ↦ reply_not_found [] s
    | open_failed message ↦ reply_server_error message s
    | opened size ↦
        if s.req.method == 3
        then reply
            (record {
              result = 200;
              version = s.req.version;
              fields =
                  put (bytes "Content-Type") (minetype path)
                    (put (bytes "Server") http_server_version []);
              content_length = some size;
              keep_alive = s.req.keep_alive;
              body = empty_body;
            })
            s
        else reply
            (record {
              result = 200;
              version = s.req.version;
              fields = file_fields path name;
              content_length = some size;
              keep_alive = s.req.keep_alive;
              body = file_body path size;
            })
            s
  ]

  -- replyLocalFile()
  unfoldable pub reply_local_file : Session → Session
  reply_local_file s = reply_file (local_path s) [] s
