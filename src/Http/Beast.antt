-- ===== src/Http/Beast.antt =====
-- The messages of boost::beast::http as far as Depends/Asula/Include/Asula/HttpServer.hpp reads and
-- writes them, and the calls of Beast and of the file system that it makes, as an interface.
use socker.Prelude.{ℕ, ◌≡◌, Bool, Option}
use socker.Text.{Text}
use socker.Assoc.{Assoc}

-- request<string_body>; a verb is the number of its enumerator, and verb::unknown is 0
pub record Request : Type 0 where
  pub method : ℕ
  pub method_string : Text
  pub target : Text
  pub version : ℕ
  pub keep_alive : Bool
  pub body : Text

pub data Body : Type 0 where
  string_body : Text → Body
  empty_body : Body
  file_body : (path : Text) → (size : ℕ) → Body

-- response<Body>; `fields` are the headers that were set by name
pub record Response : Type 0 where
  pub result : ℕ
  pub version : ℕ
  pub fields : Assoc Text Text
  pub content_length : Option ℕ
  pub keep_alive : Bool
  pub body : Body

-- file_body::value_type::open
pub data FileOpen : Type 0 where
  no_such_file : FileOpen
  open_failed : (message : Text) → FileOpen
  opened : (size : ℕ) → FileOpen

pub record Beast : Type 0 where
  -- message::need_eof
  pub need_eof : Response → Bool
  -- message::payload_size
  pub payload_size : Response → ℕ
  -- message::prepare_payload, which only sets headers that say how long the body is
  pub prepare_payload : Response → Response
  pub prepare_payload-result : (r : Response) → (prepare_payload r).result ≡ r.result
  pub prepare_payload-body : (r : Response) → (prepare_payload r).body ≡ r.body
  -- opening a file by its path
  pub open_file : Text → FileOpen
  -- websocket::is_upgrade
  pub is_upgrade : Request → Bool
  -- to_string(verb)
  pub verb_name : ℕ → Text
