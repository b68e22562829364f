-- ===== src/Tcp.antt =====
-- Depends/Asula/Include/Asula/TcpClientSync.hpp. A socket of Boost.Asio is an interface: its type,
-- what the code reads of it, and the documented effect of each call. The error code with which a
-- call ends is an argument of the call, none for success.
pub mod Laws
use socker.Prelude.{ℕ, ◌≡◌, Bool, true, false, Option, none, some, if◌then◌else◌}
use socker.Text.{Text}

pub record Endpoint : Type 0 where
  pub address : Text
  pub port : ℕ

pub record Asio (Socket : Type 0) : Type 0 where
  pub is_open : Socket → Bool
  -- the other end of a connection, none without one
  pub peer : Socket → Option Endpoint
  -- address::from_string throws for a text that is no address
  pub is_address : Text → Bool
  pub open_v4 : Socket → Socket
  pub bind : Endpoint → Option Text → Socket → Socket
  pub connect : Endpoint → Option Text → Socket → Socket
  pub shutdown : Socket → Socket
  pub close : Socket → Socket
  pub is_open-open : (s : Socket) → is_open (open_v4 s) ≡ true
  pub peer-open : (s : Socket) → peer (open_v4 s) ≡ none
  pub is_open-bind :
      (e : Endpoint) (ec : Option Text) (s : Socket) → is_open (bind e ec s) ≡ is_open s
  pub peer-bind : (e : Endpoint) (ec : Option Text) (s : Socket) → peer (bind e ec s) ≡ peer s
  -- connect opens a closed socket, which stays open when the connection fails
  pub is_open-connect :
      (e : Endpoint) (ec : Option Text) (s : Socket) → is_open (connect e ec s) ≡ true
  pub peer-connect : (e : Endpoint) (s : Socket) → peer (connect e none s) ≡ some e
  pub peer-connect_failed :
      (e : Endpoint) (t : Text) (s : Socket) → peer (connect e (some t) s) ≡ none
  pub is_open-shutdown : (s : Socket) → is_open (shutdown s) ≡ is_open s
  pub is_open-close : (s : Socket) → is_open (close s) ≡ false

-- err_: the empty string, or which of the messages stands there
pub data Message : Type 0 where
  no_error already_connected no_connection : Message
  bind_failed connect_failed send_failed read_failed : Text → Message

pub record TcpClientSync (Socket : Type 0) : Type 0 where
  pub socket : Socket
  pub err : Message

-- a call returns, or address::from_string threw
pub data Result (A : Type 0) : Type 0 where
  returned : A → Result A
  thrown : Result A

module _ {Socket : Type 0} (asio : Asio Socket) where
  abbrev pub Client : Type 0
  Client = TcpClientSync Socket

  -- TcpClientSync(io), with the closed socket that socket_(*io_) makes
  abbrev pub new_client : Socket → Client
  new_client socket = record { socket = socket; err = no_error }

  -- error()
  abbrev pub error : Client → Message
  error c = c.err

  unfoldable pub is_connected : Client → Bool
  is_connected c = asio.is_open c.socket

  unfoldable pub disconnect : Client → Client
  disconnect c =
      if asio.is_open c.socket
      then record { socket = asio.close (asio.shutdown c.socket); err = no_error }
      else record { socket = c.socket; err = no_error }

  -- ~TcpClientSync(): the socket when it is destroyed
  unfoldable pub destroy : Client → Socket
  unfolding disconnect
  destroy c = (disconnect c).socket

  -- the socket that bind works on: one that is open is closed first
  abbrev reopened : Socket → Socket
  reopened s = asio.open_v4 (if asio.is_open s then asio.close (asio.shutdown s) else s)

  -- bind(ip, port), where socket_.bind ends with `ec`
  unfoldable pub bind : Text → ℕ → (ec : Option Text) → Client → Client × Result Bool
  unfolding is_connected
  bind ip port ec c =
      let opened = reopened c.socket in
      let bound = asio.bind (record { address = ip; port = port }) ec opened in
      if is_connected c
      then (record { socket = c.socket; err = already_connected }, returned false)
      else if asio.is_address ip
      then elim ec [
        | none ↦ (record { socket = bound; err = no_error }, returned true)
        | some t ↦ (record { socket = bound; err = bind_failed t }, returned false)
      ]
      else (record { socket = opened; err = no_error }, thrown)

  -- connectTo(ip, port), where socket_.connect ends with `ec`
  unfoldable pub connect_to : Text → ℕ → (ec : Option Text) → Client → Client × Result Bool
  unfolding is_connected
  connect_to ip port ec c =
      let connected = asio.connect (record { address = ip; port = port }) ec c.socket in
      if is_connected c
      then (record { socket = c.socket; err = no_error }, returned true)
      else if asio.is_address ip
      then elim ec [
        | none ↦ (record { socket = connected; err = no_error }, returned true)
        | some t ↦ (record { socket = connected; err = connect_failed ip }, returned false)
      ]
      else (record { socket = c.socket; err = no_error }, thrown)

  -- What send and the two receives do with the end of their transfer of `len` bytes: on an error the
  -- message is set, and then disconnect is called.
  abbrev transfer : (Text → Message) → (len : ℕ) → (ec : Option Text) → Client → Client × ℕ
  transfer failed len ec c =
      if is_connected c
      then elim ec [
        | none ↦ (record { socket = c.socket; err = no_error }, len)
        | some t ↦ (disconnect (record { socket = c.socket; err = failed t }), 0)
      ]
      else (record { socket = c.socket; err = no_connection }, 0)

  -- send(buf), where boost::asio::write ends with `ec` after `len` bytes
  unfoldable pub send : (len : ℕ) → (ec : Option Text) → Client → Client × ℕ
  unfolding is_connected disconnect
  send = transfer send_failed

  -- receive(buf, size), where boost::asio::read ends with `ec` after `len` bytes
  unfoldable pub receive_exactly : (len : ℕ) → (ec : Option Text) → Client → Client × ℕ
  unfolding is_connected disconnect
  receive_exactly = transfer read_failed

  -- receive(buf), where read_some ends with `ec` after `len` bytes
  unfoldable pub receive_some : (len : ℕ) → (ec : Option Text) → Client → Client × ℕ
  unfolding is_connected disconnect
  receive_some = transfer read_failed
