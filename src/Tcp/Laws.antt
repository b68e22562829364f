-- ===== src/Tcp/Laws.antt =====
-- When a client reports success, when it is connected, and what becomes of an error message.
use socker.Prelude.{
  ℕ, ◌≡◌, refl, ◌∙◌, ◌≢◌, ◌↔◌, ◌⊎◌, inl, inr, true, false, Option, none, some, arith, if◌then◌else◌,
  nat_eq, Bool-cases,
}
use socker.Text.{Text}
use socker.Tcp.{
  Asio, no_error, connect_failed, returned, Client, is_connected, bind, connect_to, send,
  receive_exactly, receive_some, destroy, disconnect,
}

module _ {Socket : Type 0} (asio : Asio Socket) where
  -- The message is there exactly when a call has returned false.
  pub connect_to-err :
      (ip : Text) (port : ℕ) (ec : Option Text) (c : Client asio)
      → ((connect_to asio ip port ec c).1 ≡ returned false)
        ↔ ((connect_to asio ip port ec c).0.err ≢ no_error)
  unfolding connect_to
  connect_to-err ip port ec c = ground arith

  -- A closed client that connects to an address without an error returns true and is connected to
  -- it, and one whose connection fails returns false and has no peer.
  pub connect_to-peer :
      (ip : Text) (port : ℕ) (ec : Option Text) (c : Client asio)
      → is_connected asio c ≡ false
      → asio.is_address ip ≡ true
      → ((ec ≡ none)
          × ((connect_to asio ip port ec c).1 ≡ returned true)
          × (asio.peer (connect_to asio ip port ec c).0.socket
              ≡ some (record { address = ip; port = port })))
        ⊎ ((t : Text) × (ec ≡ some t)
            × ((connect_to asio ip port ec c).1 ≡ returned false)
            × (asio.peer (connect_to asio ip port ec c).0.socket ≡ none))
  unfolding connect_to
  connect_to-peer ip port none c shut addr =
      inl (refl, rw (shut, addr) refl, rw (shut, addr) (asio.peer-connect _ _))
  connect_to-peer ip port (some t) c shut addr =
      inr (t, refl, rw (shut, addr) refl, rw (shut, addr) (asio.peer-connect_failed _ _ _))

  connect_to-open :
      (ip : Text) (port : ℕ) (ec : Option Text) (c : Client asio)
      → asio.is_open c.socket ≡ true
      → connect_to asio ip port ec c ≡ (record { socket = c.socket; err = no_error }, returned true)
  unfolding connect_to
  connect_to-open ip port ec c op = rw op

  -- the socket that bind leaves behind when it succeeds
  abbrev bound : Text → ℕ → Client asio → Socket
  bound ip port c =
      asio.bind (record { address = ip; port = port }) none
        (asio.open_v4
          (if asio.is_open c.socket then asio.close (asio.shutdown c.socket) else c.socket))

  bind-ok :
      (ip : Text) (port : ℕ) (c : Client asio)
      → is_connected asio c ≡ false
      → asio.is_address ip ≡ true
      → (bind asio ip port none c).0 ≡ record { socket = bound ip port c; err = no_error }
  unfolding bind
  bind-ok ip port c shut addr = ground arith

  connect_to-failed :
      (ip : Text) (port : ℕ) (t : Text) (c : Client asio)
      → is_connected asio c ≡ false
      → asio.is_address ip ≡ true
      → connect_to asio ip port (some t) c ≡ (
        record {
          socket = asio.connect (record { address = ip; port = port }) (some t) c.socket;
          err = connect_failed ip;
        },
        returned false,
      )
  unfolding connect_to
  connect_to-failed ip port t c shut addr = ground arith

  -- after bind succeeded
  connect_to-bind :
      (local remote : Text) (port port' : ℕ) (ec : Option Text) (c : Client asio)
      → is_connected asio c ≡ false
      → asio.is_address local ≡ true
      → ((connect_to asio remote port' ec (bind asio local port none c).0).1 ≡ returned true)
        × (asio.peer (connect_to asio remote port' ec (bind asio local port none c).0).0.socket
            ≡ none)
  connect_to-bind local remote port port' ec c shut addr =
      let b = bound local port c in
      rw (bind-ok local port c shut addr) (
        rw
          (connect_to-open remote port' ec (record { socket = b; err = no_error })
            (asio.is_open-bind _ none _ ∙ asio.is_open-open _))
          (refl, asio.peer-bind _ none _ ∙ asio.peer-open _))

  -- after connectTo failed
  connect_to-connect_to :
      (ip ip' : Text) (port port' : ℕ) (t : Text) (ec : Option Text) (c : Client asio)
      → is_connected asio c ≡ false
      → asio.is_address ip ≡ true
      → ((connect_to asio ip port (some t) c).1 ≡ returned false)
        × ((connect_to asio ip' port' ec (connect_to asio ip port (some t) c).0).1 ≡ returned true)
        × (asio.peer (connect_to asio ip' port' ec (connect_to asio ip port (some t) c).0).0.socket
            ≡ none)
  connect_to-connect_to ip ip' port port' t ec c shut addr =
      rw (connect_to-failed ip port t c shut addr) (
        rw
          (connect_to-open ip' port' ec
            (record {
              socket = asio.connect (record { address = ip; port = port }) (some t) c.socket;
              err = connect_failed ip;
            })
            (asio.is_open-connect _ (some t) c.socket))
          (refl, refl, asio.peer-connect_failed _ t c.socket))

  -- connectTo takes any open socket for a connection. After a closed client bound a local address
  -- without an error, and after its connection to an address failed, where connectTo returned false,
  -- the next connectTo, to any other address, returns true, and there is no connection.
  pub connect_to-unconnected :
      (ip remote : Text) (port port' : ℕ) (t : Text) (ec : Option Text) (c : Client asio)
      → is_connected asio c ≡ false
      → asio.is_address ip ≡ true
      → ((connect_to asio remote port' ec (bind asio ip port none c).0).1 ≡ returned true)
        × (asio.peer (connect_to asio remote port' ec (bind asio ip port none c).0).0.socket ≡ none)
        × ((connect_to asio ip port (some t) c).1 ≡ returned false)
        × ((connect_to asio remote port' ec (connect_to asio ip port (some t) c).0).1
            ≡ returned true)
        × (asio.peer
              (connect_to asio remote port' ec (connect_to asio ip port (some t) c).0).0.socket
            ≡ none)
  connect_to-unconnected ip remote port port' t ec c shut addr =
      let (bound_true, bound_none) = connect_to-bind ip remote port port' ec c shut addr in
      let (fails, again, failed_none) =
        connect_to-connect_to ip remote port port' t ec c shut addr in
      (bound_true, bound_none, fails, again, failed_none)

  -- On an open socket a transfer that fails closes it and returns 0, and the message that it sets is gone
  -- when it returns: so it is for send and for both receives.
  pub transfers-failed :
      (len : ℕ) (t : Text) (c : Client asio)
      → is_connected asio c ≡ true
      → ((send asio len (some t) c).1 ≡ 0)
        × ((send asio len (some t) c).0.err ≡ no_error)
        × (is_connected asio (send asio len (some t) c).0 ≡ false)
        × (receive_exactly asio len (some t) c ≡ send asio len (some t) c)
        × (receive_some asio len (some t) c ≡ send asio len (some t) c)
  unfolding send receive_exactly receive_some
  transfers-failed len t c op = rw op (refl, refl, asio.is_open-close _, refl, refl)

  -- the socket is closed when a client is destroyed
  pub is_open-destroy : (c : Client asio) → asio.is_open (destroy asio c) ≡ false
  unfolding destroy disconnect
  is_open-destroy c = elim (Bool-cases (asio.is_open c.socket)) [
    | inl op ↦ rw (op, destroy) (asio.is_open-close _)
    | inr shut ↦ rw (shut, destroy) shut
  ]
