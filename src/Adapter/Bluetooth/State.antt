-- ===== src/Adapter/Bluetooth/State.antt =====
-- The fields of BluetoothAdapter, its sockets, and the addresses and ports that it derives from
-- the two MAC addresses.
use sensor_lib.Prelude.{
  ℕ, ◌+◌, ◌-◌, ◌*◌, ◌/◌, ◌%◌, Bool, true, false, not, Option, none, some, [], ◌∷◌, Text, ℤ, pos,
  negsuc, minus_one, is_neg, if◌then◌else◌, ◌==◌, ltb, bytes,
}
use sensor_lib.Os.{Os, T, Trace, done, emit, close, configured, unblocked, ◌>>=◌, ◌>>◌, make_socket}

pub record BluetoothAdapter : Type 0 where
  pub peer_mac : Text
  pub local_mac : Text
  pub local_psm : ℕ
  pub remote_psm : ℕ
  pub is_listener : Bool
  pub sockfd : ℤ
  pub sockfd_request : ℤ
  pub sockfd_listen : ℤ
  pub connected : Bool
  pub conn_timeout : ℕ
  pub recv_timeout : ℕ

-- What the adapter asks of BlueZ's library and of OpenSSL. `local_address` is `none` where the HCI
-- device cannot be opened or read.
pub record Library : Type 0 where
  pub local_address : Trace → Option Text
  pub sha256 : Text → Text

abbrev pub first_byte : Text → ℕ
first_byte [] = 0
first_byte (b ∷ s) = b

abbrev pub second_byte : Text → ℕ
second_byte [] = 0
second_byte (b ∷ s) = first_byte s

abbrev pub port_range_start : ℕ
port_range_start = 0x1002

abbrev pub port_range_end : ℕ
port_range_end = 0x1100

abbrev pub port_range_size : ℕ
port_range_size = (port_range_end - port_range_start) / 2 + 1

-- `strcmp(a, b) > 0`
unfoldable pub greater : Text → Text → Bool
greater [] t = false
greater (x ∷ s) [] = true
greater (x ∷ s) (y ∷ t) =
    let rest = greater s t in if ltb y x then true else if ltb x y then false else rest

module _ (lib : Library) where
  -- GenerateUniquePort
  unfoldable pub generate_unique_port : Text → ℕ
  generate_unique_port mac_address =
      let hash = lib.sha256 mac_address in
      let hash_value = (first_byte hash * 256 + second_byte hash) % 65536 in
      (port_range_start + hash_value % port_range_size * 2 + 1) % 65536

  or_any : Option Text → Text
  or_any none = bytes "00:00:00:00:00:00"
  or_any (some mac) = mac

  -- SetupLocalAddr
  unfoldable pub setup_local_addr : BluetoothAdapter → T BluetoothAdapter
  unfolding generate_unique_port or_any
  setup_local_addr a t = (
    record a {
      local_psm = generate_unique_port a.peer_mac;
      local_mac = or_any (lib.local_address t);
    },
    t,
  )

  -- SetupRemoteAddr
  unfoldable pub setup_remote_addr : BluetoothAdapter → BluetoothAdapter
  unfolding generate_unique_port
  setup_remote_addr a = record a { remote_psm = generate_unique_port a.local_mac }

is_minus_one : ℤ → Bool
is_minus_one (pos n) = false
is_minus_one (negsuc n) = n == 0

module _ (os : Os) where
  -- CreateSocket
  unfoldable pub create_socket : BluetoothAdapter → T BluetoothAdapter
  create_socket a = do fd ← make_socket os; done (record a { sockfd = fd })

  -- CloseSocket
  unfoldable pub close_socket : BluetoothAdapter → T BluetoothAdapter
  close_socket a =
      if is_neg a.sockfd
      then done a
      else (do close a.sockfd; done (record a { sockfd = minus_one }))

  -- CreateConnectionRequestSocket
  unfoldable pub create_request_socket : BluetoothAdapter → T (BluetoothAdapter × Bool)
  create_request_socket a = do
    fd ← make_socket os
    done (record a { sockfd_request = fd }, not (is_neg fd))

  -- CreateListeningSocket
  unfoldable pub create_listening_socket : BluetoothAdapter → T (BluetoothAdapter × Bool)
  create_listening_socket a = do
    fd ← make_socket os
    done (record a { sockfd_listen = fd }, not (is_neg fd))

  -- The constructor, for an adapter that holds the peer's MAC address.
  unfoldable pub construct : Library → BluetoothAdapter → T BluetoothAdapter
  unfolding create_socket create_request_socket create_listening_socket setup_local_addr
      setup_remote_addr greater
  construct lib a t =
      let (b, t1) = create_socket a t in
      let ((c, made), t2) = create_request_socket b t1 in
      let ((d, made'), t3) = create_listening_socket c t2 in
      let (e, t4) = setup_local_addr lib d t3 in
      let f = setup_remote_addr lib e in
      (record f { is_listener = greater f.peer_mac f.local_mac }, t4)

  -- ~BluetoothAdapter
  unfoldable pub destroy : BluetoothAdapter → T BluetoothAdapter
  unfolding close_socket
  destroy a = do close a.sockfd_request; close a.sockfd_listen; close_socket a

  -- disconn
  unfoldable pub disconn : BluetoothAdapter → T (BluetoothAdapter × ℤ)
  unfolding close_socket create_socket is_minus_one
  disconn a = do
    b ← close_socket (record a { connected = false })
    c ← create_socket b
    done (c, if is_minus_one c.sockfd then minus_one else pos 0)

-- ConfigureSocketForConnection. The blocking mode is set on `sockfd_`, whatever socket is meant.
unfoldable pub configure_for_connection : BluetoothAdapter → ℤ → ℤ → T (Unit {0})
configure_for_connection a fd timeout = do emit (unblocked a.sockfd); emit (configured fd timeout)

-- ConfigureSocketForComms
unfoldable pub configure_for_comms : BluetoothAdapter → T (Unit {0})
configure_for_comms a = do
  emit (unblocked a.sockfd)
  emit (configured a.sockfd (pos a.recv_timeout))

-- setConnTimeout
unfoldable pub set_conn_timeout : ℕ → BluetoothAdapter → T (BluetoothAdapter × ℤ)
set_conn_timeout ms a = done (record a { conn_timeout = ms }, pos 0)

-- setRecvTimeout
unfoldable pub set_recv_timeout : ℕ → BluetoothAdapter → T (BluetoothAdapter × ℤ)
unfolding configure_for_comms
set_recv_timeout ms a =
    let b = record a { recv_timeout = ms } in
    if a.connected then (do configure_for_comms b; done (b, pos 0)) else done (b, pos 0)
