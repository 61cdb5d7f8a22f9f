-- ===== src/Adapter/Wifi/State.antt =====
-- The fields of WifiAdapter, and its methods on sockets and addresses.
use sensor_lib.Prelude.{
  ℕ, zero, suc, ◌+◌, ◌-◌, ◌*◌, ◌/◌, ◌%◌, Bool, false, not, Option, none, some, [], ◌∷◌, Text, ℤ,
  pos, negsuc, minus_one, is_neg, if◌then◌else◌, ◌==◌,
}
use sensor_lib.Types.{WifiDeviceType, wifi_unknown, wifi_adapter, wifi_router}
use sensor_lib.Os.{Os, T, Trace, done, emit, close, configured, unblocked, ◌>>=◌, ◌>>◌, make_socket}

is_minus_one : ℤ → Bool
is_minus_one (pos n) = false
is_minus_one (negsuc n) = n == 0

pub record WifiAdapter : Type 0 where
  pub peer_mac : Text
  pub device_type : WifiDeviceType
  pub mac_address : Text
  pub ssid : Text
  pub remote_port : ℤ
  pub gateway : Option Text
  pub sockfd : ℤ
  pub sockfd_request : ℤ
  pub sockfd_listen : ℤ
  pub connected : Bool
  pub local_sin_port : ℕ
  pub remote_sin_port : ℕ
  pub conn_timeout : ℕ
  pub recv_timeout : ℕ

-- What the adapter asks of NetworkManager and of the C library's address parser. `has_client` says
-- whether nm_client_new succeeds; GetNMDevice reads through a null pointer if it does not. `local_ip`
-- is what GetLocalIP then returns.
pub record Network : Type 0 where
  pub has_client : Trace → Bool
  pub local_ip : Trace → Option Text
  pub has_active_connection : Trace → Bool
  pub has_ip4_config : Trace → Bool
  pub gateway : Trace → Option Text
  pub parses : Text → Bool

-- htons and ntohs on a little-endian host
unfoldable pub swap16 : ℕ → ℕ
swap16 x = x % 256 * 256 + x / 256 % 256

-- An int as the uint16_t that htons takes.
unfoldable pub to_u16 : ℤ → ℕ
to_u16 (pos n) = n % 65536
to_u16 (negsuc n) = 65535 - n % 65536

-- `char buffer[n]` that holds a string, as the n bytes that are sent
unfoldable pub pad : ℕ → Text → Text
pad zero s = []
pad (suc n) [] = 0 ∷ pad n []
pad (suc n) (c ∷ s) = c ∷ pad n s

module _ (os : Os) where
  -- CreateSocket
  unfoldable pub create_socket : WifiAdapter → T WifiAdapter
  create_socket a = do fd ← make_socket os; done (record a { sockfd = fd })

  -- CloseSocket
  unfoldable pub close_socket : WifiAdapter → T WifiAdapter
  close_socket a =
      if is_neg a.sockfd
      then done a
      else (do close a.sockfd; done (record a { sockfd = minus_one }))

  -- CreateConnectionRequestSocket
  unfoldable pub create_request_socket : WifiAdapter → T (WifiAdapter × Bool)
  create_request_socket a = do
    fd ← make_socket os
    done (record a { sockfd_request = fd }, not (is_neg fd))

  -- CreateListeningSocket
  unfoldable pub create_listening_socket : WifiAdapter → T (WifiAdapter × Bool)
  create_listening_socket a = do
    fd ← make_socket os
    done (record a { sockfd_listen = fd }, not (is_neg fd))

  -- disconn
  unfoldable pub disconn : WifiAdapter → T (WifiAdapter × ℤ)
  unfolding close_socket create_socket is_minus_one
  disconn a = do
    b ← close_socket (record a { connected = false })
    c ← create_socket b
    done (c, if is_minus_one c.sockfd then minus_one else pos 0)

  -- ~WifiAdapter
  unfoldable pub destroy : WifiAdapter → T WifiAdapter
  unfolding close_socket
  destroy a = do close a.sockfd_request; close a.sockfd_listen; close_socket a

  -- ConfigureSocketForComms
  unfoldable pub configure_for_comms : WifiAdapter → T (Unit {0})
  configure_for_comms a = do
    emit (unblocked a.sockfd)
    emit (configured a.sockfd (pos a.recv_timeout))

  -- setConnTimeout
  unfoldable pub set_conn_timeout : ℕ → WifiAdapter → T (WifiAdapter × ℤ)
  set_conn_timeout ms a = done (record a { conn_timeout = ms }, pos 0)

  -- setRecvTimeout
  unfoldable pub set_recv_timeout : ℕ → WifiAdapter → T (WifiAdapter × ℤ)
  unfolding configure_for_comms
  set_recv_timeout ms a =
      let b = record a { recv_timeout = ms } in
      if a.connected then (do configure_for_comms b; done (b, pos 0)) else done (b, pos 0)

-- ConfigureSocketForConnection: blocking mode, then the timeouts
unfoldable pub configure_for_connection : ℤ → ℤ → T (Unit {0})
configure_for_connection fd timeout = do emit (unblocked fd); emit (configured fd timeout)

-- SetupLocalAddr, given what GetLocalPort answers
unfoldable pub setup_local_addr : ℤ → WifiAdapter → WifiAdapter
unfolding to_u16 swap16
setup_local_addr local_port a = record a { local_sin_port = swap16 (to_u16 local_port) }

-- The port that SetupRemoteAddr sets
unfoldable pub with_remote_port : WifiAdapter → WifiAdapter
unfolding to_u16 swap16
with_remote_port a = record a { remote_sin_port = swap16 (to_u16 a.remote_port) }

-- `*p`, of a string that is only parsed
unfoldable pub deref : {A : Type 0} → Option Text → A → Option A
deref none x = none
deref (some s) x = some x

-- The same of a pointer whose computation may fault
unfoldable pub deref_found : {A : Type 0} → Option (Option Text) → A → Option A
unfolding deref
deref_found none x = none
deref_found (some p) x = deref p x

module _ (net : Network) where
  -- The call of GetLocalIP; `none` is the null client that GetNMDevice reads
  unfoldable pub asked_local_ip : Trace → Option (Option Text)
  asked_local_ip t = if net.has_client t then some (net.local_ip t) else none

  -- The switch of SetupRemoteAddr: inet_pton reads the gateway, and inet_addr the local address. A
  -- null pointer is a fault, `none`; the address that they read is not kept.
  unfoldable pub remote_addr : WifiDeviceType → WifiAdapter → Trace → Option WifiAdapter
  unfolding deref deref_found with_remote_port asked_local_ip
  remote_addr wifi_adapter a t = deref a.gateway (with_remote_port a)
  remote_addr wifi_router a t = deref_found (asked_local_ip t) (with_remote_port a)
  remote_addr wifi_unknown a t = some (with_remote_port a)

  -- SetupRemoteAddr
  unfoldable pub setup_remote_addr : WifiAdapter → Trace → Option WifiAdapter
  unfolding remote_addr
  setup_remote_addr a t = remote_addr a.device_type a t

  -- GetAccessPointIP, with SetGateway, where there is a client
  unfoldable pub access_point_ip : WifiAdapter → Trace → WifiAdapter × ℤ
  access_point_ip a t =
      if not (net.has_active_connection t)
      then (a, minus_one)
      else if not (net.has_ip4_config t)
      then (a, minus_one)
      else elim (net.gateway t) [
        | none ↦ (a, minus_one)
        | some g ↦ (record a { gateway = some g }, pos 0)
      ]

  -- GetAccessPointIP; `none` is the null client that GetNMDevice reads
  unfoldable pub get_access_point_ip : WifiAdapter → Trace → Option (WifiAdapter × ℤ)
  unfolding access_point_ip
  get_access_point_ip a t = if net.has_client t then some (access_point_ip a t) else none
