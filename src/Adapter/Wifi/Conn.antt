-- ===== src/Adapter/Wifi/Conn.antt =====
-- WifiAdapter's constructor and conn(). Registry calls are steps of the registry's monad.
use sensor_lib.Prelude.{Option, none, some, ℕ, Bool, false, ℤ, pos, minus_one, if◌then◌else◌}
use sensor_lib.Types.{WifiDeviceType, wifi_unknown, wifi_adapter, wifi_router}
use sensor_lib.Os.{Os, Trace, clock, T}
use sensor_lib.Registry.State.{M, pure, ◌>>=◌, ◌>>◌}
use sensor_lib.Registry.Config.{connect, get_remote_port}
use sensor_lib.Registry.Port.{add_local_port, get_local_port}
use sensor_lib.Adapter.Wifi.State.{
  WifiAdapter, Network, setup_local_addr, setup_remote_addr, configure_for_comms, create_socket,
  create_request_socket, create_listening_socket,
}
use sensor_lib.Adapter.Wifi.Request.{send_connection_request}
use sensor_lib.Adapter.Wifi.Peer.{connect_to_peer, listen_for_peer}

-- The adapter, the trace, and what conn() returns.
pub record ConnResult : Type 0 where
  pub value : ℤ
  pub adapter : WifiAdapter
  pub trace : Trace

-- A null pointer that is read
unfoldable pub or_fault : {A : Type 0} → Option A → M A
or_fault none r = none
or_fault (some a) r = some (a, r)

module _ (os : Os) (net : Network) (bsock : ℕ) where
  -- The end of conn(): a connected adapter is recorded in the registry.
  unfoldable pub finish : WifiAdapter × Trace → M ConnResult
  unfolding connect configure_for_comms
  finish (a, t) =
      if a.connected
      then (do
        connect bsock
        pure (record { value = pos 0; adapter = a; trace = (configure_for_comms os a t).1 }))
      else pure (record { value = minus_one; adapter = a; trace = t })

  -- WIFI_ROUTER: listen
  unfoldable pub serve : ℕ → WifiAdapter → Trace → M ConnResult
  unfolding get_remote_port get_local_port setup_local_addr setup_remote_addr listen_for_peer finish
      or_fault
  serve start a t = do
    port ← get_remote_port a.peer_mac
    local ← get_local_port a.peer_mac
    b ←
        or_fault
          (setup_remote_addr net (setup_local_addr local (record a { remote_port = port })) t)
    finish (listen_for_peer os start b t)

  unfoldable pub after_request : ℕ → (WifiAdapter × Bool) × Trace → M ConnResult
  unfolding setup_remote_addr connect_to_peer finish or_fault
  after_request start ((a, granted), t) =
      if granted
      then (do b ← or_fault (setup_remote_addr net a t); finish (connect_to_peer os start b t))
      else pure (record { value = minus_one; adapter = a; trace = t })

  -- WIFI_ADAPTER: ask the access point for a port, then connect to it
  unfoldable pub join : ℕ → WifiAdapter → Trace → M ConnResult
  unfolding add_local_port get_local_port setup_local_addr send_connection_request after_request
      or_fault
  join start a t = do
    add_local_port a.peer_mac
    local ← get_local_port a.peer_mac
    answer ← or_fault (send_connection_request os net start (setup_local_addr local a) t)
    after_request start answer

  unfoldable pub conn_as : WifiDeviceType → ℕ → WifiAdapter → Trace → M ConnResult
  unfolding serve join finish
  conn_as wifi_router start a t = serve start a t
  conn_as wifi_adapter start a t = join start a t
  conn_as wifi_unknown start a t = finish (a, t)

  -- conn
  unfoldable pub conn : WifiAdapter → Trace → M ConnResult
  unfolding conn_as
  conn a t =
      let (start, t') = clock os t in
      conn_as a.device_type start (record a { connected = false }) t'

-- The sockets that the constructor makes, in its order.
unfoldable pub construct : Os → WifiAdapter → T WifiAdapter
unfolding create_socket create_request_socket create_listening_socket
construct os a t =
    let ((b, made), t1) = create_request_socket os a t in
    let ((c, made'), t2) = create_listening_socket os b t1 in create_socket os c t2
