-- ===== src/Adapter/Bluetooth/Peer.antt =====
-- BluetoothAdapter::ConnectToPeer and ListenForPeer.
use sensor_lib.Prelude.{ℕ, true, false, pos, minus_one, is_pos, if◌then◌else◌}
use sensor_lib.Os.{
  Os, succeeds, fails, T, done, close, ◌>>=◌, ◌>>◌, try_connect, try_bind, try_listen, try_accept,
}
use sensor_lib.Adapter.Attempt.{
  Attempt, leave, max_retries, remaining_time, wait_for_socket, after_connect, retry_loop,
  connected_of,
}
use sensor_lib.Adapter.Bluetooth.State.{BluetoothAdapter, configure_for_connection}

module _ (os : Os) (start : ℕ) (a : BluetoothAdapter) where
  unfoldable pub peer_connect : ℕ → T Attempt
  unfolding remaining_time configure_for_connection after_connect
  peer_connect retry_count = do
    remaining ← remaining_time os a.conn_timeout start
    if is_pos remaining
        then (do
          configure_for_connection a a.sockfd remaining
          outcome ← try_connect os a.sockfd
          after_connect os a.conn_timeout start false retry_count outcome)
        else done (leave false)

  -- One pass of ConnectToPeer's loop; a socket that is not ready ends it.
  unfoldable pub peer_pass : ℕ → T Attempt
  unfolding remaining_time configure_for_connection wait_for_socket peer_connect
  peer_pass retry_count = do
    remaining ← remaining_time os a.conn_timeout start
    if is_pos remaining
        then (do
          configure_for_connection a a.sockfd remaining
          ready ← wait_for_socket os a.sockfd remaining
          if ready then peer_connect retry_count else done (leave false))
        else done (leave false)

  -- ConnectToPeer
  unfoldable pub connect_to_peer : T BluetoothAdapter
  unfolding peer_pass retry_loop
  connect_to_peer t =
      let (r, t') = retry_loop peer_pass max_retries t in
      (if connected_of r then record a { connected = true } else a, t')

  -- accept(): a failed one is closed too, by its negative descriptor.
  accept_peer : T BluetoothAdapter
  accept_peer = do
    outcome ← try_accept os a.sockfd_listen
    elim outcome [
      | succeeds fd ↦ done (record a { sockfd = pos fd; connected = true })
      | fails e ↦ (do close minus_one; done a)
    ]

  listen_peer : T BluetoothAdapter
  unfolding accept_peer
  listen_peer = do
    outcome ← try_listen os a.sockfd_listen
    elim outcome [ succeeds n ↦ accept_peer | fails e ↦ done a ]

  -- ListenForPeer
  unfoldable pub listen_for_peer : T BluetoothAdapter
  unfolding remaining_time configure_for_connection listen_peer
  listen_for_peer = do
    remaining ← remaining_time os a.conn_timeout start
    if is_pos remaining
        then (do
          configure_for_connection a a.sockfd_listen remaining
          outcome ← try_bind os a.sockfd_listen
          elim outcome [ succeeds n ↦ listen_peer | fails e ↦ done a ])
        else done a
