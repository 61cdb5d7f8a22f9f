-- ===== src/Adapter/Wifi/Peer.antt =====
-- WifiAdapter::ConnectToPeer and ListenForPeer: how the adapter becomes connected.
use sensor_lib.Prelude.{ℕ, Bool, true, false, ℤ, pos, minus_one, is_pos, if◌then◌else◌}
use sensor_lib.Os.{
  Os, succeeds, fails, T, done, close, ◌>>=◌, ◌>>◌, try_connect, try_bind, try_listen, try_accept,
}
use sensor_lib.Adapter.Attempt.{
  Attempt, leave, max_retries, remaining_time, wait_for_socket, after_connect, retry_loop,
  connected_of,
}
use sensor_lib.Adapter.Wifi.State.{WifiAdapter, configure_for_connection}

module _ (os : Os) (conn_timeout start : ℕ) (fd : ℤ) where
  unfoldable pub peer_connect : ℕ → T Attempt
  unfolding remaining_time configure_for_connection after_connect
  peer_connect retry_count = do
    remaining ← remaining_time os conn_timeout start
    if is_pos remaining
        then (do
          configure_for_connection fd remaining
          outcome ← try_connect os fd
          after_connect os conn_timeout start false retry_count outcome)
        else done (leave false)

  -- One pass of ConnectToPeer's loop; a socket that is not ready ends it.
  unfoldable pub peer_pass : ℕ → T Attempt
  unfolding remaining_time configure_for_connection wait_for_socket peer_connect
  peer_pass retry_count = do
    remaining ← remaining_time os conn_timeout start
    if is_pos remaining
        then (do
          configure_for_connection fd remaining
          ready ← wait_for_socket os fd remaining
          if ready then peer_connect retry_count else done (leave false))
        else done (leave false)

  unfoldable pub peer_loop : T Bool
  unfolding peer_pass retry_loop
  peer_loop t = let (r, t') = retry_loop peer_pass max_retries t in (connected_of r, t')

module _ (os : Os) where
  -- ConnectToPeer
  unfoldable pub connect_to_peer : ℕ → WifiAdapter → T WifiAdapter
  connect_to_peer start a = do
    connected ← peer_loop os a.conn_timeout start a.sockfd
    done (if connected then record a { connected = true } else a)

  -- accept(): a failed one is closed too, by its negative descriptor.
  accept_peer : WifiAdapter → T WifiAdapter
  accept_peer a = do
    outcome ← try_accept os a.sockfd_listen
    elim outcome [
      | succeeds fd ↦ done (record a { sockfd = pos fd; connected = true })
      | fails e ↦ (do close minus_one; done a)
    ]

  listen_peer : WifiAdapter → T WifiAdapter
  unfolding accept_peer
  listen_peer a = do
    outcome ← try_listen os a.sockfd_listen
    elim outcome [ succeeds n ↦ accept_peer a | fails e ↦ done a ]

  -- ListenForPeer
  unfoldable pub listen_for_peer : ℕ → WifiAdapter → T WifiAdapter
  unfolding remaining_time configure_for_connection listen_peer
  listen_for_peer start a = do
    remaining ← remaining_time os a.conn_timeout start
    if is_pos remaining
        then (do
          configure_for_connection a.sockfd_listen remaining
          outcome ← try_bind os a.sockfd_listen
          elim outcome [ succeeds n ↦ listen_peer a | fails e ↦ done a ])
        else done a
