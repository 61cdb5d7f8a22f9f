-- ===== src/Adapter/Wifi/Outcome.antt =====
-- When the Wi-Fi adapter's loops report a connection.
use sensor_lib.Prelude.{ℕ, ◌-◌, ◌≡◌, true, false, ◌∷◌, ℤ, sub_ℕ, arith}
use sensor_lib.Os.{Os, Trace, polled}
use sensor_lib.Adapter.Attempt.{leave, remaining_time, wait_for_socket, max_retries}
use sensor_lib.Adapter.LoopExit.{JustConnected, after_try-leave, retry_loop-leave}
use sensor_lib.Adapter.Wifi.State.{configure_for_connection}
use sensor_lib.Adapter.Wifi.Timing.{ready_trace}
use sensor_lib.Adapter.Wifi.Request.{request_connect, request_pass, request_loop}
use sensor_lib.Adapter.Wifi.Peer.{peer_connect, peer_pass, peer_loop}

module _ (os : Os) (conn_timeout start : ℕ) (fd : ℤ) where
  peer_connect-leave :
      (k : ℕ) (t : Trace)
      → (peer_connect os conn_timeout start fd k t).0 ≡ leave true
      → JustConnected os false fd (peer_connect os conn_timeout start fd k t).1
  unfolding peer_connect remaining_time configure_for_connection
  peer_connect-leave k t h = ground (
    arith,
    after_try-leave os conn_timeout start false k fd (ready_trace os conn_timeout start fd t),
  )

  peer_pass-leave :
      (k : ℕ) (t : Trace)
      → (peer_pass os conn_timeout start fd k t).0 ≡ leave true
      → JustConnected os false fd (peer_pass os conn_timeout start fd k t).1
  unfolding peer_pass remaining_time wait_for_socket configure_for_connection
  peer_pass-leave k t h = ground (
    arith,
    peer_connect-leave k (
        polled fd (sub_ℕ conn_timeout (os.clock_ms t - start))
        ∷ ready_trace os conn_timeout start fd t),
  )

  request_connect-leave :
      (k : ℕ) (t : Trace)
      → (request_connect os conn_timeout start fd k t).0 ≡ leave true
      → JustConnected os true fd (request_connect os conn_timeout start fd k t).1
  unfolding request_connect remaining_time configure_for_connection
  request_connect-leave k t h = ground (
    arith,
    after_try-leave os conn_timeout start true k fd (ready_trace os conn_timeout start fd t),
  )

  request_pass-leave :
      (k : ℕ) (t : Trace)
      → (request_pass os conn_timeout start fd k t).0 ≡ leave true
      → JustConnected os true fd (request_pass os conn_timeout start fd k t).1
  unfolding request_pass remaining_time wait_for_socket configure_for_connection
  request_pass-leave k t h = ground (
    arith,
    request_connect-leave k (
        polled fd (sub_ℕ conn_timeout (os.clock_ms t - start))
        ∷ ready_trace os conn_timeout start fd t),
  )

-- ConnectToPeer's loop reports a connection only right after a connect() on its socket that
-- succeeded; one that failed with EISCONN does not count.
pub peer_loop-JustConnected :
    (os : Os) (conn_timeout start : ℕ) (fd : ℤ) (t : Trace)
    → (peer_loop os conn_timeout start fd t).0 ≡ true
    → JustConnected os false fd (peer_loop os conn_timeout start fd t).1
unfolding peer_loop
peer_loop-JustConnected os conn_timeout start fd t h =
    retry_loop-leave (JustConnected os false fd) (peer_pass os conn_timeout start fd)
      (peer_pass-leave os conn_timeout start fd) max_retries t h

-- The loop of SendConnectionRequest reports a connection only right after a connect() on its socket
-- that succeeded or failed with EISCONN.
request_loop-JustConnected :
    (os : Os) (conn_timeout start : ℕ) (fd : ℤ) (t : Trace)
    → (request_loop os conn_timeout start fd t).0 ≡ true
    → JustConnected os true fd (request_loop os conn_timeout start fd t).1
unfolding request_loop
request_loop-JustConnected os conn_timeout start fd t h =
    retry_loop-leave (JustConnected os true fd) (request_pass os conn_timeout start fd)
      (request_pass-leave os conn_timeout start fd) max_retries t h
