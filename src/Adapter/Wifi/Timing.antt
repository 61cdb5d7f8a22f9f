-- ===== src/Adapter/Wifi/Timing.antt =====
-- The Wi-Fi adapter's two loops keep the deadline.
use sensor_lib.Prelude.{ℕ, ◌+◌, ◌-◌, ◌≤◌, true, false, ◌∷◌, ℤ, sub_ℕ, arith}
use sensor_lib.Os.{
  Os, Trace, clock_read, configured, unblocked, connect_tried, polled, total_sleep, connects,
}
use sensor_lib.Adapter.Attempt.{remaining_time, wait_for_socket}
use sensor_lib.Adapter.Deadline.{OnTime, PassFits, after_connect-Ends, retry_loop-Fits}
use sensor_lib.Adapter.Wifi.State.{configure_for_connection}
use sensor_lib.Adapter.Wifi.Request.{request_connect, request_pass, request_loop}
use sensor_lib.Adapter.Wifi.Peer.{peer_connect, peer_pass, peer_loop}

module _ (os : Os) (conn_timeout start : ℕ) (fd : ℤ) where
  -- The trace when a socket has been configured after a look at the clock.
  abbrev pub ready_trace : Trace → Trace
  ready_trace t =
      configured fd (sub_ℕ conn_timeout (os.clock_ms t - start)) ∷ unblocked fd ∷ clock_read ∷ t

  peer_connect-Fits : PassFits os conn_timeout start (peer_connect os conn_timeout start fd)
  unfolding peer_connect remaining_time configure_for_connection
  peer_connect-Fits k t h = ground (
    arith,
    after_connect-Ends os conn_timeout start false k (os.connect (ready_trace t) fd)
        (connect_tried fd ∷ ready_trace t),
  )

  peer_pass-Fits : PassFits os conn_timeout start (peer_pass os conn_timeout start fd)
  unfolding peer_pass remaining_time wait_for_socket configure_for_connection
  peer_pass-Fits k t h = ground (
    arith,
    peer_connect-Fits k (polled fd (sub_ℕ conn_timeout (os.clock_ms t - start)) ∷ ready_trace t),
  )

  request_connect-Fits : PassFits os conn_timeout start (request_connect os conn_timeout start fd)
  unfolding request_connect remaining_time configure_for_connection
  request_connect-Fits k t h = ground (
    arith,
    after_connect-Ends os conn_timeout start true k (os.connect (ready_trace t) fd)
        (connect_tried fd ∷ ready_trace t),
  )

  request_pass-Fits : PassFits os conn_timeout start (request_pass os conn_timeout start fd)
  unfolding request_pass remaining_time wait_for_socket configure_for_connection
  request_pass-Fits k t h = ground (
    arith,
    request_connect-Fits k (polled fd (sub_ℕ conn_timeout (os.clock_ms t - start)) ∷ ready_trace t),
  )

-- The loops of SendConnectionRequest and of ConnectToPeer keep a trace on time: every connect()
-- follows a look at the clock that found time left, and no backoff takes more than half of the time
-- that was left. Each loop makes at most five connects and sleeps at most 6.2 seconds.
pub loops_keep_deadline :
    (os : Os) (conn_timeout start : ℕ) (fd : ℤ) (t : Trace)
    → OnTime os conn_timeout start t
    → let r = (request_loop os conn_timeout start fd t).1 in
      let c = (peer_loop os conn_timeout start fd t).1 in
      OnTime os conn_timeout start r
      × (connects r ≤ connects t + 5)
      × (total_sleep r ≤ total_sleep t + 6200)
      × OnTime os conn_timeout start c
      × (connects c ≤ connects t + 5)
      × (total_sleep c ≤ total_sleep t + 6200)
unfolding request_loop peer_loop
loops_keep_deadline os conn_timeout start fd t h =
    let r =
      retry_loop-Fits os conn_timeout start (request_pass os conn_timeout start fd) t
        (request_pass-Fits os conn_timeout start fd) h in
    let c =
      retry_loop-Fits os conn_timeout start (peer_pass os conn_timeout start fd) t
        (peer_pass-Fits os conn_timeout start fd) h in
    (r.0, r.1, r.2, c.0, c.1, c.2)
