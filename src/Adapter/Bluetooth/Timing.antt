-- ===== src/Adapter/Bluetooth/Timing.antt =====
-- The Bluetooth adapter's two loops keep the deadline.
use sensor_lib.Prelude.{ℕ, ◌+◌, ◌-◌, ◌≤◌, Bool, true, false, ◌∷◌, ℤ, sub_ℕ, arith}
use sensor_lib.Os.{
  Os, Trace, clock_read, configured, unblocked, connect_tried, polled, total_sleep, connects,
}
use sensor_lib.Adapter.Attempt.{remaining_time, wait_for_socket}
use sensor_lib.Adapter.Deadline.{OnTime, PassFits, after_connect-Ends, retry_loop-Fits}
use sensor_lib.Adapter.Bluetooth.State.{BluetoothAdapter, configure_for_connection}
use sensor_lib.Adapter.Bluetooth.Request.{
  request_connect, open_pass, request_pass, send_connection_request,
}
use sensor_lib.Adapter.Bluetooth.Peer.{peer_connect, peer_pass, connect_to_peer}

module _ (os : Os) (start : ℕ) (a : BluetoothAdapter) (fd : ℤ) where
  -- The trace when a socket has been configured after a look at the clock.
  abbrev pub ready_trace : Trace → Trace
  ready_trace t =
      configured fd (sub_ℕ a.conn_timeout (os.clock_ms t - start))
      ∷ unblocked a.sockfd
      ∷ clock_read
      ∷ t

module _ (os : Os) (start : ℕ) (a : BluetoothAdapter) where
  peer_connect-Fits : PassFits os a.conn_timeout start (peer_connect os start a)
  unfolding peer_connect remaining_time configure_for_connection
  peer_connect-Fits k t h = ground (
    arith,
    after_connect-Ends os a.conn_timeout start false k
        (os.connect (ready_trace os start a a.sockfd t) a.sockfd)
        (connect_tried a.sockfd ∷ ready_trace os start a a.sockfd t),
  )

  peer_pass-Fits : PassFits os a.conn_timeout start (peer_pass os start a)
  unfolding peer_pass remaining_time wait_for_socket configure_for_connection
  peer_pass-Fits k t h = ground (
    arith,
    peer_connect-Fits k (
        polled a.sockfd (sub_ℕ a.conn_timeout (os.clock_ms t - start))
        ∷ ready_trace os start a a.sockfd t),
  )

module _ (os : Os) (flag : Trace → Bool) (start : ℕ) (a : BluetoothAdapter) where
  open_connect-Fits : PassFits os a.conn_timeout start (request_connect os flag start a)
  unfolding request_connect remaining_time configure_for_connection
  open_connect-Fits k t h = ground (
    arith,
    after_connect-Ends os a.conn_timeout start true k
        (os.connect (ready_trace os start a a.sockfd_request t) a.sockfd_request)
        (connect_tried a.sockfd_request ∷ ready_trace os start a a.sockfd_request t),
  )

  open_pass-Fits : PassFits os a.conn_timeout start (open_pass os flag start a)
  unfolding open_pass remaining_time wait_for_socket configure_for_connection
  open_pass-Fits k t h = ground (
    arith,
    open_connect-Fits k (
        polled a.sockfd_request (sub_ℕ a.conn_timeout (os.clock_ms t - start))
        ∷ ready_trace os start a a.sockfd_request t),
  )

  request_pass-Fits : PassFits os a.conn_timeout start (request_pass os flag start a)
  unfolding request_pass
  request_pass-Fits k t h = ground (arith, open_pass-Fits k t h)

-- SendConnectionRequest, whenever the other thread sets `connected_`, and ConnectToPeer keep a
-- trace on time: every connect() follows a look at the clock that found time left, and no backoff
-- takes more than half of the time that was left. Each makes at most five connects and sleeps at
-- most 6.2 seconds.
bluetooth_loops_keep_deadline :
    (os : Os) (flag : Trace → Bool) (start : ℕ) (a : BluetoothAdapter) (t : Trace)
    → OnTime os a.conn_timeout start t
    → let r = (send_connection_request os flag start a t).1 in
      let c = (connect_to_peer os start a t).1 in
      OnTime os a.conn_timeout start r
      × (connects r ≤ connects t + 5)
      × (total_sleep r ≤ total_sleep t + 6200)
      × OnTime os a.conn_timeout start c
      × (connects c ≤ connects t + 5)
      × (total_sleep c ≤ total_sleep t + 6200)
unfolding send_connection_request connect_to_peer
bluetooth_loops_keep_deadline os flag start a t h =
    let r =
      retry_loop-Fits os a.conn_timeout start (request_pass os flag start a) t
        (request_pass-Fits os flag start a) h in
    let c =
      retry_loop-Fits os a.conn_timeout start (peer_pass os start a) t (peer_pass-Fits os start a)
        h in
    (r.0, r.1, r.2, c.0, c.1, c.2)
