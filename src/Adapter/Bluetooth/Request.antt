-- ===== src/Adapter/Bluetooth/Request.antt =====
-- BluetoothAdapter::SendConnectionRequest, which runs on a thread of its own. Another thread sets
-- `connected_`; what this one reads is a function of its own trace.
use sensor_lib.Prelude.{ℕ, Bool, true, false, none, some, is_pos, if◌then◌else◌}
use sensor_lib.Os.{Os, Trace, T, done, close, ◌>>=◌, ◌>>◌, try_connect}
use sensor_lib.Adapter.Attempt.{
  Attempt, leave, again, stop, max_retries, remaining_time, wait_for_socket, after_connect,
  retry_loop,
}
use sensor_lib.Adapter.Bluetooth.State.{BluetoothAdapter, configure_for_connection}

module _ (os : Os) (flag : Trace → Bool) (start : ℕ) (a : BluetoothAdapter) where
  -- From the second look at the clock on; a late one closes the request socket.
  unfoldable pub request_connect : ℕ → T Attempt
  unfolding remaining_time configure_for_connection after_connect
  request_connect retry_count = do
    remaining ← remaining_time os a.conn_timeout start
    if is_pos remaining
        then (do
          configure_for_connection a a.sockfd_request remaining
          outcome ← try_connect os a.sockfd_request
          after_connect os a.conn_timeout start true retry_count outcome)
        else (do close a.sockfd_request; done (leave false))

  unfoldable pub open_pass : ℕ → T Attempt
  unfolding remaining_time configure_for_connection wait_for_socket request_connect
  open_pass retry_count = do
    remaining ← remaining_time os a.conn_timeout start
    if is_pos remaining
        then (do
          configure_for_connection a a.sockfd_request remaining
          ready ← wait_for_socket os a.sockfd_request remaining
          if ready then request_connect retry_count else done again)
        else done (leave false)

  -- One pass of the loop, which ends when the other thread has connected.
  unfoldable pub request_pass : ℕ → T Attempt
  unfolding open_pass
  request_pass retry_count t = if flag t then (stop, t) else open_pass retry_count t

  -- SendConnectionRequest
  unfoldable pub send_connection_request : T Bool
  unfolding request_pass retry_loop
  send_connection_request t =
      let (r, t') = retry_loop request_pass max_retries t in
      (elim r [ none ↦ flag t' | some b ↦ b ], t')
