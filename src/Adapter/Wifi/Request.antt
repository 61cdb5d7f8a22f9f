-- ===== src/Adapter/Wifi/Request.antt =====
-- WifiAdapter::SendConnectionRequest: the retry loop and the exchange that follows it.
use sensor_lib.Prelude.{
  ℕ, ◌+◌, ◌-◌, ◌*◌, ◌/◌, ◌%◌, Bool, true, false, not, Option, none, some, [], ◌∷◌, Text, ℤ, pos,
  negsuc, is_pos, is_neg, if◌then◌else◌, ◌==◌,
}
use sensor_lib.Os.{
  Os, Trace, succeeds, fails, T, recv_tried, done, close, ◌>>=◌, ◌>>◌, try_connect, try_send,
}
use sensor_lib.Adapter.Attempt.{
  Attempt, leave, again, max_retries, remaining_time, wait_for_socket, after_connect, retry_loop,
  connected_of,
}
use sensor_lib.Adapter.Wifi.State.{
  WifiAdapter, Network, swap16, pad, configure_for_connection, get_access_point_ip,
}

-- The second byte of an int.
high_byte : ℤ → ℕ
high_byte (pos n) = n / 256 % 256
high_byte (negsuc n) = 255 - n / 256 % 256

-- The int after `recv(&remote_port_, 4)` wrote the given bytes over it, as `ntohs` reads it: only
-- the two low bytes count.
unfoldable pub received_port : ℤ → Text → ℕ
unfolding swap16 high_byte
received_port old [] = 0
received_port old (b ∷ []) = swap16 (b + 256 * high_byte old)
received_port old (b ∷ c ∷ rest) = swap16 (b + 256 * c)

module _ (os : Os) (conn_timeout start : ℕ) (fd : ℤ) where
  -- From the second look at the clock on; a late one closes the request socket.
  unfoldable pub request_connect : ℕ → T Attempt
  unfolding remaining_time configure_for_connection after_connect
  request_connect retry_count = do
    remaining ← remaining_time os conn_timeout start
    if is_pos remaining
        then (do
          configure_for_connection fd remaining
          outcome ← try_connect os fd
          after_connect os conn_timeout start true retry_count outcome)
        else (do close fd; done (leave false))

  -- One pass of the loop.
  unfoldable pub request_pass : ℕ → T Attempt
  unfolding remaining_time configure_for_connection wait_for_socket request_connect
  request_pass retry_count = do
    remaining ← remaining_time os conn_timeout start
    if is_pos remaining
        then (do
          configure_for_connection fd remaining
          ready ← wait_for_socket os fd remaining
          if ready then request_connect retry_count else done again)
        else done (leave false)

  -- The loop, with the passes that are left; `is_connected` at its end.
  unfoldable pub request_loop : T Bool
  unfolding request_pass retry_loop
  request_loop t = let (r, t') = retry_loop request_pass max_retries t in (connected_of r, t')

module _ (os : Os) where
  -- `::send(...) < 0` ends the exchange.
  abbrev send_or : ℤ → Text → T (WifiAdapter × Bool) → WifiAdapter → T (WifiAdapter × Bool)
  send_or fd b next a = do
    outcome ← try_send os fd b
    elim outcome [ succeeds n ↦ next | fails e ↦ done (a, false) ]

  -- `recv(...) <= 0` fails; otherwise the port is stored, and tested for its sign.
  receive_port : WifiAdapter → T (WifiAdapter × Bool)
  unfolding received_port
  receive_port a t = elim (os.recv t a.sockfd_request) [
    | fails e ↦ ((a, false), recv_tried a.sockfd_request ∷ t)
    | succeeds n ↦
        if n == 0
        then ((a, false), recv_tried a.sockfd_request ∷ t)
        else let port : ℤ = pos (received_port a.remote_port (os.recv_bytes t a.sockfd_request)) in
          ((record a { remote_port = port }, not (is_neg port)), recv_tried a.sockfd_request ∷ t)
  ]

  -- The device information that a connected client sends, and the port that it receives. The port
  -- goes out as one byte, `uint8_t network_port`.
  unfoldable pub exchange : WifiAdapter → T (WifiAdapter × Bool)
  unfolding pad swap16 receive_port
  exchange a =
      send_or a.sockfd_request (pad 18 a.mac_address)
        (send_or a.sockfd_request (pad 256 a.ssid)
          (send_or a.sockfd_request (swap16 a.local_sin_port % 256 ∷ []) (receive_port a) a) a)
        a

  unfoldable pub parses_gateway : Network → Option Text → Bool
  parses_gateway net none = false
  parses_gateway net (some g) = net.parses g

  -- The rest of SendConnectionRequest, with what GetAccessPointIP has found
  unfoldable pub request_from : Network → ℕ → WifiAdapter × ℤ → T (WifiAdapter × Bool)
  unfolding parses_gateway request_loop exchange
  request_from net start (b, status) t =
      if is_neg status
      then ((b, false), t)
      else if not (parses_gateway net b.gateway)
      then ((b, false), t)
      else let (connected, t') = request_loop os b.conn_timeout start b.sockfd_request t in
        if connected then exchange b t' else ((b, false), t')

  unfoldable pub request_found :
      Network → ℕ → Trace → Option (WifiAdapter × ℤ) → Option ((WifiAdapter × Bool) × Trace)
  unfolding request_from
  request_found net start t none = none
  request_found net start t (some found) = some (request_from net start found t)

  -- SendConnectionRequest; `none` is a fault
  unfoldable pub send_connection_request :
      Network → ℕ → WifiAdapter → Trace → Option ((WifiAdapter × Bool) × Trace)
  unfolding request_found get_access_point_ip
  send_connection_request net start a t = request_found net start t (get_access_point_ip net a t)
