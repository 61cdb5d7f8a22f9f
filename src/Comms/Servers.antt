-- ===== src/Comms/Servers.antt =====
-- udp_server_loop and bluetooth_server_loop of comms_runtime.cpp. `rounds` is the number of times
-- that the loop reads `running_` as true before it reads false. The socket options have no result
-- that the code reads and are left out, except the timeouts.
use sensor_lib.Prelude.{
  ℕ, zero, suc, Bool, true, false, Option, none, some, [], ◌∷◌, ◌++◌, Text, ℤ, pos, is_neg, ◌==◌,
  if◌then◌else◌,
}
use sensor_lib.Os.{
  Errno, eagain, Outcome, succeeds, fails, T, Trace, done, ◌>>=◌, ◌>>◌, emit, close, configured,
  accepted, sent, recv_tried, accept_tried, closed, make_socket, try_bind, try_listen,
}
use sensor_lib.Comms.Strings.{reply_prefix, normalize_mac}
use sensor_lib.Comms.Candidates.{local_interface_mac}
use sensor_lib.Comms.World.{World}
use sensor_lib.Comms.Handshake.{client_timeout_ms}

abbrev pub poll_timeout_ms : ℕ
poll_timeout_ms = 500

or_empty : Option Text → Text
or_empty none = []
or_empty (some s) = s

-- interface_name_from_index
unfoldable pub interface_name_from_index : World → ℕ → Text
unfolding or_empty
interface_name_from_index w index = if index == 0 then [] else or_empty (w.interface_name index)

-- The interface of the last message, if its control data says
unfoldable pub interface_of : World → Option ℕ → Text
unfolding interface_name_from_index
interface_of w none = []
interface_of w (some index) = interface_name_from_index w index

unfoldable pub udp_reply : World → Trace → Text
unfolding interface_of local_interface_mac
udp_reply w t =
    reply_prefix ++ local_interface_mac (w.files t) (interface_of w (w.packet_interface t))

abbrev pub is_eagain : Errno → Bool
is_eagain eagain = true
is_eagain e = false

-- What follows recvmsg(), given the rest of the loop
unfoldable pub udp_next : World → ℤ → T (Unit {0}) → Outcome → T (Unit {0})
unfolding udp_reply
udp_next w fd rest (succeeds n) t = rest (sent fd (udp_reply w t) ∷ t)
udp_next w fd rest (fails e) t = if is_eagain e then rest t else (tt, t)

-- The loop on the bound socket
unfoldable pub udp_rounds : World → ℤ → ℕ → T (Unit {0})
unfolding udp_next
udp_rounds w fd zero t = (tt, t)
udp_rounds w fd (suc rounds) t =
    udp_next w fd (udp_rounds w fd rounds) (w.os.recv t fd) (recv_tried fd ∷ t)

unfoldable pub udp_bound : World → ℤ → ℕ → Outcome → T (Unit {0})
unfolding udp_rounds
udp_bound w fd rounds (fails e) = close fd
udp_bound w fd rounds (succeeds n) = do
  emit (configured fd (pos poll_timeout_ms))
  udp_rounds w fd rounds
  close fd

unfoldable pub udp_serve : World → ℕ → ℤ → T (Unit {0})
unfolding udp_bound
udp_serve w rounds fd =
    if is_neg fd then done tt else (do outcome ← try_bind w.os fd; udp_bound w fd rounds outcome)

-- udp_server_loop
unfoldable pub udp_server_loop : World → ℕ → T (Unit {0})
unfolding udp_serve
udp_server_loop w rounds = do fd ← make_socket w.os; udp_serve w rounds fd

unfoldable pub local_mac : Option Text → Text
unfolding normalize_mac
local_mac none = []
local_mac (some address) = normalize_mac address

-- The reply to a client from whom something was received
unfoldable pub reply_to : World → ℤ → Outcome → Trace → Trace
unfolding local_mac
reply_to w client (succeeds (suc n)) t =
    sent client (reply_prefix ++ local_mac (w.local_address t client)) ∷ t
reply_to w client _ t = t

-- What is done for one client
unfoldable pub serve_client : World → ℤ → Trace → Trace
unfolding reply_to
serve_client w client t =
    let u = configured client (pos client_timeout_ms) ∷ t in
    closed client ∷ reply_to w client (w.os.recv u client) (recv_tried client ∷ u)

-- What follows accept(), given the rest of the loop
unfoldable pub bluetooth_next : World → ℤ → T (Unit {0}) → Outcome → T (Unit {0})
unfolding serve_client
bluetooth_next w fd rest (succeeds n) t = rest (serve_client w (pos n) (accepted (pos n) ∷ t))
bluetooth_next w fd rest (fails e) t =
    if is_eagain e then rest (accept_tried fd ∷ t) else (tt, accept_tried fd ∷ t)

-- The loop on the listening socket
unfoldable pub bluetooth_rounds : World → ℤ → ℕ → T (Unit {0})
unfolding bluetooth_next
bluetooth_rounds w fd zero t = (tt, t)
bluetooth_rounds w fd (suc rounds) t =
    bluetooth_next w fd (bluetooth_rounds w fd rounds) (w.os.accept t fd) t

unfoldable pub bluetooth_listening : World → ℤ → ℕ → Outcome → T (Unit {0})
unfolding bluetooth_rounds
bluetooth_listening w fd rounds (fails e) = close fd
bluetooth_listening w fd rounds (succeeds n) = do
  emit (configured fd (pos poll_timeout_ms))
  bluetooth_rounds w fd rounds
  close fd

unfoldable pub bluetooth_bound : World → ℤ → ℕ → Outcome → T (Unit {0})
unfolding bluetooth_listening
bluetooth_bound w fd rounds (fails e) = close fd
bluetooth_bound w fd rounds (succeeds n) = do
  outcome ← try_listen w.os fd
  bluetooth_listening w fd rounds outcome

unfoldable pub bluetooth_serve : World → ℕ → ℤ → T (Unit {0})
unfolding bluetooth_bound
bluetooth_serve w rounds fd =
    if is_neg fd
    then done tt
    else (do outcome ← try_bind w.os fd; bluetooth_bound w fd rounds outcome)

-- bluetooth_server_loop
unfoldable pub bluetooth_server_loop : World → ℕ → T (Unit {0})
unfolding bluetooth_serve
bluetooth_server_loop w rounds = do fd ← make_socket w.os; bluetooth_serve w rounds fd
