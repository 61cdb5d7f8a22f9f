-- ===== src/Comms/Handshake.antt =====
-- attempt_wifi_handshake and attempt_bluetooth_handshake of comms_runtime.cpp.
use sensor_lib.Prelude.{
  ℕ, zero, suc, Bool, true, false, Option, none, some, [], ◌∷◌, ◌++◌, Text, bytes, ℤ, pos, is_neg,
  if◌then◌else◌, take,
}
use sensor_lib.Types.{
  BluetoothDevice, WifiDevice, Rssi, wifi_unknown, Link, blue, green, Instrument, bluetooth, wifi,
  LinkType, c_str, copy_string,
}
use sensor_lib.Os.{
  Os, Outcome, succeeds, fails, T, done, ◌>>=◌, ◌>>◌, emit, close, configured, make_socket,
  try_connect, try_send, recv_tried,
}
use sensor_lib.Comms.Strings.{hello_payload, starts_with_reply_prefix, make_link_id}
use sensor_lib.Comms.Candidates.{Candidate}
use sensor_lib.Comms.World.{World}
use sensor_lib.Comms.Runtime.{ActiveLink}

abbrev pub client_timeout_ms : ℕ
client_timeout_ms = 3000

abbrev pub wifi_key : Text → Text
wifi_key mac = bytes "wifi|" ++ mac

abbrev pub bluetooth_key : Text → Text
bluetooth_key mac = bytes "bt|" ++ mac

-- Records after memset(…, 0, …)
abbrev no_rssi : Rssi
no_rssi = record { value_dbm = pos 0; valid = false }

abbrev no_bluetooth : BluetoothDevice
no_bluetooth = record {
  id = 0;
  mac_address = [];
  name = [];
  dev_class = [];
  major = 0;
  rssi = no_rssi;
}

abbrev no_wifi : WifiDevice
no_wifi = record { ssid = []; mac_address = []; type = wifi_unknown; rssi = no_rssi }

abbrev make_link : Text → Text → LinkType → Instrument → ℤ → BluetoothDevice → WifiDevice → Link
make_link prefix mac link_type instrument fd bt wd = record {
  link_id = copy_string 20 (make_link_id prefix mac);
  dev_id = copy_string 256 mac;
  latency = 0;
  throughput = 0;
  message_loss = 0;
  link_type = link_type;
  instrument = instrument;
  socket_fd = fd;
  bluetooth_device = bt;
  wifi_device = wd;
}

-- What recv() left in the buffer, if it received anything.
unfoldable pub received : Outcome → Text → Option Text
received (succeeds zero) data_bytes = none
received (succeeds (suc n)) data_bytes = some (c_str (take (suc n) data_bytes))
received (fails e) data_bytes = none

unfoldable pub is_reply : Option Text → Bool
unfolding starts_with_reply_prefix
is_reply none = false
is_reply (some buffer) = starts_with_reply_prefix buffer

module _ (os : Os) (fd : ℤ) where
  -- `close(socket_fd); return false;`
  unfoldable pub refuse : T (Option ActiveLink)
  refuse = do close fd; done none

  -- recv() with the bytes that it wrote to the buffer
  unfoldable pub recv_buffer : T (Option Text)
  unfolding received
  recv_buffer t = (received (os.recv t fd) (os.recv_bytes t fd), recv_tried fd ∷ t)

  unfoldable pub await_reply : ActiveLink → T (Option ActiveLink)
  unfolding refuse recv_buffer is_reply
  await_reply a = do reply ← recv_buffer; if is_reply reply then done (some a) else refuse

  unfoldable pub after_send : ActiveLink → Outcome → T (Option ActiveLink)
  unfolding refuse await_reply
  after_send a (succeeds n) = await_reply a
  after_send a (fails e) = refuse

  unfoldable pub after_connect : ActiveLink → Outcome → T (Option ActiveLink)
  unfolding refuse after_send
  after_connect a (succeeds n) = do outcome ← try_send os fd hello_payload; after_send a outcome
  after_connect a (fails e) = refuse

  -- What both handshakes do with their socket, given whether the remote address could be parsed.
  unfoldable pub greet : Bool → ActiveLink → T (Option ActiveLink)
  unfolding refuse after_connect
  greet false a = refuse
  greet true a = do outcome ← try_connect os fd; after_connect a outcome

  unfoldable pub with_socket : Bool → ActiveLink → T (Option ActiveLink)
  unfolding greet
  with_socket addressed a =
      if is_neg fd
      then done none
      else (do emit (configured fd (pos client_timeout_ms)); greet addressed a)

-- attempt_wifi_handshake
unfoldable pub attempt_wifi_handshake : World → Candidate → T (Option ActiveLink)
unfolding with_socket
attempt_wifi_handshake w candidate = do
  fd ← make_socket w.os
  with_socket w.os fd (w.is_ip candidate.ip_address) (record {
    link =
        make_link (bytes "wifi") candidate.device.mac_address blue wifi fd no_bluetooth
          candidate.device;
    key = wifi_key candidate.device.mac_address;
  })

-- attempt_bluetooth_handshake
unfoldable pub attempt_bluetooth_handshake : World → BluetoothDevice → T (Option ActiveLink)
unfolding with_socket
attempt_bluetooth_handshake w device = do
  fd ← make_socket w.os
  with_socket w.os fd (w.is_mac device.mac_address) (record {
    link = make_link (bytes "bt") device.mac_address green bluetooth fd device no_wifi;
    key = bluetooth_key device.mac_address;
  })
