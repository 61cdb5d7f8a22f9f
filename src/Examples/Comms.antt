-- ===== src/Examples/Comms.antt =====
-- comms_runtime.cpp with one Wi-Fi and one Bluetooth peer, on a system that has two descriptors.
use sensor_lib.Prelude.{
  ◌≡◌, refl, Bool, true, false, none, some, List, [], ◌∷◌, ◌++◌, Text, bytes, pos, minus_one, ◌==◌,
  if◌then◌else◌, length, text_eq, arith,
}
use sensor_lib.Types.{BluetoothDevice, Rssi, comms, bluetooth, green, error, c_str}
use sensor_lib.Os.{Os, eagain, succeeds, fails, writable, Trace, socket_made}
use sensor_lib.Comms.Strings.{reply_prefix}
use sensor_lib.Comms.Candidates.{
  Files, Candidate, candidate_less, member, candidate_of, discover_wifi_candidates,
}
use sensor_lib.Comms.World.{World, opened, FreshSockets}
use sensor_lib.Comms.Runtime.{ActiveLink, Runtime, new_runtime}
use sensor_lib.Comms.Handshake.{
  wifi_key, bluetooth_key, attempt_wifi_handshake, attempt_bluetooth_handshake, received, is_reply,
}
use sensor_lib.Comms.Scan.{publish_link, scan_once, discover_links}
use sensor_lib.Comms.Lifecycle.{Process, stop}
use sensor_lib.Comms.Servers.{udp_reply}
use sensor_lib.Comms.Ownership.{Owned, publish_link-Owned}
use sensor_lib.Comms.Gain.{Gained, handshakes_gain}
use sensor_lib.Comms.Scanning.{OwnedAfter, scan_once-Owned}
use sensor_lib.Comms.Threads.{stay, then_step, publishes, threads_keep_ownership}
use sensor_lib.Comms.Stopping.{Stops, stop-Stops}
use sensor_lib.Comms.Counting.{Call, initialize, shutdown}
use sensor_lib.Comms.Servers.{udp_server_loop, bluetooth_server_loop}
use sensor_lib.Comms.Serving.{SameOpen, servers_close, FreshClients}
use sensor_lib.Comms.Replies.{reply-IsReply}
use sensor_lib.Comms.Finding.{report, discover_links_lem}
use sensor_lib.Comms.Order.{Sorted, count_by, reference, discover_wifi_candidates_lem}

abbrev no_rssi : Rssi
no_rssi = record { value_dbm = pos 0; valid = false }

abbrev device : BluetoothDevice
device = record {
  id = 1;
  mac_address = bytes "00:11:22:33:44:55";
  name = bytes "pi";
  dev_class = [];
  major = 1;
  rssi = no_rssi;
}

abbrev arp_lines : List Text
arp_lines =
    bytes "IP address HW type Flags HW address Mask Device"
    ∷ bytes "10.0.0.2 0x1 0x2 aa:bb:cc:dd:ee:ff * wlan0"
    ∷ bytes "10.0.0.2 0x1 0x2 aa:bb:cc:dd:ee:ff * wlan0"
    ∷ bytes "10.0.0.3 0x1 0x0 00:00:00:00:00:00 * wlan0"
    ∷ bytes "10.0.0.4 0x1 0x2 aa:bb:cc:dd:ee:01 * eth0"
    ∷ []

abbrev files : Files
files = record {
  interfaces = bytes "lo" ∷ bytes "wlan0" ∷ [];
  wireless = λ name. true;
  operstate = λ name. none;
  address = λ name. some (bytes "aa:aa:aa:aa:aa:aa");
  arp = some arp_lines;
}

-- The descriptor 3 is given out when it is free, and 4 to clients.
abbrev pub os : Os
os = record {
  clock_ms = λ t. 0;
  socket = λ t. if opened 3 t == 0 then pos 3 else minus_one;
  poll = λ t fd ms. writable;
  connect = λ t fd. succeeds 0;
  bind = λ t fd. succeeds 0;
  listen = λ t fd. succeeds 0;
  accept = λ t fd. if opened 4 t == 0 then succeeds 4 else fails eagain;
  send = λ t fd b. succeeds (length b);
  recv = λ t fd. succeeds 18;
  recv_bytes = λ t fd. reply_prefix ++ bytes "BB";
}

abbrev pub world : World
world = record {
  os = os;
  files = λ t. files;
  bluetooth_devices = λ t. some (device ∷ []);
  is_ip = λ s. true;
  is_mac = λ s. true;
  packet_interface = λ t. some 2;
  interface_name = λ n. some (bytes "wlan0");
  local_address = λ t fd. none;
}

world-FreshSockets : FreshSockets world
world-FreshSockets = λ t fd h. ground arith

world-FreshClients : FreshClients world
world-FreshClients = λ t fd n h. ground arith

abbrev candidate : Candidate
candidate =
    candidate_of
      (record {
        ip_address = bytes "10.0.0.2";
        mac_address = bytes "aa:bb:cc:dd:ee:ff";
        interface_name = bytes "wlan0";
      })
      (bytes "AA:BB:CC:DD:EE:FF")

new_runtime-Owned : Owned new_runtime [] []
unfolding member
new_runtime-Owned = record { owned = λ fd. refl; keyed = λ k. refl }

scan_once-Owned_example : OwnedAfter [] (scan_once world new_runtime [])
scan_once-Owned_example = scan_once-Owned world world-FreshSockets new_runtime [] new_runtime-Owned

handshakes_gain_example :
    ((c : Candidate)
      → Gained (wifi_key c.device.mac_address) [] (attempt_wifi_handshake world c []))
    × ((d : BluetoothDevice)
        → Gained (bluetooth_key d.mac_address) [] (attempt_bluetooth_handshake world d []))
handshakes_gain_example = handshakes_gain world world-FreshSockets []

-- The one candidate of the table.
wifi_test : length (discover_wifi_candidates files) ≡ 1
unfolding discover_wifi_candidates text_eq
wifi_test = refl

-- The Bluetooth handshake takes the only descriptor.
scan_test : length (scan_once world new_runtime []).0.active_links ≡ 1
unfolding scan_once text_eq attempt_bluetooth_handshake c_str attempt_wifi_handshake
scan_test = refl

-- A thread that has made a link with the descriptor 3
abbrev made : ActiveLink
made = record {
  link = record {
    link_id = bytes "bt001122334455";
    dev_id = device.mac_address;
    latency = 0;
    throughput = 0;
    message_loss = 0;
    link_type = green;
    instrument = bluetooth;
    socket_fd = pos 3;
    bluetooth_device = device;
    wifi_device = candidate.device;
  };
  key = bluetooth_key device.mac_address;
}

abbrev made_trace : Trace
made_trace = socket_made (pos 3) ∷ []

made-Owned : Owned new_runtime (made ∷ []) made_trace
unfolding member
made-Owned = record { owned = λ fd. ground arith; keyed = λ k. refl }

abbrev published : Runtime
published = (publish_link made new_runtime made_trace).0

abbrev published_trace : Trace
published_trace = (publish_link made new_runtime made_trace).1

published-Owned : Owned published [] published_trace
published-Owned = publish_link-Owned made made-Owned

threads_keep_ownership_example : Owned published [] published_trace
threads_keep_ownership_example =
    threads_keep_ownership {w = world} world-FreshSockets
      (then_step new_runtime new_runtime published (made ∷ []) (made ∷ []) [] made_trace made_trace
        published_trace (stay new_runtime (made ∷ []) made_trace)
        (publishes [] made [] new_runtime made_trace))
      made-Owned

stop-Stops_example : Stops published published_trace (stop published published_trace)
stop-Stops_example = stop-Stops published published_trace published-Owned

abbrev pub no_process : Process
no_process = record { runtime = none; refcount = 0 }

abbrev calls : List Call
calls = initialize true true ∷ initialize true true ∷ shutdown ∷ []

reply-IsReply_example : is_reply (received (succeeds 18) (udp_reply world [])) ≡ true
reply-IsReply_example = reply-IsReply world [] 18 (omega arith)

discover_links_lem_example :
    let after = scan_once world new_runtime [] in
    (discover_links world comms true true new_runtime []
      ≡ ((report comms after.0.active_links, after.0), after.1))
    × ((len : Bool)
        → discover_links world comms false len new_runtime []
          ≡ ((record { status = error; links = []; output_len = none }, new_runtime), []))
    × (discover_links world comms true false new_runtime []
        ≡ ((record { status = error; links = []; output_len = none }, new_runtime), []))
discover_links_lem_example = discover_links_lem world comms new_runtime []

discover_wifi_candidates_lem_example :
    Sorted candidate_less (discover_wifi_candidates files)
    × ((P : Candidate → Bool)
        → count_by P (discover_wifi_candidates files) ≡ count_by P (reference files))
discover_wifi_candidates_lem_example = discover_wifi_candidates_lem files

servers_close_example :
    SameOpen [] ((udp_server_loop world 2 []).1)
    × SameOpen [] ((bluetooth_server_loop world 2 []).1)
servers_close_example = servers_close world 2 [] world-FreshSockets world-FreshClients
