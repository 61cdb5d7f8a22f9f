-- ===== src/Examples/Adapters.antt =====
-- WifiAdapter.cc and BluetoothAdapter.cc on a system where every call succeeds.
use sensor_lib.Prelude.{
  ◌==◌, if◌then◌else◌, ◌+◌, ◌%◌, ◌≤◌, ◌<◌, ◌≡◌, refl, ◌≢◌, ◌↔◌, ap, true, false, not, none, some,
  [], ◌∷◌, Text, bytes, pos, minus_one, length, arith,
}
use sensor_lib.Types.{wifi_adapter}
use sensor_lib.Os.{sent, recv_tried, Os, succeeds, writable, connects, total_sleep}
use sensor_lib.Registry.Port.{min_port, max_port}
use sensor_lib.Adapter.Deadline.{OnTime}
use sensor_lib.Adapter.LoopExit.{JustConnected}
use sensor_lib.Adapter.Wifi.State.{WifiAdapter, Network, pad, setup_local_addr}
use sensor_lib.Adapter.Wifi.Request.{request_loop, exchange}
use sensor_lib.Adapter.Wifi.Peer.{peer_loop}
use sensor_lib.Adapter.Wifi.Conn.{conn}
use sensor_lib.Adapter.Wifi.Timing.{loops_keep_deadline}
use sensor_lib.Adapter.Wifi.Outcome.{peer_loop-JustConnected}
use sensor_lib.Adapter.Wifi.Exchange.{port_byte_loses}
use sensor_lib.Adapter.Wifi.Session.{HasDevice, Conns, conn-Conns}
use sensor_lib.Adapter.Wifi.Manager.{Manager, activated, get_local_ip, create}
use sensor_lib.Adapter.Wifi.Manager.Choice.{best_device}
use sensor_lib.Adapter.Bluetooth.State.{
  BluetoothAdapter, Library, first_byte, generate_unique_port, construct, port_range_end,
}
use sensor_lib.Adapter.Bluetooth.Rendezvous.{hash_value, generate_unique_port_bounds, peers_meet}
use sensor_lib.Examples.Registry.{one, one-IsValid, one-Known}

abbrev pub os : Os
os = record {
  clock_ms = λ t. 10;
  socket = λ t. pos 3;
  poll = λ t fd ms. writable;
  connect = λ t fd. succeeds 0;
  bind = λ t fd. succeeds 0;
  listen = λ t fd. succeeds 0;
  accept = λ t fd. succeeds 4;
  send = λ t fd b. succeeds (length b);
  recv = λ t fd. succeeds 2;
  recv_bytes = λ t fd. 0x9c ∷ 0x45 ∷ [];
}

abbrev pub net : Network
net = record {
  has_client = λ t. true;
  local_ip = λ t. some (bytes "10.0.0.7");
  has_active_connection = λ t. true;
  has_ip4_config = λ t. true;
  gateway = λ t. some (bytes "10.0.0.1");
  parses = λ s. true;
}

abbrev pub adapter : WifiAdapter
adapter = record {
  peer_mac = bytes "AA";
  device_type = wifi_adapter;
  mac_address = bytes "BB";
  ssid = bytes "net";
  remote_port = minus_one;
  gateway = none;
  sockfd = pos 5;
  sockfd_request = pos 6;
  sockfd_listen = pos 7;
  connected = false;
  local_sin_port = 0;
  remote_sin_port = 0;
  conn_timeout = 1000;
  recv_timeout = 100;
}

pub net-HasDevice : HasDevice net
net-HasDevice = record { client = λ t. refl; address = λ t. (bytes "10.0.0.7", refl) }

conn-Conns_example : Conns 7 one (conn os net 7 adapter [])
conn-Conns_example = conn-Conns os net 7 adapter [] net-HasDevice one-IsValid one-Known

loops_keep_deadline_example :
    let r = (request_loop os 1000 0 (pos 6) []).1 in
    let c = (peer_loop os 1000 0 (pos 6) []).1 in
    OnTime os 1000 0 r
    × (connects r ≤ connects [] + 5)
    × (total_sleep r ≤ total_sleep [] + 6200)
    × OnTime os 1000 0 c
    × (connects c ≤ connects [] + 5)
    × (total_sleep c ≤ total_sleep [] + 6200)
loops_keep_deadline_example = loops_keep_deadline os 1000 0 (pos 6) [] tt

peer_loop_test : (peer_loop os 1000 0 (pos 5) []).0 ≡ true
unfolding peer_loop
peer_loop_test = refl

peer_loop-JustConnected_example : JustConnected os false (pos 5) (peer_loop os 1000 0 (pos 5) []).1
peer_loop-JustConnected_example = peer_loop-JustConnected os 1000 0 (pos 5) [] peer_loop_test

request_loop_test : (request_loop os 1000 0 (pos 6) []).0 ≡ true
unfolding request_loop
request_loop_test = refl

exchange_test : (exchange os adapter []).0.1 ≡ true
unfolding exchange
exchange_test = refl

port_byte_loses_example :
    ((exchange os (setup_local_addr (pos 40001) adapter) []).1
      ≡ recv_tried adapter.sockfd_request
        ∷ sent adapter.sockfd_request (40001 % 256 ∷ [])
        ∷ sent adapter.sockfd_request (pad 256 adapter.ssid)
        ∷ sent adapter.sockfd_request (pad 18 adapter.mac_address)
        ∷ [])
    × (40001 % 256 ≢ 40001)
    × (min_port % 256 ≡ max_port % 256)
unfolding exchange
port_byte_loses_example = port_byte_loses os adapter 40001 [] (omega arith) (omega arith) refl

abbrev bluetooth_adapter : Text → BluetoothAdapter
bluetooth_adapter peer = record {
  peer_mac = peer;
  local_mac = [];
  local_psm = 0;
  remote_psm = 0;
  is_listener = false;
  sockfd = minus_one;
  sockfd_request = minus_one;
  sockfd_listen = minus_one;
  connected = false;
  conn_timeout = 1000;
  recv_timeout = 100;
}

abbrev library : Text → Library
library mac = record { local_address = λ t. some mac; sha256 = λ s. s }

generate_unique_port_bounds_example :
    let p = generate_unique_port (library (bytes "AA")) (bytes "BB") in
    (p % 2 ≡ 1)
    × (0x1003 ≤ p)
    × (p ≤ 0x1101)
    × ((port_range_end < p) ↔ (hash_value (library (bytes "AA")) (bytes "BB") % 128 ≡ 127))
generate_unique_port_bounds_example =
    generate_unique_port_bounds (library (bytes "AA")) (bytes "BB")

macs_differ : bytes "AA" ≢ bytes "BB"
macs_differ = λ h. let e : 65 ≡ 66 = ap first_byte h in omega (arith, e)

peers_meet_example :
    let x = (construct os (library (bytes "AA")) (bluetooth_adapter (bytes "BB")) []).0 in
    let y = (construct os (library (bytes "BB")) (bluetooth_adapter (bytes "AA")) []).0 in
    (x.is_listener ≡ not y.is_listener)
    × (x.remote_psm ≡ y.local_psm)
    × (y.remote_psm ≡ x.local_psm)
peers_meet_example =
    peers_meet os os (library (bytes "AA")) (library (bytes "BB")) (bluetooth_adapter (bytes "BB"))
      (bluetooth_adapter (bytes "AA")) [] [] (bytes "AA") (bytes "BB") macs_differ refl refl
      (λ v. refl) (λ v. refl) (λ s. refl)

-- Device 4 is wired; 5 and 7 are wireless, of which 7 is activated as an access point.
abbrev manager : Manager
manager = record {
  devices = some (4 ∷ 5 ∷ 7 ∷ []);
  is_wifi = λ d. not (d == 4);
  state = λ d. if d == 5 then 30 else activated;
  wifi_mode = elim [ none ↦ 0 | some d ↦ if d == 7 then 3 else 2 ];
  hw_address = elim [ none ↦ none | some d ↦ some (bytes "00:11:22:33:44:55") ];
  path = elim [ none ↦ none | some d ↦ some (bytes "/Devices/1") ];
  access_point = λ d path. none;
  host_name = some (bytes "drone");
  ip4_config = elim [ none ↦ none | some d ↦ some (some (some (bytes "10.0.0.1") ∷ [])) ];
}

best_device_test : best_device manager (4 ∷ 5 ∷ 7 ∷ []) ≡ some 7
unfolding best_device
best_device_test = refl

get_local_ip_test : get_local_ip manager ≡ some (some (bytes "10.0.0.1"))
unfolding get_local_ip
get_local_ip_test = refl

-- Without a client the constructor reads a null pointer.
create_test : create os manager (record manager { devices = none }) manager adapter [] ≡ none
unfolding create
create_test = refl
