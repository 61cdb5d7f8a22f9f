-- ===== src/Examples/Registry.antt =====
-- BratislavaSocketRegistry.cc on concrete sockets, devices and links.
use sensor_lib.Prelude.{
  text_eq, List, ℕ, ◌≡◌, refl, ◌≢◌, true, false, none, some, [], ◌∷◌, Text, bytes, pos, minus_one,
  put, text_eq, text_eq→eq, arith,
}
use sensor_lib.Types.{Link, Rssi, wifi_adapter, wifi, blue}
use sensor_lib.Registry.State.{SocketConfig, Registry, ◌>>◌, new_config}
use sensor_lib.Registry.Config.{get_device_id, get_config_of_socket}
use sensor_lib.Registry.Port.{
  new_registry, initialize_local_ports, get_local_port, add_local_port,
  release_local_port_of_device,
}
use sensor_lib.Registry.LinkTable.{find}
use sensor_lib.Registry.Socket.{contains, add, remove, exists_socket}
use sensor_lib.Registry.Valid.{IsValid, with_ports, with_ports-IsValid, put-IsValid}
use sensor_lib.Registry.Connection.{Known}
use sensor_lib.Registry.SocketList.{Distinct}
use sensor_lib.Registry.Membership.{added, added-IsValid, Adds, add-Adds}
use sensor_lib.Registry.Removal.{Removes, remove-Removes}
use sensor_lib.Registry.Sharing.{shared_config_dangles}
use sensor_lib.Registry.LinkTable.{find}
use sensor_lib.Registry.Links.{NotBoth, known, LinkCall, adds, removes}
use sensor_lib.Registry.PortPool.{Acquires, acquire-Acquires, new_registry-IsPool}
use sensor_lib.Registry.PortLeak.{KnownDevice, port_leaks}
use sensor_lib.Registry.LinkTable.{find}
use sensor_lib.Registry.Links.{NotBoth, known}

abbrev no_rssi : Rssi
no_rssi = record { value_dbm = pos 0; valid = false }

abbrev link_to : Text → Link
link_to mac = record {
  link_id = bytes "wifi1";
  dev_id = mac;
  latency = 0;
  throughput = 0;
  message_loss = 0;
  link_type = blue;
  instrument = wifi;
  socket_fd = minus_one;
  bluetooth_device = record {
    id = 0;
    mac_address = [];
    name = [];
    dev_class = [];
    major = 0;
    rssi = no_rssi;
  };
  wifi_device = record { ssid = []; mac_address = mac; type = wifi_adapter; rssi = no_rssi };
}

abbrev pub link_a : Link
link_a = link_to (bytes "AA")

abbrev link_b : Link
link_b = link_to (bytes "BB")

pub new_registry-IsValid : IsValid new_registry
unfolding new_registry initialize_local_ports
new_registry-IsValid = record { by_sock = λ s p h. cc; by_id = λ d p h. cc; owned = λ p c h. cc }

-- A registry with the socket 7 for the first link.
abbrev pub one : Registry
one = added new_registry 7 link_a

pub one-IsValid : IsValid one
unfolding new_registry initialize_local_ports
one-IsValid = added-IsValid 7 link_a new_registry-IsValid (λ h. omega arith) refl refl

abbrev pub config_a : SocketConfig
config_a = record new_config { socket = 7; device_id = get_device_id link_a }

pub one-Known : Known one 7
unfolding new_registry initialize_local_ports
one-Known = record { address = 1; config = config_a; points = refl; holds = refl }

-- A registry with the sockets 7 and 8 for two links.
abbrev two : Registry
two = added one 8 link_b

two-IsValid : IsValid two
unfolding new_registry initialize_local_ports get_device_id text_eq
two-IsValid = added-IsValid 8 link_b one-IsValid (λ h. omega arith) refl refl

add-Adds_example : Adds new_registry 7 link_a
unfolding new_registry initialize_local_ports exists_socket contains
add-Adds_example = add-Adds 7 link_a new_registry-IsValid tt (λ h. omega arith) refl refl refl

pub one-Distinct : Distinct one.sockets
unfolding new_registry initialize_local_ports contains
one-Distinct = (refl, tt)

pub one-has_seven : exists_socket 7 one ≡ true
unfolding new_registry initialize_local_ports exists_socket contains
one-has_seven = refl

remove-Removes_example : Removes one 7 one-Known
remove-Removes_example = remove-Removes one-IsValid one-Distinct one-has_seven one-Known

pub no_socket : (s : ℕ) → new_registry.sock_to_config s ≡ none
unfolding new_registry initialize_local_ports
no_socket s = refl

pub no_device : (d : Text) → new_registry.device_id_to_config d ≡ none
unfolding new_registry initialize_local_ports
no_device d = refl

shared_config_dangles_example :
    (after : Registry) × ((do add 7 link_a; add 8 link_a; remove 7) new_registry
      ≡ some (true, after))
    × (exists_socket 8 after ≡ true)
    × (get_config_of_socket 8 after ≡ none)
shared_config_dangles_example =
    shared_config_dangles 7 8 link_a link_a new_registry-IsValid (λ h. omega arith)
      (λ h. omega arith) (λ h. omega arith) (no_socket 7) (no_socket 8)
      (no_device (get_device_id link_a)) refl

acquire-Acquires_example : Acquires new_registry
acquire-Acquires_example = acquire-Acquires new_registry (new_registry-IsPool.0)

-- The least two ports are free.
abbrev ported_one : Registry
ported_one = with_ports one (40000 ∷ 40001 ∷ [])

ported_one-KnownDevice : KnownDevice ported_one (get_device_id link_a)
unfolding new_registry initialize_local_ports get_device_id text_eq
ported_one-KnownDevice = record { address = 1; config = config_a; points = refl; holds = refl }

port_leaks_example :
    (after : Registry) × ((do
      add_local_port (get_device_id link_a)
      add_local_port (get_device_id link_a)
      release_local_port_of_device (get_device_id link_a))
        ported_one
      ≡ some (true, after))
    × (after.available_local_ports ≡ 40001 ∷ [])
    × (get_local_port (get_device_id link_a) after ≡ some (pos 40001, after))
port_leaks_example =
    port_leaks 40000 40001 [] (with_ports-IsValid (40000 ∷ 40001 ∷ []) one-IsValid)
      ported_one-KnownDevice refl (omega arith, omega arith, (omega arith, omega arith, tt))

-- The first device has the port 40000, and the second one has none.
abbrev config_ported : SocketConfig
config_ported = record config_a { local_port = pos 40000 }

abbrev ported_two : Registry
ported_two =
    with_ports (record two { configs = put two.configs 1 (some config_ported) }) (40001 ∷ [])

two-first : two.configs 1 ≡ some config_a
unfolding new_registry initialize_local_ports
two-first = refl

ported_two-IsValid : IsValid ported_two
ported_two-IsValid =
    with_ports-IsValid (40001 ∷ [])
      (put-IsValid 1 config_a config_ported two-IsValid two-first refl refl)

ported_two-first : KnownDevice ported_two (get_device_id link_a)
unfolding new_registry initialize_local_ports get_device_id text_eq
ported_two-first = record { address = 1; config = config_ported; points = refl; holds = refl }

ported_two-second : KnownDevice ported_two (get_device_id link_b)
unfolding new_registry initialize_local_ports get_device_id text_eq
ported_two-second = record {
  address = 2;
  config = record new_config { socket = 8; device_id = get_device_id link_b };
  points = refl;
  holds = refl;
}

addresses_differ : ported_two-first.address ≢ ported_two-second.address
unfolding ported_two-first ported_two-second
addresses_differ = λ h. omega arith

-- One active and one inactive link.
abbrev linked : Registry
linked = record new_registry {
  active_links = (bytes "a", 5) ∷ [];
  inactive_links = (bytes "b", 6) ∷ [];
}

linked-NotBoth : NotBoth linked
unfolding find text_eq
linked-NotBoth id = ground (arith, text_eq→eq (bytes "a") id, text_eq→eq (bytes "b") id)

linked-knows_a : known linked (bytes "a") ≡ some 5
unfolding find text_eq
linked-knows_a = refl

abbrev one_active : Registry
one_active = record new_registry { active_links = (bytes "a", 5) ∷ [] }

abbrev link_calls : List LinkCall
link_calls = removes (bytes "a") ∷ adds 6 (bytes "a") ∷ adds 7 (bytes "b") ∷ []
