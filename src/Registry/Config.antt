-- ===== src/Registry/Config.antt =====
-- The config methods of BratislavaSocketRegistry.cc. An out parameter with a Boolean result is an
-- `Option`. The overloads on a socket pointer end in `_of_socket`, those on a device id do not.
use sensor_lib.Prelude.{
  ℕ, Bool, true, false, Option, none, some, [], Text, ℤ, minus_one, put, put_text, ◌==◌,
  if◌then◌else◌, is_neg,
}
use sensor_lib.Types.{Link, Instrument, bluetooth, wifi}
use sensor_lib.Registry.State.{
  SocketConfig, M, pure, ◌>>=◌, ◌>>◌, new_config, load, store, alloc, free,
}

-- GetDeviceID, by the link that the socket holds
device_id_by : Instrument → Link → Text
device_id_by bluetooth l = l.bluetooth_device.mac_address
device_id_by wifi l = l.wifi_device.mac_address
device_id_by _ l = []

unfoldable pub get_device_id : Link → Text
unfolding device_id_by
get_device_id l = device_id_by l.instrument l

unfoldable pub get_config_of_socket : ℕ → M (Option SocketConfig)
unfolding load
get_config_of_socket socket r = elim (r.sock_to_config socket) [
  | none ↦ some (none, r)
  | some p ↦ (do c ← load p; pure (some c)) r
]

unfoldable pub get_config : Text → M (Option SocketConfig)
unfolding load
get_config device_id r = elim (r.device_id_to_config device_id) [
  | none ↦ some (none, r)
  | some p ↦ (do c ← load p; pure (some c)) r
]

update_by_id : SocketConfig → M Bool
unfolding store
update_by_id config r = elim (r.device_id_to_config config.device_id) [
  | none ↦ some (false, r)
  | some p ↦ (do store p config; pure true) r
]

-- UpdateConfigLocked, and UpdateConfig, which takes the lock around it
unfoldable pub update_config : SocketConfig → M Bool
unfolding store update_by_id
update_config config r = elim (r.sock_to_config config.socket) [
  | none ↦ update_by_id config r
  | some p ↦ (do store p config; pure true) r
]

set_sock : ℕ → ℕ → M (Unit {0})
set_sock socket p r = some (tt, record r { sock_to_config = put r.sock_to_config socket (some p) })

set_device : Text → ℕ → M (Unit {0})
set_device d p r =
    some (tt, record r { device_id_to_config = put_text r.device_id_to_config d (some p) })

-- CreateConfig(BratislavaSocket*): an existing config of the device is reused
unfoldable pub create_config_of_socket : ℕ → Link → M (Unit {0})
unfolding load alloc update_config set_sock set_device get_device_id
create_config_of_socket socket link r =
    let d = get_device_id link in
    elim (r.device_id_to_config d) [
      | some p ↦
          (do
            c ← load p
            update_config (record c { socket = socket; device_id = d })
            set_sock socket p)
            r
      | none ↦
          (do
            p ← alloc (record new_config { socket = socket; device_id = d })
            set_sock socket p
            set_device d p)
            r
    ]

-- CreateConfig(const std::string&)
unfoldable pub create_config : Text → M (Unit {0})
unfolding alloc set_device
create_config d r = elim (r.device_id_to_config d) [
  | some p ↦ some (tt, r)
  | none ↦ (do p ← alloc (record new_config { device_id = d }); set_device d p) r
]

erase_sock : ℕ → M (Unit {0})
erase_sock socket r = some (tt, record r { sock_to_config = put r.sock_to_config socket none })

erase_device : Text → M (Unit {0})
erase_device d r =
    some (tt, record r { device_id_to_config = put_text r.device_id_to_config d none })

-- RemoveConfig
unfoldable pub remove_config : ℕ → M (Unit {0})
unfolding load free erase_sock erase_device
remove_config socket r = elim (r.sock_to_config socket) [
  | none ↦ some (tt, r)
  | some p ↦ (do c ← load p; erase_device c.device_id; free p; erase_sock socket) r
]

-- RemoveUnusedConfig
unfoldable pub remove_unused_config : Text → M (Unit {0})
unfolding load free erase_device
remove_unused_config d r = elim (r.device_id_to_config d) [
  | none ↦ some (tt, r)
  | some p ↦ (do c ← load p; if c.socket == 0 then (do free p; erase_device d) else pure tt) r
]

-- The body that the setters share: read a copy, change it, write it back.
abbrev modify : (SocketConfig → SocketConfig) → Option SocketConfig → M Bool
modify f none = pure false
modify f (some c) = update_config (f c)

-- Connect
unfoldable pub connect : ℕ → M Bool
unfolding get_config_of_socket update_config
connect socket = do c ← get_config_of_socket socket; modify (λ c. record c { connected = true }) c

-- Disconnect(BratislavaSocket*)
unfoldable pub disconnect_of_socket : ℕ → M Bool
unfolding get_config_of_socket update_config
disconnect_of_socket socket = do
  c ← get_config_of_socket socket
  modify (λ c. record c { connected = false }) c

-- Disconnect(const std::string&)
unfoldable pub disconnect : Text → M Bool
unfolding get_config update_config
disconnect d = do c ← get_config d; modify (λ c. record c { connected = false }) c

abbrev connected_or_false : Option SocketConfig → Bool
connected_or_false none = false
connected_or_false (some c) = c.connected

-- IsConnected, both overloads
unfoldable pub is_connected_of_socket : ℕ → M Bool
unfolding get_config_of_socket
is_connected_of_socket socket = do c ← get_config_of_socket socket; pure (connected_or_false c)

unfoldable pub is_connected : Text → M Bool
unfolding get_config
is_connected d = do c ← get_config d; pure (connected_or_false c)

-- AddIP
unfoldable pub add_ip : Text → Text → M Bool
unfolding get_config update_config
add_ip d ip = do c ← get_config d; modify (λ c. record c { ip = ip }) c

abbrev ip_of : Option SocketConfig → Option Text
ip_of none = none
ip_of (some c) = some c.ip

-- GetIP
unfoldable pub get_ip : Text → M (Option Text)
unfolding get_config
get_ip d = do c ← get_config d; pure (ip_of c)

-- AddRemotePort
unfoldable pub add_remote_port : Text → ℤ → M Bool
unfolding get_config update_config
add_remote_port d port =
    if is_neg port
    then pure false
    else (do c ← get_config d; modify (λ c. record c { remote_port = port }) c)

abbrev remote_port_of : Option SocketConfig → ℤ
remote_port_of none = minus_one
remote_port_of (some c) = c.remote_port

-- GetRemotePort
unfoldable pub get_remote_port : Text → M ℤ
unfolding get_config
get_remote_port d = do c ← get_config d; pure (remote_port_of c)
