-- ===== src/Examples/Api.antt =====
-- BratislavaSocket.cc over Wi-Fi adapters.
use sensor_lib.Prelude.{
  ◌∷◌, bytes, ℕ, true, [], length, ◌≡◌, refl, ◌≢◌, ap, none, some, ◌==◌, if◌then◌else◌, arith,
}
use sensor_lib.Os.{no_error}
use sensor_lib.Registry.Port.{initialize_local_ports, new_registry}
use sensor_lib.Registry.Config.{get_device_id}
use sensor_lib.Adapter.Bluetooth.State.{first_byte}
use sensor_lib.Api.Interface.{BaseAdapter, Sock, Api}
use sensor_lib.Api.WifiOps.{WifiSocket, wifi_ops, wifi_ops-Laws}
use sensor_lib.Api.Connecting.{Connected, bratislava_conn-Connected}
use sensor_lib.Api.Calls.{bratislava_socket, bratislava_conn}
use sensor_lib.Api.Destroyed.{Destroys, destroy-Destroys}
use sensor_lib.Registry.Socket.{contains, exists_socket}
use sensor_lib.Api.Destroy.{cleanup}
use sensor_lib.Api.Emptied.{Lives, IsLive, cleanup-IsLive}
use sensor_lib.Api.Living.{conn, send, destroy, disconnect, run, run-IsLive}
use sensor_lib.Api.Twice.{second_socket_is_new}
use sensor_lib.Examples.Registry.{
  link_a, new_registry-IsValid, no_socket, no_device, one, one-IsValid, one-Known, one-Distinct,
  one-has_seven,
}
use sensor_lib.Examples.Adapters.{os, net, adapter, net-HasDevice}

abbrev ops : BaseAdapter WifiSocket
ops = wifi_ops os net (λ t e. e) (λ b link e. (e, (adapter, [])))

abbrev sock : Sock WifiSocket
sock = record { link = link_a; adapter = (adapter, []) }

-- The registry has the socket 7.
abbrev seven : Api WifiSocket
seven = record {
  registry = one;
  socks = λ b. if b == 7 then some sock else none;
  next_sock = 8;
  errno = no_error;
}

destroy-Destroys_example : Destroys ops 7 seven
destroy-Destroys_example =
    destroy-Destroys ops 7 seven sock one-IsValid one-Distinct (λ h. omega arith) one-has_seven
      one-Known refl

bratislava_conn-Connected_example : Connected 7 sock seven (bratislava_conn ops 7 seven)
bratislava_conn-Connected_example =
    bratislava_conn-Connected
      (wifi_ops-Laws os net (λ t e. e) (λ b link e. (e, (adapter, []))) net-HasDevice) 7 sock seven
      (λ h. omega arith) one-has_seven one-IsValid one-Known refl

seven-Lives : (b : ℕ) → exists_socket b one ≡ true → Lives seven b
unfolding new_registry initialize_local_ports exists_socket contains
seven-Lives b e = record {
  nonzero = λ h. ground (arith, e);
  address = 1;
  points = ground (arith, e);
  object = sock;
  holds = ground (arith, e);
}

seven-IsLive : IsLive seven
seven-IsLive = record { valid = one-IsValid; distinct = one-Distinct; lives = seven-Lives }

cleanup-IsLive_example :
    (t : Api WifiSocket) × (cleanup ops seven ≡ some (tt, t))
    × IsLive t
    × (length t.registry.sockets ≡ 0)
cleanup-IsLive_example = cleanup-IsLive ops seven seven-IsLive

run-IsLive_example :
    (t : Api WifiSocket) × (run ops
        (conn 7 ∷ send 7 (bytes "hi") ∷ disconnect 7 ∷ destroy 7 ∷ send 7 [] ∷ [])
        seven
      ≡ some t)
    × IsLive t
run-IsLive_example =
    run-IsLive (wifi_ops-Laws os net (λ t e. e) (λ b link e. (e, (adapter, []))) net-HasDevice)
      (conn 7 ∷ send 7 (bytes "hi") ∷ disconnect 7 ∷ destroy 7 ∷ send 7 [] ∷ []) seven seven-IsLive

abbrev fresh : Api WifiSocket
fresh = record { registry = new_registry; socks = λ b. none; next_sock = 7; errno = no_error }

id_differs : get_device_id link_a ≢ link_a.link_id
unfolding get_device_id
id_differs = λ h. let e : 65 ≡ 119 = ap first_byte h in omega (arith, e)

second_socket_is_new_example :
    (s1 s2 : Api WifiSocket) × (bratislava_socket ops link_a fresh ≡ some (7, s1))
    × (bratislava_socket ops link_a s1 ≡ some (8, s2))
    × (s2.registry.sock_to_config 7 ≡ some new_registry.next_config)
    × (s2.registry.sock_to_config 8 ≡ some new_registry.next_config)
second_socket_is_new_example =
    second_socket_is_new ops link_a fresh new_registry-IsValid (λ h. omega arith) (no_socket 7)
      (no_socket 8) (no_device (get_device_id link_a)) (no_device link_a.link_id) id_differs refl
