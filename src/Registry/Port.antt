-- ===== src/Registry/Port.antt =====
-- The local port pool of BratislavaSocketRegistry.cc. `std::set<int>` is the ascending list of its
-- elements, all of them in [MIN_PORT, MAX_PORT].
use sensor_lib.Prelude.{
  ℕ, zero, suc, ◌+◌, ◌-◌, Bool, true, false, ◌&&◌, Option, none, some, List, [], ◌∷◌, Text, ℤ, pos,
  negsuc, minus_one, ltb, leb, ◌==◌, if◌then◌else◌, eq_ℤ,
}
use sensor_lib.Registry.State.{SocketConfig, Registry, M, pure, ◌>>=◌}
use sensor_lib.Registry.Config.{get_config, get_config_of_socket, update_config}

abbrev pub min_port : ℕ
min_port = 40000

abbrev pub max_port : ℕ
max_port = 40256

-- `std::set::insert`
unfoldable pub insert_port : ℕ → List ℕ → List ℕ
insert_port p [] = p ∷ []
insert_port p (q ∷ qs) =
    let later = q ∷ insert_port p qs in
    if p == q then q ∷ qs else if ltb p q then p ∷ q ∷ qs else later

-- `for (port = first; port < first + n; ++port) insert(port)`
unfoldable pub insert_ports : ℕ → ℕ → List ℕ → List ℕ
unfolding insert_port
insert_ports zero first ports = ports
insert_ports (suc n) first ports = insert_ports n (first + 1) (insert_port first ports)

-- InitializeLocalPorts
unfoldable pub initialize_local_ports : Registry → Registry
initialize_local_ports r = record r {
  available_local_ports = insert_ports (max_port + 1 - min_port) min_port r.available_local_ports;
}

-- The registry that the constructor leaves.
unfoldable pub new_registry : Registry
unfolding initialize_local_ports
new_registry = initialize_local_ports (record {
  sockets = [];
  active_links = [];
  inactive_links = [];
  device_id_to_config = λ _. none;
  sock_to_config = λ _. none;
  available_local_ports = [];
  configs = λ _. none;
  next_config = 1;
})

acquire_from : List ℕ → M ℤ
acquire_from [] r = some (minus_one, r)
acquire_from (p ∷ ps) r = some (pos p, record r { available_local_ports = ps })

-- AcquireLocalPort
unfoldable pub acquire_local_port : M ℤ
unfolding acquire_from
acquire_local_port r = acquire_from r.available_local_ports r

-- ReleaseLocalPort(int)
unfoldable pub release_local_port : ℤ → M Bool
unfolding insert_port
release_local_port (negsuc n) r = some (false, r)
release_local_port (pos p) r =
    if leb min_port p && leb p max_port
    then some (true, record r { available_local_ports = insert_port p r.available_local_ports })
    else some (false, r)

release_port_of : Option SocketConfig → M Bool
unfolding release_local_port
release_port_of none = pure false
release_port_of (some c) =
    if eq_ℤ c.local_port minus_one then pure false else release_local_port c.local_port

-- ReleaseLocalPort(const std::string&)
unfoldable pub release_local_port_of_device : Text → M Bool
unfolding get_config release_port_of
release_local_port_of_device d = do c ← get_config d; release_port_of c

-- ReleaseLocalPort(BratislavaSocket*)
unfoldable pub release_local_port_of_socket : ℕ → M Bool
unfolding get_config_of_socket release_port_of
release_local_port_of_socket socket = do c ← get_config_of_socket socket; release_port_of c

set_local_port : ℤ → Option SocketConfig → M Bool
unfolding update_config
set_local_port port none = pure false
set_local_port port (some c) = update_config (record c { local_port = port })

-- AddLocalPort
unfoldable pub add_local_port : Text → M Bool
unfolding acquire_local_port get_config set_local_port
add_local_port d = do
  port ← acquire_local_port
  if eq_ℤ port minus_one then pure false else (do c ← get_config d; set_local_port port c)

abbrev local_port_of : Option SocketConfig → ℤ
local_port_of none = minus_one
local_port_of (some c) = c.local_port

-- GetLocalPort
unfoldable pub get_local_port : Text → M ℤ
unfolding get_config
get_local_port d = do c ← get_config d; pure (local_port_of c)
