-- ===== src/Registry/Socket.antt =====
-- Add, Remove and Exists of BratislavaSocketRegistry.cc.
use sensor_lib.Prelude.{
  ℕ, Bool, true, false, not, Option, none, some, List, [], ◌∷◌, ◌++◌, Text, ◌==◌, ◌||◌,
  if◌then◌else◌,
}
use sensor_lib.Types.{Link}
use sensor_lib.Registry.State.{SocketConfig, Registry, M, pure, ◌>>=◌, ◌>>◌}
use sensor_lib.Registry.Config.{
  get_config, create_config_of_socket, remove_config, disconnect_of_socket,
}
use sensor_lib.Registry.Port.{release_local_port_of_socket}

-- `std::find(...) != end`
unfoldable pub contains : ℕ → List ℕ → Bool
contains s [] = false
contains s (t ∷ ts) = t == s || contains s ts

-- `sockets_.erase(it)` at the first occurrence
unfoldable pub erase_first : ℕ → List ℕ → List ℕ
erase_first s [] = []
erase_first s (t ∷ ts) = let rest = t ∷ erase_first s ts in if t == s then ts else rest

push_socket : ℕ → M (Unit {0})
push_socket s r = some (tt, record r { sockets = r.sockets ++ (s ∷ []) })

drop_socket : ℕ → M (Unit {0})
unfolding erase_first
drop_socket s r = some (tt, record r { sockets = erase_first s r.sockets })

-- Add
unfoldable pub add : ℕ → Link → M (Unit {0})
unfolding create_config_of_socket push_socket
add socket link = do create_config_of_socket socket link; push_socket socket

-- Remove
unfoldable pub remove : ℕ → M Bool
unfolding contains release_local_port_of_socket disconnect_of_socket remove_config drop_socket
remove socket r =
    if contains socket r.sockets
    then (do
      release_local_port_of_socket socket
      disconnect_of_socket socket
      remove_config socket
      drop_socket socket
      pure true)
        r
    else some (false, r)

-- Exists(BratislavaSocket*)
unfoldable pub exists_socket : ℕ → Registry → Bool
unfolding contains
exists_socket socket r = contains socket r.sockets

has_socket : Option SocketConfig → Bool
has_socket none = false
has_socket (some c) = not (c.socket == 0)

-- Exists(const std::string&)
unfoldable pub exists : Text → M Bool
unfolding get_config has_socket
exists d = do c ← get_config d; pure (has_socket c)
