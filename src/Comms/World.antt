-- ===== src/Comms/World.antt =====
-- What the comms runtime of comms_runtime.cpp is given: the operating system, the file system, the
-- Bluetooth scanner, the address parsers of libc and BlueZ. And which descriptors a trace has open.
use sensor_lib.Prelude.{ℕ, ◌≡◌, Bool, Option, List, [], ◌∷◌, Text, ℤ, pos, ◌==◌, if◌then◌else◌}
use sensor_lib.Types.{BluetoothDevice}
use sensor_lib.Os.{Os, socket_made, closed, accepted, Trace}
use sensor_lib.Comms.Candidates.{Files}

pub record World : Type 0 where
  pub os : Os
  -- the files as they are after a trace
  pub files : Trace → Files
  -- bluetooth_discover_devices_backend: the devices, or an error
  pub bluetooth_devices : Trace → Option (List BluetoothDevice)
  -- whether inet_pton and str2ba accept an address
  pub is_ip : Text → Bool
  pub is_mac : Text → Bool
  -- IP_PKTINFO of the last message, if_indextoname, and the address of getsockname
  pub packet_interface : Trace → Option ℕ
  pub interface_name : ℕ → Option Text
  pub local_address : Trace → ℤ → Option Text

-- 1 if the descriptor is open after the trace, else 0.
abbrev pub opened : ℕ → Trace → ℕ
opened fd [] = 0
opened fd (socket_made (pos f) ∷ t) = if f == fd then 1 else opened fd t
opened fd (accepted (pos f) ∷ t) = if f == fd then 1 else opened fd t
opened fd (closed (pos f) ∷ t) = if f == fd then 0 else opened fd t
opened fd (e ∷ t) = opened fd t

-- socket() fails, or its descriptor is not open already.
abbrev pub FreshSockets : World → Type 0
FreshSockets w = (t : Trace) (fd : ℕ) → w.os.socket t ≡ pos fd → opened fd t ≡ 0
