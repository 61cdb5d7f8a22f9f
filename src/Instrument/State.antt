-- ===== src/Instrument/State.antt =====
-- What src/instrument_api.c is given, what its actions return, and the way they use a descriptor.
use sensor_lib.Prelude.{ℕ, Bool, Option, none, List, ◌∷◌, Text, ℤ, pos, negsuc}
use sensor_lib.Types.{Status, WifiDevice, BluetoothDevice, Link}
use sensor_lib.Os.{Outcome, Trace, T, ◌>>=◌, ◌>>◌, done, make_socket, close, queried}
use sensor_lib.Comms.World.{World}
use sensor_lib.Scanner.Discover.{Netlink}

-- BluetoothAdapterInfoBase
pub record AdapterInfo : Type 0 where
  pub id : ℕ
  pub mac_address : Text
  pub name : Text
  pub flags : ℕ
  pub type : ℕ

-- C_PositionInfo with its C_LLA. A long double is its bit pattern, and 0.0L is 0; the mode is the int
-- that is cast to gps_mode_t.
pub record Position : Type 0 where
  pub lat : ℕ
  pub lon : ℕ
  pub alt : ℕ
  pub timestamp : ℤ
  pub mode : ℤ

-- The array or value that an action leaves in the output data
pub data Output : Type 0 where
  nothing : Output
  adapters : List AdapterInfo → Output
  bluetooth_devices : List BluetoothDevice → Output
  wifi_devices : List WifiDevice → Output
  links : List Link → Output
  is_up : Bool → Output
  position : Position → Output

-- The status, the output data, and the output length if the action wrote it
pub record Answer : Type 0 where
  pub status : Status
  pub output : Output
  pub output_len : Option ℕ

abbrev pub failure : Status → Answer
failure s = record { status = s; output = nothing; output_len = none }

-- The kernel's interfaces, libnl, gpsd and the scanner, as they are after a trace.
pub record Kernel : Type 0 where
  pub world : World
  -- if_nameindex, up to its last entry; `none` is the null pointer
  pub interfaces : Trace → Option (List Text)
  -- SIOCGIWNAME, SIOCGIFFLAGS (16 bits), SIOCSIFFLAGS, SIOCGIFHWADDR and SIOCGIWESSID
  pub is_wireless : Trace → Text → Bool
  pub flags : Trace → Text → Option ℕ
  pub accepts_flags : Trace → Text → ℕ → Bool
  pub hardware_address : Trace → Text → Option (List ℕ)
  pub essid : Trace → Text → Option Text
  -- whether socket(AF_BLUETOOTH) would fail by EAFNOSUPPORT; HCIGETDEVLIST for ten ids at most,
  -- HCIGETDEVINFO with the address as ba2str prints it, HCIDEVUP and HCIDEVDOWN
  pub lacks_bluetooth : Trace → Bool
  pub adapter_ids : Trace → Option (List ℕ)
  pub adapter_info : Trace → ℕ → Option AdapterInfo
  pub power : Trace → Bool → ℕ → Outcome
  -- bluetooth_discover_devices_backend: the adapter, the input length and the output pointers
  pub backend : Option ℕ → ℕ → Bool → Bool → Trace → Answer
  pub netlink : Trace → Text → Netlink
  -- strtold, and strptime with timegm; `none` where they read nothing
  pub strtold : Text → Option ℕ
  pub read_time : Text → Option ℤ
  -- time(NULL), and the bytes that gpsd will send, in pieces, before recv fails or, if it is endless,
  -- before it sends for ever what holds no report and leaves no line too long
  pub time : Trace → ℤ
  pub gps_stream : Trace → List Text
  pub gps_endless : Bool

-- The descriptor that socket() returned: -1 ends with `refused`, another is used by `body` and closed
unfoldable pub with_descriptor : {A : Type 0} → A → (ℕ → T A) → ℤ → T A
with_descriptor refused body (negsuc n) = done refused
with_descriptor refused body (pos fd) = do result ← body fd; close (pos fd); done result

-- open_inet_dgram_socket, or another socket(), and its use
unfoldable pub with_socket : {A : Type 0} → Kernel → A → (ℕ → T A) → T A
unfolding with_descriptor
with_socket k refused body = do fd ← make_socket k.world.os; with_descriptor refused body fd

-- ioctl(fd, ...), whose answer is a function of the trace
abbrev pub ask : {A : Type 0} → ℕ → (Trace → A) → T A
ask fd q t = (q t, queried (pos fd) ∷ t)
