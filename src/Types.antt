-- ===== src/Types.antt =====
-- The C typedefs of interfaces/c: enums as data types, structs as records. A `char[n]` field holds
-- the string before its terminating zero. The union of `BratislavaLink` is two fields, of which the
-- code reads only the one that `instrumentType` selects.
use sensor_lib.Prelude.{ℕ, ◌-◌, Bool, List, [], ◌∷◌, ◌==◌, if◌then◌else◌, Text, take, ℤ}

-- InstrumentType
pub data Instrument : Type 0 where
  bluetooth cellular gps wifi comms simulation : Instrument

-- CallbackType
pub data CallbackType : Type 0 where
  device_discovered link_discovered link_dropped : CallbackType

-- instrument_api_status_t
pub data Status : Type 0 where
  success error not_supported : Status

pub data LinkType : Type 0 where
  blue green orange : LinkType

pub data WifiDeviceType : Type 0 where
  wifi_unknown wifi_adapter wifi_router : WifiDeviceType

-- BratislavaRssi, with the int16_t as a signed integer
pub record Rssi : Type 0 where
  pub value_dbm : ℤ
  pub valid : Bool

-- BluetoothDeviceInfoBase, with the major class by its number
pub record BluetoothDevice : Type 0 where
  pub id : ℕ
  pub mac_address : Text
  pub name : Text
  pub dev_class : List ℕ
  pub major : ℕ
  pub rssi : Rssi

-- WifiDeviceInfoBase
pub record WifiDevice : Type 0 where
  pub ssid : Text
  pub mac_address : Text
  pub type : WifiDeviceType
  pub rssi : Rssi

-- BratislavaLinkInfo
pub record LinkInfo : Type 0 where
  pub link_id : Text
  pub dev_id : Text
  pub latency : ℕ
  pub throughput : ℕ
  pub message_loss : ℕ
  pub link_type : LinkType

-- BratislavaLink, with the `socketFd` that the comms runtime and the tests use
pub record Link : Type 0 where
  pub link_id : Text
  pub dev_id : Text
  pub latency : ℕ
  pub throughput : ℕ
  pub message_loss : ℕ
  pub link_type : LinkType
  pub instrument : Instrument
  pub socket_fd : ℤ
  pub bluetooth_device : BluetoothDevice
  pub wifi_device : WifiDevice

-- The bytes of a std::string that `c_str()` shows to a C function.
unfoldable pub c_str : Text → Text
c_str [] = []
c_str (c ∷ s) = let rest = c ∷ c_str s in if c == 0 then [] else rest

-- copy_string of comms_runtime.cpp: snprintf of "%s" into a buffer of `size` bytes
unfoldable pub copy_string : ℕ → Text → Text
copy_string size value = take (size - 1) (c_str value)
