-- ===== src/Instrument/Wifi.antt =====
-- The Wi-Fi queries and switches of instrument_api.c. The flags of an interface are a 16-bit pattern
-- whose lowest bit is IFF_UP.
use sensor_lib.Prelude.{
  ℕ, ◌+◌, ◌-◌, ◌%◌, Bool, true, false, ◌&&◌, Option, none, some, List, [], ◌∷◌, ◌++◌, Text, pos,
  ◌==◌, ltb, if◌then◌else◌, length,
}
use sensor_lib.Types.{Status, success, error, not_supported, WifiDevice, wifi_adapter}
use sensor_lib.Os.{T, done, ◌>>=◌, flags_set}
use sensor_lib.CText.{copy_string}
use sensor_lib.Scanner.Results.{mac_to_string}
use sensor_lib.Scanner.Discover.{Devices, wifi_discover_devices}
use sensor_lib.Instrument.State.{Kernel, Answer, failure, wifi_devices, is_up, with_socket, ask}

-- The name in an ifreq: IFNAMSIZ is 16
abbrev pub if_name : Text → Text
if_name name = copy_string 16 name

-- interface_is_wireless
unfoldable pub interface_is_wireless : Kernel → ℕ → Text → T Bool
interface_is_wireless k fd name = ask fd (λ t. k.is_wireless t (if_name name))

-- get_if_flags; `none` is an error
unfoldable pub get_if_flags : Kernel → ℕ → Text → T (Option ℕ)
get_if_flags k fd name = ask fd (λ t. k.flags t (if_name name))

-- set_if_flags
unfoldable pub set_if_flags : Kernel → ℕ → Text → ℕ → T Status
set_if_flags k fd name flags t = (
  if k.accepts_flags t (if_name name) flags then success else error,
  flags_set (pos fd) (if_name name) flags ∷ t,
)

-- The loop of find_wireless_interface: the first interface that is wireless
unfoldable pub first_wireless : Kernel → ℕ → List Text → T (Option Text)
unfolding interface_is_wireless
first_wireless k fd [] = done none
first_wireless k fd (i ∷ is) = do
  wireless ← interface_is_wireless k fd i
  if wireless then done (some i) else first_wireless k fd is

-- Its status, and the name that it copies
unfoldable pub name_found : Option Text → Status × Text
name_found none = (not_supported, [])
name_found (some i) = (success, if_name i)

unfoldable pub find_in : Kernel → ℕ → Option (List Text) → T (Status × Text)
unfolding first_wireless name_found
find_in k fd none = done (error, [])
find_in k fd (some ifaces) = do i ← first_wireless k fd ifaces; done (name_found i)

-- find_wireless_interface
unfoldable pub find_wireless_interface : Kernel → T (Status × Text)
unfolding find_in with_socket
find_wireless_interface k = with_socket k (error, []) (λ fd t. find_in k fd (k.interfaces t) t)

abbrev pub mac_or_empty : Option (List ℕ) → Text
mac_or_empty none = []
mac_or_empty (some mac) = mac_to_string mac

-- The ESSID buffer has IW_ESSID_MAX_SIZE + 1 = 33 bytes, the last one 0; the SSID has 256.
abbrev pub ssid_or_empty : Option Text → Text
ssid_or_empty none = []
ssid_or_empty (some essid) = copy_string 256 (copy_string 33 essid)

-- The body of wifi_get_interface_info
unfoldable pub describe : Kernel → Text → ℕ → T (Option WifiDevice)
unfolding copy_string
describe k name fd = do
  mac ← ask fd (λ t. k.hardware_address t (if_name name))
  essid ← ask fd (λ t. k.essid t (if_name name))
  done (
      some (record {
        ssid = ssid_or_empty essid;
        mac_address = mac_or_empty mac;
        type = wifi_adapter;
        rssi = record { value_dbm = pos 0; valid = false };
      }))

-- wifi_get_interface_info; `none` is an error
unfoldable pub wifi_get_interface_info : Kernel → Text → T (Option WifiDevice)
unfolding describe with_socket
wifi_get_interface_info k name = with_socket k none (describe k name)

abbrev pub wifi_max_devices : ℕ
wifi_max_devices = 150

abbrev pub append_device : List WifiDevice → Option WifiDevice → List WifiDevice
append_device devices none = devices
append_device devices (some d) = devices ++ d ∷ []

-- One round of the loop of wifi_get_my_device, with the devices that are in the output array
unfoldable pub add_interface : Kernel → ℕ → Text → List WifiDevice → T (List WifiDevice)
unfolding interface_is_wireless wifi_get_interface_info
add_interface k fd i devices = do
  wireless ← interface_is_wireless k fd i
  if wireless
      then (do d ← wifi_get_interface_info k i; done (append_device devices d))
      else done devices

unfoldable pub add_interfaces : Kernel → ℕ → List Text → List WifiDevice → T (List WifiDevice)
unfolding add_interface
add_interfaces k fd [] devices = done devices
add_interfaces k fd (i ∷ is) devices =
    if ltb (length devices) wifi_max_devices
    then (do devices' ← add_interface k fd i devices; add_interfaces k fd is devices')
    else done devices

abbrev pub device_answer : List WifiDevice → Answer
device_answer devices = record {
  status = if length devices == 0 then not_supported else success;
  output = wifi_devices devices;
  output_len = some (length devices);
}

unfoldable pub my_device_in : Kernel → ℕ → Option (List Text) → T Answer
unfolding add_interfaces
my_device_in k fd none = done (failure error)
my_device_in k fd (some ifaces) = do
  devices ← add_interfaces k fd ifaces []
  done (device_answer devices)

-- wifi_get_my_device; the flags say whether the output pointers are not null
unfoldable pub wifi_get_my_device : Kernel → Bool → Bool → T Answer
unfolding my_device_in with_socket
wifi_get_my_device k out len =
    if out && len
    then with_socket k (failure error) (λ fd t. my_device_in k fd (k.interfaces t) t)
    else done (failure error)

-- (flags & IFF_UP) != 0
abbrev pub up_bit : ℕ → Bool
up_bit flags = flags % 2 == 1

abbrev pub up_answer : Option ℕ → Answer
up_answer none = failure error
up_answer (some flags) = record {
  status = success;
  output = is_up (up_bit flags);
  output_len = some 1;
}

unfoldable pub is_up_at : Kernel → Status × Text → T Answer
unfolding get_if_flags with_socket
is_up_at k (success, name) =
    with_socket k (failure error) (λ fd. do flags ← get_if_flags k fd name; done (up_answer flags))
is_up_at k (s, name) = done (failure not_supported)

-- wifi_is_up
unfoldable pub wifi_is_up : Kernel → Bool → Bool → T Answer
unfolding find_wireless_interface is_up_at
wifi_is_up k out len =
    if out && len
    then (do found ← find_wireless_interface k; is_up_at k found)
    else done (failure error)

-- flags |= IFF_UP, or flags &= ~IFF_UP
unfoldable pub with_up : Bool → ℕ → ℕ
with_up true flags = flags + (1 - flags % 2)
with_up false flags = flags - flags % 2

unfoldable pub change_flags : Kernel → Bool → Text → ℕ → Option ℕ → T Status
unfolding with_up set_if_flags
change_flags k up name fd none = done error
change_flags k up name fd (some flags) = set_if_flags k fd name (with_up up flags)

unfoldable pub set_up_at : Kernel → Bool → Status × Text → T Status
unfolding change_flags get_if_flags with_socket
set_up_at k up (success, name) =
    with_socket k error (λ fd. do flags ← get_if_flags k fd name; change_flags k up name fd flags)
set_up_at k up (s, name) = done not_supported

-- wifi_set_up
unfoldable pub wifi_set_up : Kernel → Bool → T Status
unfolding find_wireless_interface set_up_at
wifi_set_up k up = do found ← find_wireless_interface k; set_up_at k up found

unfoldable pub scan_answer : Option Devices → Option Answer
scan_answer none = none
scan_answer (some d) =
    some (record { status = d.status; output = wifi_devices d.devices; output_len = d.output_len })

unfoldable pub discover_at : Kernel → Status × Text → T (Option Answer)
unfolding scan_answer wifi_discover_devices
discover_at k (success, name) t = (scan_answer (wifi_discover_devices true (k.netlink t name)), t)
discover_at k (s, name) t = (some (failure not_supported), t)

-- wifi_discover_devices; `none` is a wait without end in the scanner bridge
unfoldable pub wifi_discover : Kernel → Bool → Bool → T (Option Answer)
unfolding find_wireless_interface discover_at
wifi_discover k out len =
    if out && len
    then (do found ← find_wireless_interface k; discover_at k found)
    else done (some (failure error))
