-- ===== src/Bluez/Discover.antt =====
-- bluetooth_discover_devices_backend of bluez_scanner.c.
use sensor_lib.Prelude.{
  ℕ, ◌+◌, ◌*◌, ◌%◌, ◌^◌, Bool, false, ◌&&◌, Option, none, some, List, [], ◌∷◌, Text, bytes, pos,
  if◌then◌else◌, length,
}
use sensor_lib.Types.{success, error, BluetoothDevice}
use sensor_lib.CText.{copy_string}
use sensor_lib.Bluez.Line.{ScanEntry}
use sensor_lib.Bluez.Output.{parse_scan_output}
use sensor_lib.Bluez.Info.{Shell, read_command_output, enrich_device_info}
use sensor_lib.Instrument.State.{Answer, failure, bluetooth_devices}

abbrev pub scan_command : Text
scan_command = bytes "bluetoothctl --timeout 6 scan on 2>/dev/null"

abbrev pub devices_command : Text
devices_command = bytes "bluetoothctl --timeout 5 devices 2>/dev/null"

unfoldable pub append_known : Option Text → List ScanEntry → List ScanEntry
unfolding parse_scan_output
append_known none es = es
append_known (some output) es = parse_scan_output output es

-- append_known_devices
unfoldable pub append_known_devices : Shell → List ScanEntry → List ScanEntry
unfolding append_known read_command_output
append_known_devices sh es = append_known (read_command_output sh (16 * 1024) devices_command) es

-- A device of the output array before it is enriched
unfoldable pub device_of : ℕ → ScanEntry → BluetoothDevice
unfolding copy_string
device_of i e = record {
  id = i % 2 ^ 16;
  mac_address = copy_string 18 e.mac_address;
  name = copy_string 256 e.name;
  dev_class = 0 ∷ 0 ∷ 0 ∷ [];
  major = 63;
  rssi = record { value_dbm = pos 0; valid = false };
}

-- The loop that fills the output array
unfoldable pub devices_from : Shell → ℕ → List ScanEntry → List BluetoothDevice
unfolding device_of enrich_device_info
devices_from sh i [] = []
devices_from sh i (e ∷ es) = enrich_device_info sh (device_of i e) ∷ devices_from sh (i + 1) es

abbrev pub scanned : Shell → List ScanEntry → Answer
scanned sh es = record {
  status = success;
  output = bluetooth_devices (devices_from sh 0 es);
  output_len = some (length es);
}

unfoldable pub discover_with : Shell → Option Text → Answer
unfolding append_known_devices parse_scan_output devices_from
discover_with sh none = failure error
discover_with sh (some output) = scanned sh (append_known_devices sh (parse_scan_output output []))

-- bluetooth_discover_devices_backend; the input is not used, and the flags say whether the output
-- pointers are not null
unfoldable pub bluez_discover : Shell → Bool → Bool → Answer
unfolding discover_with read_command_output
bluez_discover sh out len =
    if out && len
    then discover_with sh (read_command_output sh (256 * 1024) scan_command)
    else failure error
