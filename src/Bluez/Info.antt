-- ===== src/Bluez/Info.antt =====
-- `bluetoothctl info`: parse_class_property, parse_rssi_property and enrich_device_info of
-- bluez_scanner.c. A shell runs a command: its output and whether it ended with status 0, or none where
-- popen fails.
use sensor_lib.Prelude.{
  ℕ, ◌+◌, ◌-◌, ◌*◌, ◌/◌, ◌%◌, ◌^◌, Bool, true, Option, none, some, [], ◌∷◌, ◌++◌, Text, bytes, ℤ,
  min, ltb, if◌then◌else◌, take, drop,
}
use sensor_lib.Types.{BluetoothDevice, c_str}
use sensor_lib.CText.{skip_space, find, past, strtol, to_int16, copy_string, hex_digit}
use sensor_lib.Bluez.Line.{is_empty, trim_trailing_whitespace}

abbrev pub Shell : Type 0
Shell = Text → Option (Text × Bool)

unfoldable pub output_of : ℕ → Option (Text × Bool) → Option Text
unfolding c_str
output_of size none = none
output_of size (some (out, ok)) = if ok then some (c_str (take (size - 1) out)) else none

-- read_command_output into a buffer of `size` bytes; `none` is the result false
unfoldable pub read_command_output : Shell → ℕ → Text → Option Text
unfolding output_of
read_command_output sh size command = output_of size (sh command)

-- EBluetoothDeviceMajor by its number
unfoldable pub bluetooth_major_from_cod : ℕ → ℕ
bluetooth_major_from_cod cod = let m = cod / 2 ^ 8 % 32 in if ltb m 9 then m else 63

-- The value of a hexadecimal number of digits, and whether a digit stands at the start
unfoldable pub hexadecimal : ℕ → Text → ℕ
unfolding hex_digit
hexadecimal n [] = n
hexadecimal n (c ∷ s) = elim (hex_digit c) [ none ↦ n | some d ↦ hexadecimal (n * 16 + d) s ]

-- strtoul(s, &end, 16) where `s` begins with "0x": at most ULONG_MAX
unfoldable pub strtoul_0x : Text → ℕ
unfolding hexadecimal
strtoul_0x s = min (hexadecimal 0 (drop 2 s)) (2 ^ 64 - 1)

unfoldable pub with_class : ℕ → BluetoothDevice → BluetoothDevice
unfolding bluetooth_major_from_cod
with_class cod d = record d {
  dev_class = cod % 2 ^ 8 ∷ cod / 2 ^ 8 % 2 ^ 8 ∷ cod / 2 ^ 16 % 2 ^ 8 ∷ [];
  major = bluetooth_major_from_cod (cod % 2 ^ 32);
}

unfoldable pub class_at : Option Text → BluetoothDevice → BluetoothDevice
unfolding with_class strtoul_0x
class_at none d = d
class_at (some value) d = with_class (strtoul_0x value) d

unfoldable pub class_in : Option Text → BluetoothDevice → BluetoothDevice
unfolding class_at find
class_in none d = d
class_in (some class_line) d = class_at (find (bytes "0x") class_line) d

-- parse_class_property
unfoldable pub parse_class_property : Text → BluetoothDevice → BluetoothDevice
unfolding class_in find
parse_class_property info d = class_in (find (bytes "\tClass:") info) d

unfoldable pub with_rssi : Option ℤ → BluetoothDevice → BluetoothDevice
unfolding to_int16
with_rssi none d = d
with_rssi (some n) d = record d { rssi = record { value_dbm = to_int16 n; valid = true } }

unfoldable pub rssi_in : Option Text → BluetoothDevice → BluetoothDevice
unfolding with_rssi strtol skip_space
rssi_in none d = d
rssi_in (some line) d = with_rssi (strtol (skip_space (past (bytes "\tRSSI:") line))) d

-- parse_rssi_property
unfoldable pub parse_rssi_property : Text → BluetoothDevice → BluetoothDevice
unfolding rssi_in find
parse_rssi_property info d = rssi_in (find (bytes "\tRSSI:") info) d

-- All that stands behind "\tName:" in the output, as far as it fits
unfoldable pub name_in : Option Text → Text → Text
unfolding trim_trailing_whitespace copy_string skip_space
name_in none name = name
name_in (some line) name =
    if is_empty name
    then trim_trailing_whitespace (copy_string 256 (skip_space (past (bytes "\tName:") line)))
    else name

unfoldable pub enrich_with : Option Text → BluetoothDevice → BluetoothDevice
unfolding name_in parse_class_property parse_rssi_property find
enrich_with none d = d
enrich_with (some info) d =
    parse_rssi_property info
      (parse_class_property info (record d { name = name_in (find (bytes "\tName:") info) d.name }))

abbrev pub info_command : Text → Text
info_command mac = bytes "bluetoothctl info " ++ (mac ++ bytes " 2>/dev/null")

-- enrich_device_info; the command fits in its 128 bytes, and the output has 16 KiB
unfoldable pub enrich_device_info : Shell → BluetoothDevice → BluetoothDevice
unfolding enrich_with read_command_output
enrich_device_info sh d =
    enrich_with (read_command_output sh (16 * 1024) (info_command d.mac_address)) d
