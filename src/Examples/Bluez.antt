-- ===== src/Examples/Bluez.antt =====
-- The Bluetooth scanners on what bluetoothctl prints of two devices.
use sensor_lib.Prelude.{
  take, ◌≡◌, refl, true, false, none, some, List, [], ◌∷◌, ◌++◌, Text, bytes, pos, if◌then◌else◌,
  text_eq, All, arith,
}
use sensor_lib.Types.{BluetoothDevice, success, error}
use sensor_lib.CText.{is_space}
use sensor_lib.Instrument.State.{failure, bluetooth_devices}
use sensor_lib.Bluez.Line.{
  is_property, looks_like_mac, trim_trailing_whitespace, strip_ansi, parse_scan_line,
}
use sensor_lib.Bluez.Info.{Shell, read_command_output, with_class, enrich_with, info_command}
use sensor_lib.Bluez.Discover.{scan_command, devices_command, bluez_discover}
use sensor_lib.Bluez.Reports.{ScanReport, bluez_discover-Reports}
use sensor_lib.Bluez.Reading.{parse_scan_line-device, enrich_with-name}
use sensor_lib.Bluez.Escapes.{Piece, byte, escape, sent_text, seen_text, strip_ansi-sent_text}

-- A scan shows the first device twice, the second time in colour and with a name.
abbrev scan_output : Text
scan_output =
    bytes "[NEW] Device 00:11:22:33:44:55 RSSI: -60\n"
    ++ (27 ∷ (bytes "[0;92m[CHG] Device 00:11:22:33:44:55 pi\n" ++ bytes "Discovery started\n"))

abbrev info_output : Text
info_output = bytes "\tName: hub\n\tAlias: hub\n"

abbrev shell : Shell
shell command =
    if text_eq command scan_command
    then some (scan_output, true)
    else if text_eq command devices_command
    then some (bytes "Device aa:bb:cc:dd:ee:ff ServiceData\n", true)
    else if text_eq command (info_command (bytes "aa:bb:cc:dd:ee:ff"))
    then some (info_output, true)
    else none

-- The second device is named by all that follows, over the line's end.
shell_test : bluez_discover shell true true ≡ record {
  status = success;
  output = bluetooth_devices (
      record {
        id = 0;
        mac_address = bytes "00:11:22:33:44:55";
        name = bytes "pi";
        dev_class = 0 ∷ 0 ∷ 0 ∷ [];
        major = 63;
        rssi = record { value_dbm = pos 0; valid = false };
      }
      ∷ record {
        id = 1;
        mac_address = bytes "aa:bb:cc:dd:ee:ff";
        name = bytes "hub\n\tAlias: hub";
        dev_class = 0 ∷ 0 ∷ 0 ∷ [];
        major = 63;
        rssi = record { value_dbm = pos 0; valid = false };
      }
      ∷ []);
  output_len = some 2;
}
unfolding bluez_discover text_eq
shell_test = refl

bluez_discover-Reports_example :
    ScanReport shell
      (read_command_output shell 262144 scan_command)
      (bluez_discover shell true true)
    × (bluez_discover shell false true ≡ failure error)
    × (bluez_discover shell true false ≡ failure error)
bluez_discover-Reports_example = bluez_discover-Reports shell true true

abbrev some_device : BluetoothDevice
some_device = record {
  id = 1;
  mac_address = bytes "aa:bb:cc:dd:ee:ff";
  name = [];
  dev_class = [];
  major = 63;
  rssi = record { value_dbm = pos 0; valid = false };
}

blank : All (λ d. is_space d ≡ true) (bytes " ")
unfolding is_space
blank = (refl, tt)

letter : is_space b'h' ≡ false
unfolding is_space
letter = refl

-- The smart phone's class gives the major class PHONE.
phone_test : (with_class 5898764 some_device).major ≡ 2
unfolding with_class
phone_test = refl

abbrev pieces : List Piece
pieces = byte b'o' ∷ escape (bytes "0;1") b'm' ∷ byte b'k' ∷ []

strip_ansi-sent_text_example : strip_ansi (sent_text pieces) ≡ seen_text pieces
strip_ansi-sent_text_example =
    strip_ansi-sent_text pieces
      ((λ e. cc e), (((refl, (refl, (refl, tt))), refl), ((λ e. cc e), tt)))

hub_address : looks_like_mac (bytes "aa:bb:cc:dd:ee:ff") ≡ true
unfolding looks_like_mac
hub_address = refl

hub_trimmed : trim_trailing_whitespace (bytes "hub") ≡ bytes "hub"
unfolding trim_trailing_whitespace
hub_trimmed = refl

parse_scan_line-device_example :
    parse_scan_line (
      bytes "[NEW] "
      ++ (bytes "Device " ++ (bytes "aa:bb:cc:dd:ee:ff" ++ (bytes " " ++ bytes "hub"))))
    ≡ some (record {
      mac_address = bytes "aa:bb:cc:dd:ee:ff";
      name = if is_property (bytes "hub") then [] else bytes "hub";
    })
parse_scan_line-device_example =
    parse_scan_line-device (bytes "[NEW] ") (bytes "aa:bb:cc:dd:ee:ff") (bytes " ") (bytes "ub")
      b'h' (omega arith) hub_address blank letter (omega arith) (omega arith) hub_trimmed

enrich_with-name_example :
    (enrich_with
      (some (bytes "Device x\n" ++ (bytes "\tName:" ++ (bytes " " ++ bytes "hub\n\tAlias: hub"))))
      some_device).name
    ≡ trim_trailing_whitespace (take 255 (bytes "hub\n\tAlias: hub"))
enrich_with-name_example =
    enrich_with-name (bytes "Device x\n") (bytes " ") (bytes "ub\n\tAlias: hub") b'h' some_device
      (omega arith) blank letter refl (omega arith)
