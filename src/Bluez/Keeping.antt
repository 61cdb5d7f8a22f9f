-- ===== src/Bluez/Keeping.antt =====
-- What parse_class_property and parse_rssi_property of bluez_scanner.c leave alone.
use sensor_lib.Prelude.{◌≡◌, refl, ℤ, Option, none, some, Text, bytes}
use sensor_lib.Types.{BluetoothDevice}
use sensor_lib.CText.{find, skip_space, past, strtol}
use sensor_lib.Bluez.Info.{class_in, class_at, rssi_in, with_rssi, with_class}

-- The fields that the class and the signal strength leave alone
abbrev pub Same : BluetoothDevice → BluetoothDevice → Type 0
Same d d' = (d'.mac_address ≡ d.mac_address) × (d'.id ≡ d.id) × (d'.name ≡ d.name)

pub class_in-Same : (o : Option Text) (d : BluetoothDevice) → Same d (class_in o d)
unfolding class_in
class_in-Same none d = (refl, refl, refl)
class_in-Same (some line) d = value (find (bytes "0x") line)
  where
    value : (o : Option Text) → Same d (class_at o d)
    value none = unfold class_at in (refl, refl, refl)
    value (some v) = unfold class_at in unfold with_class in (refl, refl, refl)

pub rssi_in-Same : (o : Option Text) (d : BluetoothDevice) → Same d (rssi_in o d)
unfolding rssi_in
rssi_in-Same none d = (refl, refl, refl)
rssi_in-Same (some line) d = value (strtol (skip_space (past (bytes "\tRSSI:") line)))
  where
    value : (o : Option ℤ) → Same d (with_rssi o d)
    value none = unfold with_rssi in (refl, refl, refl)
    value (some n) = unfold with_rssi in (refl, refl, refl)
