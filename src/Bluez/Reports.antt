-- ===== src/Bluez/Reports.antt =====
-- What the BlueZ scanner reports.
use sensor_lib.Prelude.{
  ℕ, ◌+◌, ◌%◌, ◌^◌, ◌≡◌, refl, ◌∙◌, ap, ap₂, Bool, true, false, Option, none, some, List, [], ◌∷◌,
  arith, Text, bytes, length, All,
}
use sensor_lib.Types.{success, error, BluetoothDevice}
use sensor_lib.CText.{find, copy_string}
use sensor_lib.Instrument.State.{Answer, bluetooth_devices, failure}
use sensor_lib.Bluez.Line.{ScanEntry, looks_like_mac}
use sensor_lib.Bluez.Output.{tokens, parse_scan_output}
use sensor_lib.Bluez.Addresses.{macs, add_lines, macs-parse_lines}
use sensor_lib.Bluez.Info.{
  Shell, read_command_output, parse_class_property, parse_rssi_property, class_in, name_in,
  info_command, enrich_with, enrich_device_info,
}
use sensor_lib.Bluez.Discover.{
  append_known, append_known_devices, scan_command, devices_command, device_of, devices_from,
  scanned, discover_with, bluez_discover,
}
use sensor_lib.Bluez.Keeping.{class_in-Same, rssi_in-Same}
use sensor_lib.Bluez.Scans.{IsScan, add_lines-IsScan}

-- What `bluetoothctl info` does not change
abbrev Placed : BluetoothDevice → BluetoothDevice → Type 0
Placed d d' = (d'.mac_address ≡ d.mac_address) × (d'.id ≡ d.id)

enrich_with-Placed : (o : Option Text) (d : BluetoothDevice) → Placed d (enrich_with o d)
unfolding enrich_with parse_class_property parse_rssi_property
enrich_with-Placed none d = (refl, refl)
enrich_with-Placed (some info) d =
    let named = record d { name = name_in (find (bytes "\tName:") info) d.name } in
    let classed = class_in (find (bytes "\tClass:") info) named in
    let a = class_in-Same (find (bytes "\tClass:") info) named in
    let b = rssi_in-Same (find (bytes "\tRSSI:") info) classed in (b.0 ∙ a.0, b.1 ∙ a.1)

enrich_device_info-Placed : (sh : Shell) (d : BluetoothDevice) → Placed d (enrich_device_info sh d)
unfolding enrich_device_info
enrich_device_info-Placed sh d =
    enrich_with-Placed (read_command_output sh 16384 (info_command d.mac_address)) d

abbrev pub addresses_of : List BluetoothDevice → List Text
addresses_of [] = []
addresses_of (d ∷ ds) = d.mac_address ∷ addresses_of ds

-- The ids are the positions, from `i`.
abbrev pub Numbered : ℕ → List BluetoothDevice → Type 0
Numbered i [] = Unit
Numbered i (d ∷ ds) = (d.id ≡ i % 2 ^ 16) × Numbered (i + 1) ds

devices_from-Numbered :
    (sh : Shell) (i : ℕ) (es : List ScanEntry) → Numbered i (devices_from sh i es)
unfolding devices_from
devices_from-Numbered sh i [] = tt
devices_from-Numbered sh i (e ∷ es) = (
  unfold device_of in (enrich_device_info-Placed sh (device_of i e)).1,
  devices_from-Numbered sh (i + 1) es,
)

addresses_of-devices_from :
    (sh : Shell) (i : ℕ) (es : List ScanEntry)
    → All (λ m. (looks_like_mac m ≡ true) × (copy_string 18 m ≡ m)) (macs es)
    → addresses_of (devices_from sh i es) ≡ macs es
unfolding devices_from
addresses_of-devices_from sh i [] h = refl
addresses_of-devices_from sh i (e ∷ es) h =
    ap₂ ◌∷◌ ((enrich_device_info-Placed sh (device_of i e)).0 ∙ unfold device_of in h.0.1)
      (addresses_of-devices_from sh (i + 1) es h.1)

-- The addresses of `bluetoothctl devices`, if it ran
abbrev pub add_known : Option Text → List Text → List Text
add_known none ms = ms
add_known (some output) ms = add_lines (tokens output) ms

append_known-macs :
    (o : Option Text) (es : List ScanEntry) → macs (append_known o es) ≡ add_known o (macs es)
unfolding append_known parse_scan_output
append_known-macs none es = refl
append_known-macs (some output) es = macs-parse_lines (tokens output) es

add_known-IsScan : (o : Option Text) (ms : List Text) → IsScan ms → IsScan (add_known o ms)
add_known-IsScan none ms s = s
add_known-IsScan (some output) ms s = add_lines-IsScan (tokens output) ms s

-- A report of the devices with these addresses
abbrev pub Reported : Answer → List Text → Type 0
Reported a ms =
    (ds : List BluetoothDevice) × (a
      ≡ record { status = success; output = bluetooth_devices ds; output_len = some (length ds) })
    × (addresses_of ds ≡ ms)
    × Numbered 0 ds

abbrev pub ScanReport : Shell → Option Text → Answer → Type 0
ScanReport sh none a = a ≡ failure error
ScanReport sh (some output) a =
    let ms =
      add_known (read_command_output sh 16384 devices_command) (add_lines (tokens output) []) in
    IsScan ms × Reported a ms

length-devices_from :
    (sh : Shell) (i : ℕ) (es : List ScanEntry) → length (devices_from sh i es) ≡ length es
unfolding devices_from
length-devices_from sh i [] = refl
length-devices_from sh i (e ∷ es) = omega (arith, length-devices_from sh (i + 1) es)

scanned-Reported :
    (sh : Shell) (es : List ScanEntry) (ms : List Text)
    → macs es ≡ ms
    → IsScan ms
    → Reported (scanned sh es) ms
scanned-Reported sh es ms e s = (
  devices_from sh 0 es,
  rw (length-devices_from sh 0 es),
  addresses_of-devices_from sh 0 es (rw e s.addresses) ∙ e,
  devices_from-Numbered sh 0 es,
)

discover_with-ScanReport : (sh : Shell) (o : Option Text) → ScanReport sh o (discover_with sh o)
unfolding discover_with append_known_devices
discover_with-ScanReport sh none = refl
discover_with-ScanReport sh (some output) =
    let first = parse_scan_output output [] in
    let known = read_command_output sh 16384 devices_command in
    let e : macs (append_known known first) ≡ add_known known (add_lines (tokens output) []) =
      append_known-macs known first
      ∙ ap (add_known known) (unfold parse_scan_output in macs-parse_lines (tokens output) []) in
    let s =
      add_known-IsScan known (add_lines (tokens output) [])
        (add_lines-IsScan (tokens output) [] none_yet) in
    (s, scanned-Reported sh (append_known known first) _ e s)
  where
    none_yet : IsScan []
    none_yet = record { distinct = tt; within = omega arith; addresses = tt }

-- The BlueZ scanner with output pointers fails if the scan command does, and else succeeds with one
-- device for each address that the scan and then the list of known devices show, in that order:
-- 150 at most, all of them MAC addresses, none twice, numbered from 0, with their number as output
-- length; without an output pointer it fails.
pub bluez_discover-Reports :
    (sh : Shell) (out len : Bool)
    → ScanReport sh (read_command_output sh 262144 scan_command) (bluez_discover sh true true)
      × (bluez_discover sh false len ≡ failure error)
      × (bluez_discover sh out false ≡ failure error)
unfolding bluez_discover
bluez_discover-Reports sh out len =
    (discover_with-ScanReport sh (read_command_output sh 262144 scan_command), refl, ground arith)
