-- ===== src/Scanner/Report.antt =====
-- What wifi_discover_devices_nl80211 reports.
use sensor_lib.Prelude.{
  ℕ, zero, suc, ◌≤◌, ◌≡◌, refl, ◌≢◌, ◌⊎◌, inl, inr, Bool, true, false, not, ◌||◌, Option, some,
  List, [], ◌∷◌, ℤ, is_neg, ◌==◌, if◌then◌else◌, length, take, length-take, All, arith,
}
use sensor_lib.Types.{
  Status, success, error, not_supported, WifiDevice, wifi_router, copy_string, c_str,
}
use sensor_lib.Scanner.Results.{WifiNetwork}
use sensor_lib.Scanner.Discover.{
  Netlink, Devices, to_dbm, device_with, cons_some, fill, max_devices, refused, report, fetched,
  triggered, trigger_scan, fetch_scan_results, wifi_discover_devices,
}

-- The signal of a network is in the range of an int16_t.
abbrev pub InRange : WifiNetwork → Type 0
InRange net = (dbm : ℤ) × (to_dbm net.signal_mbm ≡ some dbm)

-- The strings of a device fit its arrays, with their zero bytes.
abbrev pub Fits : WifiDevice → Type 0
Fits d = (length d.ssid ≤ 255) × (length d.mac_address ≤ 17) × (d.type ≡ wifi_router)

-- Success with one to 150 devices and their number, or no success and no device.
pub record Reports (d : Devices) : Type 0 where
  pub outcome :
      ((d.status ≡ success) × (1 ≤ length d.devices) × (d.output_len ≡ some (length d.devices)))
      ⊎ ((d.status ≢ success) × (d.devices ≡ []))
  pub bounded : length d.devices ≤ 150
  pub fits : All Fits d.devices

All-take : (n : ℕ) (nets : List WifiNetwork) → All InRange nets → All InRange (take n nets)
All-take zero nets h = tt
All-take (suc n) [] h = tt
All-take (suc n) (x ∷ nets) h = (h.0, All-take n nets h.1)

fill_lem :
    (nets : List WifiNetwork)
    → All InRange nets
    → (ds : List WifiDevice) × (fill nets ≡ some ds) × (length ds ≡ length nets) × All Fits ds
unfolding fill device_with cons_some copy_string
fill_lem [] h = ([], refl, refl, tt)
fill_lem (net ∷ nets) h =
    let (ds, e, n, f) = fill_lem nets h.1 in
    let (dbm, ed) = h.0 in
    let d : WifiDevice = record {
      ssid = copy_string 256 net.ssid;
      mac_address = copy_string 18 net.bssid;
      type = wifi_router;
      rssi = record { value_dbm = dbm; valid = net.has_signal };
    } in
    (
      d ∷ ds,
      rw (e, ed),
      omega (arith, n),
      (
        (
          omega (arith, length-take 255 (c_str net.ssid)),
          omega (arith, length-take 17 (c_str net.bssid)),
          refl,
        ),
        f,
      ),
    )

refused-Reports : (s : Status) → s ≢ success → Reports (refused s)
refused-Reports s ne = record { outcome = inr (ne, refl); bounded = omega arith; fits = tt }

error-ne-success : error ≢ success
error-ne-success = λ h. cc

not_supported-ne-success : not_supported ≢ success
not_supported-ne-success = λ h. cc

abbrev Reported : Option Devices → Type 0
Reported o = (d : Devices) × (o ≡ some d) × Reports d

report-Reports :
    (ds : List WifiDevice) → length ds ≤ 150 → All Fits ds → Reported (report (some ds))
unfolding report
report-Reports [] h f =
    (_, refl, record { outcome = inr (not_supported-ne-success, refl); bounded = h; fits = f })
report-Reports (d ∷ ds) h f =
    (_, refl, record { outcome = inl (refl, omega arith, refl); bounded = h; fits = f })

fetched-Reports : (r : Status × List WifiNetwork) → All InRange r.1 → Reported (fetched r)
unfolding fetched
fetched-Reports (success, nets) h =
    let (ds, e, n, f) = fill_lem (take max_devices nets) (All-take max_devices nets h) in
    rw e (report-Reports ds (omega (arith, n, length-take max_devices nets)) f)
fetched-Reports (error, nets) h = (_, refl, refused-Reports error error-ne-success)
fetched-Reports (not_supported, nets) h =
    (_, refl, refused-Reports not_supported not_supported-ne-success)

triggered-Reports :
    (s : Status) (nl : Netlink)
    → All InRange (fetch_scan_results nl).1
    → Reported (triggered (some s) nl)
unfolding triggered
triggered-Reports success nl h = fetched-Reports (fetch_scan_results nl) h
triggered-Reports error nl h = (_, refl, refused-Reports error error-ne-success)
triggered-Reports not_supported nl h = fetched-Reports (fetch_scan_results nl) h

-- If the trigger of a scan is answered at last and the signals of the networks fit an int16_t, then
-- wifi_discover_devices_nl80211 ends, whatever libnl answers: with success, one to 150 devices and
-- their number, or without success and without devices. The strings of the devices fit their arrays.
pub wifi_discover_devices-Reports :
    (nl : Netlink) (s : Status)
    → trigger_scan nl ≡ some s
    → All InRange (fetch_scan_results nl).1
    → (d : Devices) × (wifi_discover_devices true nl ≡ some d) × Reports d
unfolding wifi_discover_devices
wifi_discover_devices-Reports nl s e h =
    by_guards (nl.ifindex == 0) (not nl.has_socket || not nl.connected) (is_neg nl.nl80211_id)
  where
    by_guards :
        (no_index no_socket no_id : Bool)
        → Reported (
            if no_index
            then some (refused not_supported)
            else if no_socket
            then some (refused error)
            else if no_id
            then some (refused not_supported)
            else triggered (trigger_scan nl) nl)
    by_guards true b c = (_, refl, refused-Reports not_supported not_supported-ne-success)
    by_guards false true c = (_, refl, refused-Reports error error-ne-success)
    by_guards false false true = (_, refl, refused-Reports not_supported not_supported-ne-success)
    by_guards false false false = rw e (triggered-Reports s nl h)
