-- ===== src/Examples/Scanner.antt =====
-- wifi_scanner_bridge.cpp on one beacon.
use sensor_lib.Prelude.{
  List, ◌++◌, ◌≡◌, refl, true, none, some, [], ◌∷◌, Text, bytes, pos, negsuc, All,
}
use sensor_lib.Types.{success}
use sensor_lib.Scanner.Elements.{found, find_ssid_ie, ssid_bytes}
use sensor_lib.Scanner.Decoding.{Element, encode, IsCut, first_ssid, first_body, find_ssid_ie_lem}
use sensor_lib.Scanner.Discover.{
  Netlink, Devices, trigger_scan, fetch_scan_results, to_dbm, wifi_discover_devices,
}
use sensor_lib.Scanner.Report.{InRange, Reports, wifi_discover_devices-Reports}

-- An element with id 1, the SSID "pi", and another element.
abbrev beacon : Text
beacon = 1 ∷ 1 ∷ 9 ∷ 0 ∷ 2 ∷ b'p' ∷ b'i' ∷ 3 ∷ 1 ∷ 6 ∷ []

beacon_test : find_ssid_ie beacon ≡ found 5 2
unfolding find_ssid_ie
beacon_test = refl

ssid_test : ssid_bytes beacon (find_ssid_ie beacon) ≡ bytes "pi"
unfolding find_ssid_ie ssid_bytes
ssid_test = refl

find_ssid_ie_lem_example :
    (es : List Element) × (tail : Text) × (beacon ≡ encode es ++ tail)
    × IsCut tail
    × (find_ssid_ie beacon ≡ first_ssid 0 es)
    × (ssid_bytes beacon (find_ssid_ie beacon) ≡ first_body es)
find_ssid_ie_lem_example = find_ssid_ie_lem beacon

abbrev pub netlink : Netlink
netlink = record {
  ifindex = 3;
  has_socket = true;
  connected = true;
  nl80211_id = pos 20;
  has_trigger_message = true;
  trigger_sent = pos 0;
  has_trigger_callback = true;
  rounds = record { result = pos 0; finished = true; callback_err = pos 0 } ∷ [];
  has_dump_message = true;
  has_dump_callback = true;
  dump_sent = pos 0;
  dump =
      some (record {
        bssid = some (0 ∷ 17 ∷ 34 ∷ 171 ∷ 205 ∷ 255 ∷ []);
        ies = some beacon;
        signal_mbm = some (negsuc 5499);
      })
      ∷ none
      ∷ [];
  dump_result = pos 0;
}

pub trigger_test : trigger_scan netlink ≡ some success
unfolding trigger_scan
trigger_test = refl

pub signals_fit : All InRange (fetch_scan_results netlink).1
unfolding fetch_scan_results to_dbm
signals_fit = ((negsuc 54, refl), tt)

wifi_discover_devices-Reports_example :
    (d : Devices) × (wifi_discover_devices true netlink ≡ some d) × Reports d
wifi_discover_devices-Reports_example =
    wifi_discover_devices-Reports netlink success trigger_test signals_fit
