-- ===== src/Scanner/Discover.antt =====
-- wifi_discover_devices_nl80211 of wifi_scanner_bridge.cpp. libnl and the kernel are parameters.
use sensor_lib.Prelude.{
  ℕ, ◌+◌, ◌-◌, ◌/◌, Bool, true, false, not, ◌||◌, Option, none, some, List, [], ◌∷◌, ℤ, pos, negsuc,
  is_neg, ◌==◌, leb, if◌then◌else◌, length, take,
}
use sensor_lib.Types.{Status, success, error, not_supported, WifiDevice, wifi_router, copy_string}
use sensor_lib.Scanner.Results.{WifiNetwork, Bss, scan_result_handler}

-- One nl_recvmsgs: its result, whether a callback set `done`, and the error that a callback stored
pub record Round : Type 0 where
  pub result : ℤ
  pub finished : Bool
  pub callback_err : ℤ

-- The answers of libnl. `rounds` are those of the scan's acknowledgement; `dump` are the messages
-- that the last nl_recvmsgs hands to the handler, and `dump_result` its result.
pub record Netlink : Type 0 where
  pub ifindex : ℕ
  pub has_socket : Bool
  pub connected : Bool
  pub nl80211_id : ℤ
  pub has_trigger_message : Bool
  pub trigger_sent : ℤ
  pub has_trigger_callback : Bool
  pub rounds : List Round
  pub has_dump_message : Bool
  pub has_dump_callback : Bool
  pub dump_sent : ℤ
  pub dump : List (Option Bss)
  pub dump_result : ℤ

-- EPERM, EACCES, EOPNOTSUPP, ENODEV and EINVAL
unfoldable pub is_unsupported : ℕ → Bool
is_unsupported e = e == 1 || e == 13 || e == 95 || e == 19 || e == 22

-- translate_nl_error
unfoldable pub translate_nl_error : ℤ → Status
unfolding is_unsupported
translate_nl_error (pos e) = error
translate_nl_error (negsuc e) = if is_unsupported (e + 1) then not_supported else error

is_zero : ℤ → Bool
is_zero (pos n) = n == 0
is_zero (negsuc n) = false

-- The loop of trigger_scan, over the rounds that the kernel answers. `none` is a wait without end.
unfoldable pub await_ack : List Round → Option Status
unfolding translate_nl_error is_zero
await_ack [] = none
await_ack (r ∷ rs) =
    let later = await_ack rs in
    if is_neg r.result
    then some (translate_nl_error r.result)
    else if not (is_zero r.callback_err)
    then some (translate_nl_error r.callback_err)
    else if r.finished
    then some success
    else later

-- trigger_scan
unfoldable pub trigger_scan : Netlink → Option Status
unfolding await_ack translate_nl_error
trigger_scan nl =
    if not nl.has_trigger_message
    then some error
    else if is_neg nl.trigger_sent
    then some (translate_nl_error nl.trigger_sent)
    else if not nl.has_trigger_callback
    then some error
    else await_ack nl.rounds

-- The handler, message by message
unfoldable pub handle_all : List (Option Bss) → List WifiNetwork → List WifiNetwork
unfolding scan_result_handler
handle_all [] networks = networks
handle_all (m ∷ ms) networks = handle_all ms (scan_result_handler m networks)

-- fetch_scan_results, with the networks that it leaves
unfoldable pub fetch_scan_results : Netlink → Status × List WifiNetwork
unfolding handle_all translate_nl_error
fetch_scan_results nl =
    if not nl.has_dump_message || not nl.has_dump_callback
    then (error, [])
    else if is_neg nl.dump_sent
    then (translate_nl_error nl.dump_sent, [])
    else if is_neg nl.dump_result
    then (translate_nl_error nl.dump_result, handle_all nl.dump [])
    else (success, handle_all nl.dump [])

-- The signal in dBm: hundredths, cut towards zero. The cast to int16_t is undefined outside its
-- range; `none` says so.
unfoldable pub to_dbm : ℤ → Option ℤ
to_dbm (pos n) = if leb (n / 100) 32767 then some (pos (n / 100)) else none
to_dbm (negsuc n) =
    let dbm = (n + 1) / 100 in
    if dbm == 0 then some (pos 0) else if leb dbm 32768 then some (negsuc (dbm - 1)) else none

unfoldable pub device_with : WifiNetwork → Option ℤ → Option WifiDevice
device_with net none = none
device_with net (some dbm) = some (record {
  ssid = copy_string 256 net.ssid;
  mac_address = copy_string 18 net.bssid;
  type = wifi_router;
  rssi = record { value_dbm = dbm; valid = net.has_signal };
})

unfoldable pub cons_some : Option WifiDevice → Option (List WifiDevice) → Option (List WifiDevice)
cons_some (some d) (some ds) = some (d ∷ ds)
cons_some _ _ = none

-- The loop that fills the output array
unfoldable pub fill : List WifiNetwork → Option (List WifiDevice)
unfolding to_dbm device_with cons_some
fill [] = some []
fill (net ∷ nets) = let rest = fill nets in cons_some (device_with net (to_dbm net.signal_mbm)) rest

abbrev pub max_devices : ℕ
max_devices = 150

pub record Devices : Type 0 where
  pub status : Status
  pub devices : List WifiDevice
  pub output_len : Option ℕ

abbrev pub refused : Status → Devices
refused s = record { status = s; devices = []; output_len = none }

unfoldable pub report : Option (List WifiDevice) → Option Devices
report none = none
report (some []) = some (record { status = not_supported; devices = []; output_len = some 0 })
report (some (d ∷ ds)) =
    some (record { status = success; devices = d ∷ ds; output_len = some (length (d ∷ ds)) })

unfoldable pub fetched : Status × List WifiNetwork → Option Devices
unfolding report fill
fetched (success, networks) = report (fill (take max_devices networks))
fetched (s, networks) = some (refused s)

unfoldable pub triggered : Option Status → Netlink → Option Devices
unfolding fetched fetch_scan_results
triggered none nl = none
triggered (some error) nl = some (refused error)
triggered (some s) nl = fetched (fetch_scan_results nl)

-- wifi_discover_devices_nl80211; the flag says whether no argument is null. `none` is a wait without
-- end or an undefined conversion.
unfoldable pub wifi_discover_devices : Bool → Netlink → Option Devices
unfolding triggered trigger_scan
wifi_discover_devices false nl = some (refused error)
wifi_discover_devices true nl =
    if nl.ifindex == 0
    then some (refused not_supported)
    else if not nl.has_socket || not nl.connected
    then some (refused error)
    else if is_neg nl.nl80211_id
    then some (refused not_supported)
    else triggered (trigger_scan nl) nl
