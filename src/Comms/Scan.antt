-- ===== src/Comms/Scan.antt =====
-- scan_bluetooth_links, scan_wifi_links, scan_once, publish_link and discover_links of
-- comms_runtime.cpp. The scan is one thread's; other threads may publish between its steps, which
-- Comms/Threads covers.
use sensor_lib.Prelude.{
  ℕ, Bool, true, Option, none, some, List, [], ◌∷◌, Text, ℤ, is_neg, ◌==◌, if◌then◌else◌, length,
  leb, ◌++◌,
}
use sensor_lib.Types.{
  BluetoothDevice, Link, Instrument, bluetooth, wifi, comms, Status, success, error, not_supported,
}
use sensor_lib.Os.{
  T, Event, done, ◌>>=◌, ◌>>◌, emit, close, bluetooth_found, wifi_found, link_found,
}
use sensor_lib.Comms.Candidates.{Candidate, member, discover_wifi_candidates}
use sensor_lib.Comms.World.{World}
use sensor_lib.Comms.Runtime.{ActiveLink, Runtime}
use sensor_lib.Comms.Handshake.{
  wifi_key, bluetooth_key, attempt_wifi_handshake, attempt_bluetooth_handshake,
}

-- A call of a callback unless it is nullptr
unfoldable pub call : ℕ → Event → T (Unit {0})
call p e = if p == 0 then done tt else emit e

unfoldable pub close_valid : ℤ → T (Unit {0})
close_valid fd = if is_neg fd then done tt else close fd

abbrev pub push : ActiveLink → Runtime → Runtime
push a rt = record rt {
  active_links = rt.active_links ++ a ∷ [];
  active_link_keys = a.key ∷ rt.active_link_keys;
}

-- publish_link
unfoldable pub publish_link : ActiveLink → Runtime → T Runtime
unfolding close_valid call member
publish_link a rt =
    if member a.key rt.active_link_keys then (do close_valid a.link.socket_fd; done rt) else (do
      call rt.callbacks.link_discovered (link_found rt.callbacks.link_discovered a.link)
      done (push a rt))

unfoldable pub publish_some : Option ActiveLink → Runtime → T Runtime
unfolding publish_link
publish_some none rt = done rt
publish_some (some a) rt = publish_link a rt

-- What follows the callback for a device: the handshake, unless the device's key has a link.
unfoldable pub attempt : Text → T (Option ActiveLink) → Runtime → T Runtime
unfolding publish_some member
attempt key handshake rt =
    if member key rt.active_link_keys
    then done rt
    else (do result ← handshake; publish_some result rt)

abbrev pub see : Text → List Text → List Text
see key seen = if member key seen then seen else key ∷ seen

-- `if (seen.insert(key).second) callback = …`, and the call of it
unfoldable pub notify_new : Text → List Text → ℕ → Event → T (Unit {0})
unfolding member call
notify_new key seen p e = if member key seen then done tt else call p e

-- One pass of the loop of scan_bluetooth_links
unfoldable pub scan_bluetooth_device : World → BluetoothDevice → Runtime → T Runtime
unfolding notify_new attempt member
scan_bluetooth_device w device rt = do
  let key = bluetooth_key device.mac_address
  let p = rt.callbacks.bluetooth_device
  notify_new key rt.seen_bluetooth_devices p (bluetooth_found p device)
  attempt key (attempt_bluetooth_handshake w device)
      (record rt { seen_bluetooth_devices = see key rt.seen_bluetooth_devices })

-- One pass of the loop of scan_wifi_links
unfoldable pub scan_wifi_candidate : World → Candidate → Runtime → T Runtime
unfolding notify_new attempt member
scan_wifi_candidate w candidate rt = do
  let key = wifi_key candidate.device.mac_address
  let p = rt.callbacks.wifi_device
  notify_new key rt.seen_wifi_devices p (wifi_found p candidate.device)
  attempt key (attempt_wifi_handshake w candidate)
      (record rt { seen_wifi_devices = see key rt.seen_wifi_devices })

-- A for loop that passes the runtime on
unfoldable pub for_each {ℓ} :
    {A : Type ℓ} → (A → Runtime → T Runtime) → List A → Runtime → T Runtime
for_each f [] rt t = (rt, t)
for_each f (a ∷ as') rt t = let (rt', t') = f a rt t in for_each f as' rt' t'

unfoldable pub scan_devices : World → Option (List BluetoothDevice) → Runtime → T Runtime
unfolding for_each scan_bluetooth_device
scan_devices w none rt t = (rt, t)
scan_devices w (some devices) rt t = for_each (scan_bluetooth_device w) devices rt t

-- scan_bluetooth_links
unfoldable pub scan_bluetooth_links : World → Runtime → T Runtime
unfolding scan_devices
scan_bluetooth_links w rt t = scan_devices w (w.bluetooth_devices t) rt t

-- scan_wifi_links
unfoldable pub scan_wifi_links : World → Runtime → T Runtime
unfolding for_each scan_wifi_candidate discover_wifi_candidates
scan_wifi_links w rt t =
    for_each (scan_wifi_candidate w) (discover_wifi_candidates (w.files t)) rt t

-- scan_once
unfoldable pub scan_once : World → Runtime → T Runtime
unfolding scan_bluetooth_links scan_wifi_links
scan_once w rt = do rt' ← scan_bluetooth_links w rt; scan_wifi_links w rt'

-- The status, the output array, and the output length if it is written
pub record Discovery : Type 0 where
  pub status : Status
  pub links : List Link
  pub output_len : Option ℕ

-- What one link does to the loop of discover_links
pub data Choice : Type 0 where
  skip pick unsupported : Choice

unfoldable pub choose : Instrument → Instrument → Choice
choose comms i = pick
choose bluetooth bluetooth = pick
choose bluetooth _ = skip
choose wifi wifi = pick
choose wifi _ = skip
choose _ i = unsupported

abbrev pub max_links : ℕ
max_links = 20

abbrev found : List Link → Discovery
found out = record { status = success; links = out; output_len = some (length out) }

-- The loop of discover_links, with the links that are in the output array already
unfoldable pub collect : Instrument → List ActiveLink → List Link → Discovery
unfolding choose
collect i [] out = found out
collect i (a ∷ links) out =
    let skipped = collect i links out in
    let picked = collect i links (out ++ a.link ∷ []) in
    elim (choose i a.link.instrument) [
      | skip ↦ skipped
      | unsupported ↦ record { status = not_supported; links = out; output_len = none }
      | pick ↦ if leb max_links (length out) then found out else picked
    ]

-- discover_links; the flags say whether the output pointers are not null
unfoldable pub discover_links : World → Instrument → Bool → Bool → Runtime → T (Discovery × Runtime)
unfolding scan_once collect
discover_links w i true true rt = do rt' ← scan_once w rt; done (collect i rt'.active_links [], rt')
discover_links w i _ _ rt = done (record { status = error; links = []; output_len = none }, rt)
