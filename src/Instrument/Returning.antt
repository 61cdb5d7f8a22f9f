-- ===== src/Instrument/Returning.antt =====
-- Every action of instrument_api.c returns, and sets the output length.
use sensor_lib.Instrument.Gps.{gps_get_position}
use sensor_lib.Prelude.{ℕ, ◌≡◌, refl, ap, Bool, true, false, Option, none, some, All, Text}
use sensor_lib.Types.{Status, success, error, not_supported}
use sensor_lib.Os.{Trace}
use sensor_lib.Comms.Lifecycle.{Process}
use sensor_lib.Scanner.Discover.{Netlink, trigger_scan, fetch_scan_results}
use sensor_lib.Scanner.Report.{InRange, wifi_discover_devices-Reports}
use sensor_lib.Instrument.State.{Kernel, Answer}
use sensor_lib.Instrument.Wifi.{scan_answer, find_wireless_interface, discover_at, wifi_discover}
use sensor_lib.Instrument.Action.{
  Action, bluetooth_adapter_info, bluetooth_discover, bluetooth_links, bluetooth_up, bluetooth_on,
  bluetooth_off, bluetooth_scan_on, bluetooth_scan_off, cellular_geolocate, gps_position,
  wifi_my_device, wifi_devices, wifi_links, wifi_up, wifi_on, wifi_off, wifi_scan_on, wifi_scan_off,
  comms_links, simulation_state, Request, maybe_replied, query, switch, discover_links_action,
  links_reply, or_zero, zeroed, with_len, dispatch, instrument_action,
}
use sensor_lib.Instrument.Gps.Ending.{Returned, gps_get_position-Returned}

-- The kernel acknowledges a scan at last, and reports signals in the range of an int16_t.
abbrev pub Acknowledges : Netlink → Type 0
Acknowledges nl =
    ((s : Status) × (trigger_scan nl ≡ some s)) × All InRange (fetch_scan_results nl).1

-- The length that the caller sees, if it gave a pointer to one
abbrev pub HasLen : Bool → Answer → Type 0
HasLen false a = Unit
HasLen true a = (n : ℕ) × (a.output_len ≡ some n)

module _ (k : Kernel) (ends : k.gps_endless ≡ false)
    (acknowledged : (t : Trace) (name : Text) → Acknowledges (k.netlink t name)) where
  discover_at-Returned :
      (s : Status) (name : Text) (t : Trace) → Returned (discover_at k (s, name) t).0
  unfolding discover_at scan_answer
  discover_at-Returned success name t =
      let nl = k.netlink t name in
      let h = acknowledged t name in
      let (d, e, r) = wifi_discover_devices-Reports nl h.0.0 h.0.1 h.1 in (_, ap scan_answer e)
  discover_at-Returned error name t = (_, refl)
  discover_at-Returned not_supported name t = (_, refl)

  wifi_discover-Returned : (out len : Bool) (t : Trace) → Returned (wifi_discover k out len t).0
  unfolding wifi_discover
  wifi_discover-Returned false len t = (_, refl)
  wifi_discover-Returned true false t = (_, refl)
  wifi_discover-Returned true true t =
      let r = find_wireless_interface k t in discover_at-Returned r.0.0 r.0.1 r.1

  maybe-Returned : (g : Process) (o : Option Answer) → Returned o → Returned (maybe_replied g o)
  unfolding maybe_replied
  maybe-Returned g none h = absurd (cc (h.1))
  maybe-Returned g (some a) h = (_, refl)

  dispatch-Returned :
      (a : Action) (r : Request) (g : Process) (t : Trace) → Returned (dispatch k a r g t).0
  unfolding dispatch query switch discover_links_action links_reply
  dispatch-Returned bluetooth_adapter_info r g t = (_, refl)
  dispatch-Returned bluetooth_discover r g t = (_, refl)
  dispatch-Returned bluetooth_links r g t = (_, refl)
  dispatch-Returned bluetooth_up r g t = (_, refl)
  dispatch-Returned bluetooth_on r g t = (_, refl)
  dispatch-Returned bluetooth_off r g t = (_, refl)
  dispatch-Returned bluetooth_scan_on r g t = (_, refl)
  dispatch-Returned bluetooth_scan_off r g t = (_, refl)
  dispatch-Returned cellular_geolocate r g t = (_, refl)
  dispatch-Returned gps_position r g t =
      maybe-Returned g (gps_get_position k r.has_output r.has_len t).0
        (gps_get_position-Returned k ends r.has_output r.has_len t)
  dispatch-Returned wifi_my_device r g t = (_, refl)
  dispatch-Returned wifi_devices r g t =
      maybe-Returned g (wifi_discover k r.has_output r.has_len t).0
        (wifi_discover-Returned r.has_output r.has_len t)
  dispatch-Returned wifi_links r g t = (_, refl)
  dispatch-Returned wifi_up r g t = (_, refl)
  dispatch-Returned wifi_on r g t = (_, refl)
  dispatch-Returned wifi_off r g t = (_, refl)
  dispatch-Returned wifi_scan_on r g t = (_, refl)
  dispatch-Returned wifi_scan_off r g t = (_, refl)
  dispatch-Returned comms_links r g t = (_, refl)
  dispatch-Returned simulation_state r g t = (_, refl)

or_zero-some : (o : Option ℕ) → (n : ℕ) × (or_zero o ≡ some n)
or_zero-some none = (0, refl)
or_zero-some (some n) = (n, refl)

zeroed-HasLen : (b : Bool) (a : Answer) → HasLen b (zeroed b a)
unfolding zeroed
zeroed-HasLen false a = tt
zeroed-HasLen true a = or_zero-some a.output_len

-- If the stream of gpsd ends, and the kernel acknowledges every scan of the Wi-Fi interface at last and
-- reports signals in the range of an int16_t, then an action returns, as far as /sys/class/net can
-- be listed and the Bluetooth scanner returns, and sets the output length if the caller gave a
-- pointer to one.
pub instrument_action-Returned :
    (k : Kernel)
    → k.gps_endless ≡ false
    → ((t : Trace) (name : Text) → Acknowledges (k.netlink t name))
    → (a : Action) (r : Request) (g : Process) (t : Trace)
    → (answer : Answer) × (g' : Process) × ((instrument_action k a r g t).0 ≡ some (answer, g'))
      × HasLen r.has_len answer
unfolding instrument_action with_len
instrument_action-Returned k ends acknowledged a r g t =
    let (x, e) = dispatch-Returned k ends acknowledged a r g t in
    (zeroed r.has_len x.0, x.1, ap (with_len r.has_len) e, zeroed-HasLen r.has_len x.0)
