-- ===== src/Instrument/Descriptors.antt =====
-- The actions of instrument_api.c, those of the comms runtime apart, leave no descriptor open.
mod Quiet
mod WifiQuiet
mod HciQuiet
mod GpsQuiet
use sensor_lib.Prelude.{ℕ, ◌≡◌, refl, ◌≢◌, Bool, true, false, Option, none, some}
use sensor_lib.Os.{Trace}
use sensor_lib.Comms.World.{opened, FreshSockets}
use sensor_lib.Comms.Lifecycle.{Process}
use sensor_lib.Instrument.State.{Kernel, Answer}
use sensor_lib.Instrument.Wifi.{wifi_discover}
use sensor_lib.Instrument.Gps.{gps_get_position}
use sensor_lib.Instrument.Action.{
  Action, bluetooth_adapter_info, bluetooth_discover, bluetooth_links, bluetooth_up, bluetooth_on,
  bluetooth_off, bluetooth_scan_on, bluetooth_scan_off, cellular_geolocate, gps_position,
  wifi_my_device, wifi_devices, wifi_links, wifi_up, wifi_on, wifi_off, wifi_scan_on, wifi_scan_off,
  comms_links, simulation_state, Request, Reply, maybe_replied, query, switch, with_len, dispatch,
  instrument_action,
}
use WifiQuiet.{wifi_get_my_device-Quiet, wifi_is_up-Quiet, wifi_set_up-Quiet, wifi_discover-Quiet}
use HciQuiet.{bluetooth_get_adapter_info-Quiet, bluetooth_is_up-Quiet, bluetooth_set_up-Quiet}
use GpsQuiet.{gps_get_position-Quiet}

dispatch-opened :
    (k : Kernel)
    → FreshSockets k.world
    → (a : Action) (r : Request) (g : Process) (t : Trace) (x : ℕ) → a ≢ bluetooth_links
    → a ≢ wifi_links
    → a ≢ comms_links
    → opened x (dispatch k a r g t).1 ≡ opened x t
unfolding dispatch query switch
dispatch-opened k fresh bluetooth_adapter_info r g t x no_bt no_wifi no_comms =
    bluetooth_get_adapter_info-Quiet k fresh r.has_output r.has_len t x
dispatch-opened k fresh bluetooth_discover r g t x no_bt no_wifi no_comms = refl
dispatch-opened k fresh bluetooth_links r g t x no_bt no_wifi no_comms = absurd (no_bt refl)
dispatch-opened k fresh bluetooth_up r g t x no_bt no_wifi no_comms =
    bluetooth_is_up-Quiet k fresh r.input r.input_len r.has_output r.has_len t x
dispatch-opened k fresh bluetooth_on r g t x no_bt no_wifi no_comms =
    bluetooth_set_up-Quiet k fresh r.input r.input_len true t x
dispatch-opened k fresh bluetooth_off r g t x no_bt no_wifi no_comms =
    bluetooth_set_up-Quiet k fresh r.input r.input_len false t x
dispatch-opened k fresh bluetooth_scan_on r g t x no_bt no_wifi no_comms = refl
dispatch-opened k fresh bluetooth_scan_off r g t x no_bt no_wifi no_comms = refl
dispatch-opened k fresh cellular_geolocate r g t x no_bt no_wifi no_comms = refl
dispatch-opened k fresh gps_position r g t x no_bt no_wifi no_comms =
    gps_get_position-Quiet k fresh r.has_output r.has_len t x
dispatch-opened k fresh wifi_my_device r g t x no_bt no_wifi no_comms =
    wifi_get_my_device-Quiet k fresh r.has_output r.has_len t x
dispatch-opened k fresh wifi_devices r g t x no_bt no_wifi no_comms =
    wifi_discover-Quiet k fresh r.has_output r.has_len t x
dispatch-opened k fresh wifi_links r g t x no_bt no_wifi no_comms = absurd (no_wifi refl)
dispatch-opened k fresh wifi_up r g t x no_bt no_wifi no_comms =
    wifi_is_up-Quiet k fresh r.has_output r.has_len t x
dispatch-opened k fresh wifi_on r g t x no_bt no_wifi no_comms = wifi_set_up-Quiet k fresh true t x
dispatch-opened k fresh wifi_off r g t x no_bt no_wifi no_comms =
    wifi_set_up-Quiet k fresh false t x
dispatch-opened k fresh wifi_scan_on r g t x no_bt no_wifi no_comms = refl
dispatch-opened k fresh wifi_scan_off r g t x no_bt no_wifi no_comms = refl
dispatch-opened k fresh comms_links r g t x no_bt no_wifi no_comms = absurd (no_comms refl)
dispatch-opened k fresh simulation_state r g t x no_bt no_wifi no_comms = refl

-- The process of a reply, if there is a reply
abbrev pub Leaves : Process → Reply → Type 0
Leaves g none = Unit
Leaves g (some (a, g')) = g' ≡ g

maybe_replied-process : (g : Process) (o : Option Answer) → Leaves g (maybe_replied g o)
unfolding maybe_replied
maybe_replied-process g none = tt
maybe_replied-process g (some a) = refl

dispatch-process :
    (k : Kernel) (a : Action) (r : Request) (g : Process) (t : Trace)
    → a ≢ bluetooth_links
    → a ≢ wifi_links
    → a ≢ comms_links
    → Leaves g (dispatch k a r g t).0
unfolding dispatch query switch
dispatch-process k bluetooth_adapter_info r g t no_bt no_wifi no_comms = refl
dispatch-process k bluetooth_discover r g t no_bt no_wifi no_comms = refl
dispatch-process k bluetooth_links r g t no_bt no_wifi no_comms = absurd (no_bt refl)
dispatch-process k bluetooth_up r g t no_bt no_wifi no_comms = refl
dispatch-process k bluetooth_on r g t no_bt no_wifi no_comms = refl
dispatch-process k bluetooth_off r g t no_bt no_wifi no_comms = refl
dispatch-process k bluetooth_scan_on r g t no_bt no_wifi no_comms = refl
dispatch-process k bluetooth_scan_off r g t no_bt no_wifi no_comms = refl
dispatch-process k cellular_geolocate r g t no_bt no_wifi no_comms = refl
dispatch-process k gps_position r g t no_bt no_wifi no_comms =
    maybe_replied-process g ((gps_get_position k r.has_output r.has_len t).0)
dispatch-process k wifi_my_device r g t no_bt no_wifi no_comms = refl
dispatch-process k wifi_devices r g t no_bt no_wifi no_comms =
    maybe_replied-process g ((wifi_discover k r.has_output r.has_len t).0)
dispatch-process k wifi_links r g t no_bt no_wifi no_comms = absurd (no_wifi refl)
dispatch-process k wifi_up r g t no_bt no_wifi no_comms = refl
dispatch-process k wifi_on r g t no_bt no_wifi no_comms = refl
dispatch-process k wifi_off r g t no_bt no_wifi no_comms = refl
dispatch-process k wifi_scan_on r g t no_bt no_wifi no_comms = refl
dispatch-process k wifi_scan_off r g t no_bt no_wifi no_comms = refl
dispatch-process k comms_links r g t no_bt no_wifi no_comms = absurd (no_comms refl)
dispatch-process k simulation_state r g t no_bt no_wifi no_comms = refl

with_len-Leaves : (b : Bool) (g : Process) (o : Reply) → Leaves g o → Leaves g (with_len b o)
unfolding with_len
with_len-Leaves b g none h = tt
with_len-Leaves b g (some (a, g')) h = h

-- The scanners' own descriptors are not counted.
pub action-Quiet :
    (k : Kernel)
    → FreshSockets k.world
    → (a : Action) (r : Request) (g : Process) (t : Trace) → a ≢ bluetooth_links
    → a ≢ wifi_links
    → a ≢ comms_links
    → ((fd : ℕ) → opened fd (instrument_action k a r g t).1 ≡ opened fd t)
      × Leaves g (instrument_action k a r g t).0
unfolding instrument_action
action-Quiet k fresh a r g t no_bt no_wifi no_comms = (
  λ fd. dispatch-opened k fresh a r g t fd no_bt no_wifi no_comms,
  with_len-Leaves r.has_len g (dispatch k a r g t).0
      (dispatch-process k a r g t no_bt no_wifi no_comms),
)

-- If socket() returns no descriptor that is open, every action but the discovery of links and that
-- of Bluetooth and Wi-Fi devices, however its calls turn out, leaves open exactly the descriptors
-- that were open before, and its reply, if it returns, leaves the runtime of the process as it was.
pub instrument_action-Quiet :
    (k : Kernel)
    → FreshSockets k.world
    → (a : Action) (r : Request) (g : Process) (t : Trace) → a ≢ bluetooth_links
    → a ≢ wifi_links
    → a ≢ comms_links
    → a ≢ bluetooth_discover
    → a ≢ wifi_devices
    → ((fd : ℕ) → opened fd (instrument_action k a r g t).1 ≡ opened fd t)
      × Leaves g (instrument_action k a r g t).0
instrument_action-Quiet k fresh a r g t no_bt no_wifi no_comms no_scan no_devices =
    action-Quiet k fresh a r g t no_bt no_wifi no_comms
