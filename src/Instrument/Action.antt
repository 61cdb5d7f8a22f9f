-- ===== src/Instrument/Action.antt =====
-- The entry points of instrument_api.c: instrument_action_impl, the callbacks, and
-- createInstrumentAPI and destroyInstrumentAPI around the runtime of the process.
use sensor_lib.Prelude.{ℕ, Bool, true, false, Option, none, some, Text, bytes}
use sensor_lib.Types.{
  Instrument, bluetooth, wifi, comms, CallbackType, Status, success, not_supported,
}
use sensor_lib.Os.{T, done, ◌>>=◌}
use sensor_lib.Comms.Scan.{Discovery}
use sensor_lib.Comms.Lifecycle.{
  Process, comms_runtime_initialize, comms_runtime_shutdown, comms_runtime_register_callback,
  comms_runtime_unregister_callback, comms_runtime_discover_links,
}
use sensor_lib.Instrument.State.{Kernel, Answer, failure, links}
use sensor_lib.Instrument.Wifi.{wifi_get_my_device, wifi_is_up, wifi_set_up, wifi_discover}
use sensor_lib.Instrument.Hci.{bluetooth_get_adapter_info, bluetooth_is_up, bluetooth_set_up}
use sensor_lib.Instrument.Gps.{gps_get_position}

-- InstrumentActions
pub data Action : Type 0 where
  bluetooth_adapter_info bluetooth_discover bluetooth_links bluetooth_up : Action
  bluetooth_on bluetooth_off bluetooth_scan_on bluetooth_scan_off : Action
  cellular_geolocate gps_position : Action
  wifi_my_device wifi_devices wifi_links wifi_up wifi_on wifi_off wifi_scan_on wifi_scan_off :
      Action
  comms_links simulation_state : Action

-- The arguments of an action: the adapter in the input data and the input length, and whether the
-- output pointers are not null
pub record Request : Type 0 where
  pub input : Option ℕ
  pub input_len : ℕ
  pub has_output : Bool
  pub has_len : Bool

-- What a call gives back: the answer and the process. `none` is a call that does not return.
abbrev pub Reply : Type 0
Reply = Option (Answer × Process)

abbrev pub replied : Process → Answer → Reply
replied g a = some (a, g)

-- A query that returns and leaves the process alone
unfoldable pub query : Process → T Answer → T Reply
query g m = do a ← m; done (replied g a)

-- A switch writes no output.
unfoldable pub switch : Process → T Status → T Reply
switch g m = do s ← m; done (replied g (failure s))

unfoldable pub maybe_replied : Process → Option Answer → Reply
maybe_replied g none = none
maybe_replied g (some a) = some (a, g)

unfoldable pub links_reply : Discovery × Process → Reply
links_reply (d, g) =
    some (record { status = d.status; output = links d.links; output_len = d.output_len }, g)

unfoldable pub discover_links_action : Kernel → Instrument → Request → Process → T Reply
unfolding comms_runtime_discover_links links_reply
discover_links_action k i r g = do
  d ← comms_runtime_discover_links k.world i r.has_output r.has_len g
  done (links_reply d)

-- The switch of instrument_action_impl
unfoldable pub dispatch : Kernel → Action → Request → Process → T Reply
unfolding query switch maybe_replied discover_links_action bluetooth_get_adapter_info
    bluetooth_is_up bluetooth_set_up wifi_get_my_device wifi_discover wifi_is_up wifi_set_up
    gps_get_position
dispatch k bluetooth_adapter_info r g =
    query g (bluetooth_get_adapter_info k r.has_output r.has_len)
dispatch k bluetooth_discover r g =
    λ t. (replied g (k.backend r.input r.input_len r.has_output r.has_len t), t)
dispatch k bluetooth_links r g = discover_links_action k bluetooth r g
dispatch k bluetooth_up r g = query g (bluetooth_is_up k r.input r.input_len r.has_output r.has_len)
dispatch k bluetooth_on r g = switch g (bluetooth_set_up k r.input r.input_len true)
dispatch k bluetooth_off r g = switch g (bluetooth_set_up k r.input r.input_len false)
dispatch k bluetooth_scan_on r g = done (replied g (failure success))
dispatch k bluetooth_scan_off r g = done (replied g (failure success))
dispatch k wifi_my_device r g = query g (wifi_get_my_device k r.has_output r.has_len)
dispatch k wifi_devices r g = do
  a ← wifi_discover k r.has_output r.has_len
  done (maybe_replied g a)
dispatch k wifi_links r g = discover_links_action k wifi r g
dispatch k wifi_up r g = query g (wifi_is_up k r.has_output r.has_len)
dispatch k wifi_on r g = switch g (wifi_set_up k true)
dispatch k wifi_off r g = switch g (wifi_set_up k false)
dispatch k wifi_scan_on r g = done (replied g (failure success))
dispatch k wifi_scan_off r g = done (replied g (failure success))
dispatch k gps_position r g = do
  a ← gps_get_position k r.has_output r.has_len
  done (maybe_replied g a)
dispatch k comms_links r g = discover_links_action k comms r g
dispatch k cellular_geolocate r g = done (replied g (failure not_supported))
dispatch k simulation_state r g = done (replied g (failure not_supported))

abbrev pub or_zero : Option ℕ → Option ℕ
or_zero none = some 0
or_zero (some n) = some n

-- zero_output_len comes first, so a length that the action does not write is 0.
unfoldable pub zeroed : Bool → Answer → Answer
zeroed false a = a
zeroed true a = record a { output_len = or_zero a.output_len }

unfoldable pub with_len : Bool → Reply → Reply
unfolding zeroed
with_len has_len none = none
with_len has_len (some (a, g)) = some (zeroed has_len a, g)

-- instrument_action_impl
unfoldable pub instrument_action : Kernel → Action → Request → Process → T Reply
unfolding dispatch with_len
instrument_action k a r g = do reply ← dispatch k a r g; done (with_len r.has_len reply)

-- register_callback_impl and unregister_callback_impl
unfoldable pub register_callback : Instrument → CallbackType → Option ℕ → Process → Status × Process
unfolding comms_runtime_register_callback
register_callback i c input g = comms_runtime_register_callback i c input g

unfoldable pub unregister_callback :
    Instrument → CallbackType → Option ℕ → Process → Status × Process
unfolding comms_runtime_unregister_callback
unregister_callback i c input g = comms_runtime_unregister_callback i c input g

-- Whether createInstrumentAPI returns a handle
unfoldable pub created : Status × Process → Bool × Process
created (success, g) = (true, g)
created (s, g) = (false, g)

-- createInstrumentAPI, given whether calloc and the making of threads succeed
unfoldable pub create_instrument_api : Bool → Bool → Process → T (Bool × Process)
unfolding created comms_runtime_initialize
create_instrument_api false threads g = done (false, g)
create_instrument_api true threads g = do
  r ← comms_runtime_initialize true threads g
  done (created r)

-- destroyInstrumentAPI, of a handle or of the null pointer
unfoldable pub destroy_instrument_api : Process → T Process
unfolding comms_runtime_shutdown
destroy_instrument_api g = comms_runtime_shutdown g

-- getInstrumentAPIVersion and getInstrumentAPIPlatform
abbrev pub instrument_api_version : Text
instrument_api_version = bytes "0.1.0"

abbrev pub instrument_api_platform : Text
instrument_api_platform = bytes "linux"
