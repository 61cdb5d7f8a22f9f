-- ===== src/Comms/Runtime.antt =====
-- The state of CommsRuntime in comms_runtime.cpp, and its callback table. A callback is a function
-- pointer, with 0 for nullptr.
use sensor_lib.Prelude.{ℕ, Bool, false, Option, none, some, List, [], Text}
use sensor_lib.Types.{
  Instrument, bluetooth, wifi, comms, CallbackType, device_discovered, link_discovered,
  link_dropped, Status, success, error, not_supported, Link,
}

-- ActiveLink
pub record ActiveLink : Type 0 where
  pub link : Link
  pub key : Text

-- CallbackState
pub record Callbacks : Type 0 where
  pub bluetooth_device : ℕ
  pub wifi_device : ℕ
  pub link_discovered : ℕ
  pub link_dropped : ℕ

-- The members of CommsRuntime that are data.
pub record Runtime : Type 0 where
  pub running : Bool
  pub callbacks : Callbacks
  pub active_links : List ActiveLink
  pub active_link_keys : List Text
  pub seen_bluetooth_devices : List Text
  pub seen_wifi_devices : List Text

abbrev pub no_callbacks : Callbacks
no_callbacks = record {
  bluetooth_device = 0;
  wifi_device = 0;
  link_discovered = 0;
  link_dropped = 0;
}

-- The constructor
abbrev pub new_runtime : Runtime
new_runtime = record {
  running = false;
  callbacks = no_callbacks;
  active_links = [];
  active_link_keys = [];
  seen_bluetooth_devices = [];
  seen_wifi_devices = [];
}

-- The switch over the instrument and the kind of callback, which both functions below have: the
-- status, and the table with `p` in the slot.
set_slot : Instrument → CallbackType → ℕ → Callbacks → Status × Callbacks
set_slot bluetooth device_discovered p c = (success, record c { bluetooth_device = p })
set_slot wifi device_discovered p c = (success, record c { wifi_device = p })
set_slot comms link_discovered p c = (success, record c { link_discovered = p })
set_slot comms link_dropped p c = (success, record c { link_dropped = p })
set_slot _ _ p c = (not_supported, c)

with_callbacks : Status × Callbacks → Runtime → Status × Runtime
with_callbacks (s, c) rt = (s, record rt { callbacks = c })

-- register_callback, given the pointer that `input_data` points to
unfoldable pub register_callback : Instrument → CallbackType → Option ℕ → Runtime → Status × Runtime
unfolding set_slot with_callbacks
register_callback i c none rt = (error, rt)
register_callback i c (some p) rt = with_callbacks (set_slot i c p rt.callbacks) rt

-- unregister_callback
unfoldable pub unregister_callback :
    Instrument → CallbackType → Option ℕ → Runtime → Status × Runtime
unfolding set_slot with_callbacks
unregister_callback i c input rt = with_callbacks (set_slot i c 0 rt.callbacks) rt
