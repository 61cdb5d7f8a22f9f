-- ===== src/Comms/Slots.antt =====
-- The callback table of the comms runtime as a partial map from instrument and kind to pointers.
use sensor_lib.Prelude.{ℕ, ◌≡◌, refl, Bool, true, false, Option, none, some, if◌then◌else◌, arith}
use sensor_lib.Types.{
  Instrument, bluetooth, wifi, comms, CallbackType, device_discovered, link_discovered,
  link_dropped, Status, success, error, not_supported,
}
use sensor_lib.Comms.Runtime.{Callbacks, Runtime, register_callback, unregister_callback}

abbrev pub Slot : Type 0
Slot = Instrument × CallbackType

-- The pointer that is called for an instrument and a kind, if there is such a callback.
abbrev pub slot : Instrument → CallbackType → Callbacks → Option ℕ
slot bluetooth device_discovered c = some c.bluetooth_device
slot wifi device_discovered c = some c.wifi_device
slot comms link_discovered c = some c.link_discovered
slot comms link_dropped c = some c.link_dropped
slot _ _ c = none

abbrev status_of : Option ℕ → Status
status_of none = not_supported
status_of (some p) = success

-- Whether two pairs are one slot of the table.
abbrev pub same_slot : Instrument → CallbackType → Instrument → CallbackType → Bool
same_slot bluetooth device_discovered bluetooth device_discovered = true
same_slot wifi device_discovered wifi device_discovered = true
same_slot comms link_discovered comms link_discovered = true
same_slot comms link_dropped comms link_dropped = true
same_slot _ _ _ _ = false

-- The status says whether there is a slot for `i` and `k`; it holds `p` now, and nothing else has
-- changed.
pub record Sets (i : Instrument) (k : CallbackType) (p : ℕ) (rt : Runtime)
    (result : Status × Runtime) : Type 0 where
  pub status : result.0 ≡ status_of (slot i k rt.callbacks)
  pub slots :
      (j : Instrument) (m : CallbackType)
      → slot j m result.1.callbacks ≡ (if same_slot i k j m then some p else slot j m rt.callbacks)
  pub rest : result.1 ≡ record rt { callbacks = result.1.callbacks }

-- register_callback with a pointer sets the slot of the instrument and the kind to the pointer and
-- succeeds, or, where there is no such slot, changes nothing and reports so. unregister_callback
-- does the same with nullptr, whatever its input is, and register_callback without an input is an
-- error that changes nothing.
callbacks-Sets :
    (i : Instrument) (k : CallbackType) (p : ℕ) (input : Option ℕ) (rt : Runtime)
    → Sets i k p rt (register_callback i k (some p) rt)
      × Sets i k 0 rt (unregister_callback i k input rt)
      × (register_callback i k none rt ≡ (error, rt))
unfolding register_callback unregister_callback
callbacks-Sets i k p input rt = (register-Sets p, register-Sets 0, refl)
  where
    register-Sets : (q : ℕ) → Sets i k q rt (register_callback i k (some q) rt)
    register-Sets q = record {
      status = ground arith;
      slots = λ j m. ground arith;
      rest = ground arith;
    }
