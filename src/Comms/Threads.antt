-- ===== src/Comms/Threads.antt =====
-- The threads of the comms runtime, interleaved: the discovery thread and every caller of
-- discover_links run the same scan. Between two steps a thread gives up `mutex_`, so what it
-- looked up may be out of date when it publishes. A handshake is one step, as its calls are about
-- a descriptor that no other thread has.
use sensor_lib.Prelude.{ℕ, ◌+◌, ◌≡◌, refl, ◌∙◌, ap, List, ◌∷◌, ◌++◌, arith}
use sensor_lib.Types.{BluetoothDevice}
use sensor_lib.Os.{Trace, bluetooth_found, wifi_found}
use sensor_lib.Comms.Candidates.{Candidate}
use sensor_lib.Comms.World.{World, FreshSockets}
use sensor_lib.Comms.Runtime.{ActiveLink, Runtime, Callbacks}
use sensor_lib.Comms.Handshake.{
  bluetooth_key, wifi_key, attempt_wifi_handshake, attempt_bluetooth_handshake,
}
use sensor_lib.Comms.Scan.{publish_link, notify_new, see}
use sensor_lib.Comms.Ownership.{holders, holders-append, Owned, publish_link-Owned}
use sensor_lib.Comms.Gain.{handshakes_gain}
use sensor_lib.Comms.Scanning.{hold, OwnedAfter, gain-Owned, notify_new-opened, Owned-later}

-- A step of some thread: from a runtime, the links that threads hold, and a trace.
pub data Step (w : World)
    : Runtime → List ActiveLink → Trace → Runtime → List ActiveLink → Trace → Type 0 where
  notes_bluetooth :
      (d : BluetoothDevice) (rt : Runtime) (held : List ActiveLink) (t : Trace)
      → Step w rt held t
          (record rt {
            seen_bluetooth_devices = see (bluetooth_key d.mac_address) rt.seen_bluetooth_devices;
          })
          held
          ((notify_new
            (bluetooth_key d.mac_address)
            rt.seen_bluetooth_devices
            rt.callbacks.bluetooth_device
            (bluetooth_found rt.callbacks.bluetooth_device d)
            t).1)
  notes_wifi :
      (c : Candidate) (rt : Runtime) (held : List ActiveLink) (t : Trace)
      → Step w rt held t
          (record rt {
            seen_wifi_devices = see (wifi_key c.device.mac_address) rt.seen_wifi_devices;
          })
          held
          ((notify_new
            (wifi_key c.device.mac_address)
            rt.seen_wifi_devices
            rt.callbacks.wifi_device
            (wifi_found rt.callbacks.wifi_device c.device)
            t).1)
  shakes_bluetooth :
      (d : BluetoothDevice) (rt : Runtime) (held : List ActiveLink) (t : Trace)
      → Step w rt held t rt
          (hold ((attempt_bluetooth_handshake w d t).0) held)
          ((attempt_bluetooth_handshake w d t).1)
  shakes_wifi :
      (c : Candidate) (rt : Runtime) (held : List ActiveLink) (t : Trace)
      → Step w rt held t rt
          (hold ((attempt_wifi_handshake w c t).0) held)
          ((attempt_wifi_handshake w c t).1)
  publishes :
      (before : List ActiveLink) (a : ActiveLink) (after : List ActiveLink) (rt : Runtime)
      (t : Trace)
      → Step w rt
          (before ++ a ∷ after)
          t
          ((publish_link a rt t).0)
          (before ++ after)
          ((publish_link a rt t).1)
  sets_callbacks :
      (c : Callbacks) (rt : Runtime) (held : List ActiveLink) (t : Trace)
      → Step w rt held t (record rt { callbacks = c }) held t

pub data Steps (w : World)
    : Runtime → List ActiveLink → Trace → Runtime → List ActiveLink → Trace → Type 0 where
  stay : (rt : Runtime) (held : List ActiveLink) (t : Trace) → Steps w rt held t rt held t
  then_step :
      (rt rt' rt'' : Runtime) (held held' held'' : List ActiveLink) (t t' t'' : Trace)
      → Steps w rt held t rt' held' t'
      → Step w rt' held' t' rt'' held'' t''
      → Steps w rt held t rt'' held'' t''

-- Which of the held links is named first does not matter.
Owned-reorder :
    {rt : Runtime} (held held' : List ActiveLink) {t : Trace}
    → ((fd : ℕ) → holders fd held ≡ holders fd held')
    → Owned rt held t
    → Owned rt held' t
Owned-reorder {rt} held held' same v = record {
  owned = λ fd. v.owned fd ∙ ap (λ n. holders fd rt.active_links + n) (same fd);
  keyed = v.keyed;
}

publish_any-Owned :
    (before : List ActiveLink) (a : ActiveLink) (after : List ActiveLink) (rt : Runtime) (t : Trace)
    → Owned rt (before ++ a ∷ after) t
    → OwnedAfter (before ++ after) (publish_link a rt t)
publish_any-Owned before a after rt t v = publish_link-Owned a (
    Owned-reorder (before ++ a ∷ after) (a ∷ before ++ after)
      (λ fd. omega (arith, holders-append fd before (a ∷ after), holders-append fd before after)) v)

Step-Owned :
    {w : World} {rt : Runtime} {held : List ActiveLink} {t : Trace} {rt' : Runtime} {t' : Trace}
    {held' : List ActiveLink}
    → FreshSockets w
    → Step w rt held t rt' held' t'
    → Owned rt held t
    → Owned rt' held' t'
Step-Owned fresh (notes_bluetooth d rt held t) v = Owned-later v refl refl (λ fd.
    notify_new-opened (bluetooth_key d.mac_address) rt.seen_bluetooth_devices
      rt.callbacks.bluetooth_device (bluetooth_found rt.callbacks.bluetooth_device d) fd t refl)
Step-Owned fresh (notes_wifi c rt held t) v = Owned-later v refl refl (λ fd.
    notify_new-opened (wifi_key c.device.mac_address) rt.seen_wifi_devices rt.callbacks.wifi_device
      (wifi_found rt.callbacks.wifi_device c.device) fd t refl)
Step-Owned {w} fresh (shakes_bluetooth d rt held t) v =
    gain-Owned (bluetooth_key d.mac_address) _ _ v ((handshakes_gain w fresh t).1 d)
Step-Owned {w} fresh (shakes_wifi c rt held t) v =
    gain-Owned (wifi_key c.device.mac_address) _ _ v ((handshakes_gain w fresh t).0 c)
Step-Owned fresh (publishes before a after rt t) v = publish_any-Owned before a after rt t v
Step-Owned fresh (sets_callbacks c rt held t) v = record { owned = v.owned; keyed = v.keyed }

-- If socket() returns no descriptor that is open, then after any interleaving of the threads'
-- steps from a state in which it holds, every open descriptor has exactly one owner, a link of the
-- runtime or a thread, and no two links of the runtime have the same key.
pub threads_keep_ownership :
    {w : World} {rt : Runtime} {held : List ActiveLink} {t : Trace} {rt' : Runtime} {t' : Trace}
    {held' : List ActiveLink}
    → FreshSockets w
    → Steps w rt held t rt' held' t'
    → Owned rt held t
    → Owned rt' held' t'
threads_keep_ownership fresh (stay rt held t) v = v
threads_keep_ownership fresh (then_step rt rt' rt'' held held' held'' t t' t'' steps step) v =
    Step-Owned fresh step (threads_keep_ownership fresh steps v)
