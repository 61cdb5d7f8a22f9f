-- ===== src/Comms/Scanning.antt =====
-- The scans of the comms runtime keep every descriptor owned, on their own and among other threads.
use sensor_lib.Prelude.{
  ℕ, ◌+◌, ◌≡◌, refl, sym, ◌∙◌, ap, true, false, Option, none, some, List, [], ◌∷◌, Text,
  if◌then◌else◌, arith,
}
use sensor_lib.Types.{BluetoothDevice}
use sensor_lib.Os.{T, Trace, Event, done, ◌>>=◌, bluetooth_found, wifi_found}
use sensor_lib.Comms.Candidates.{Candidate, member, discover_wifi_candidates}
use sensor_lib.Comms.World.{World, opened, FreshSockets}
use sensor_lib.Comms.Runtime.{ActiveLink, Runtime}
use sensor_lib.Comms.Handshake.{
  wifi_key, bluetooth_key, attempt_wifi_handshake, attempt_bluetooth_handshake,
}
use sensor_lib.Comms.Scan.{
  publish_some, attempt, notify_new, scan_bluetooth_device, scan_wifi_candidate, for_each,
  scan_devices, scan_bluetooth_links, scan_wifi_links, scan_once,
}
use sensor_lib.Comms.Ownership.{holders, Owned, call-opened, publish_link-Owned}
use sensor_lib.Comms.Gain.{Gained, handshakes_gain}

-- A link that a handshake made is held by its thread.
abbrev pub hold : Option ActiveLink → List ActiveLink → List ActiveLink
hold none held = held
hold (some a) held = a ∷ held

-- A result on a runtime and a trace leaves them owned.
abbrev pub OwnedAfter : List ActiveLink → Runtime × Trace → Type 0
OwnedAfter held (rt, t) = Owned rt held t

pub gain-Owned :
    {rt : Runtime} {held : List ActiveLink} {t : Trace} (key : Text) (r : Option ActiveLink)
    (u : Trace)
    → Owned rt held t
    → Gained key t (r, u)
    → Owned rt (hold r held) u
gain-Owned key none u v g = record { owned = λ fd. g fd ∙ v.owned fd; keyed = v.keyed }
gain-Owned key (some a) u v g = record {
  owned = λ fd. omega (arith, g.1 fd, v.owned fd);
  keyed = v.keyed;
}

publish_some-Owned :
    (r : Option ActiveLink) {rt : Runtime} {held : List ActiveLink} {t : Trace}
    → Owned rt (hold r held) t
    → OwnedAfter held (publish_some r rt t)
unfolding publish_some
publish_some-Owned none v = v
publish_some-Owned (some a) v = publish_link-Owned a v

attempt-Owned :
    (key : Text) (handshake : T (Option ActiveLink)) {rt : Runtime} {held : List ActiveLink}
    {t : Trace}
    → Owned rt held t
    → Gained key t (handshake t)
    → OwnedAfter held (attempt key handshake rt t)
unfolding attempt
attempt-Owned key handshake {rt} {held} {t} v g =
    elim (member key rt.active_link_keys)
      as (λ b.
        OwnedAfter held ((if b then done rt else (handshake >>= λ r. publish_some r rt)) t)) [
          | true ↦ v
          | false ↦
              publish_some-Owned (handshake t).0
                (gain-Owned key (handshake t).0 (handshake t).1 v g)
        ]

pub notify_new-opened :
    (key : Text) (seen : List Text) (p : ℕ) (e : Event) (fd : ℕ) (t : Trace)
    → opened fd (e ∷ t) ≡ opened fd t
    → opened fd ((notify_new key seen p e t).1) ≡ opened fd t
unfolding notify_new
notify_new-opened key seen p e fd t quiet = ground (arith, call-opened fd p e t quiet)

-- From a trace that has the same descriptors open, and a runtime with the same links.
pub Owned-later :
    {rt rt' : Runtime} {held : List ActiveLink} {t u : Trace}
    → Owned rt held t
    → rt'.active_links ≡ rt.active_links
    → rt'.active_link_keys ≡ rt.active_link_keys
    → ((fd : ℕ) → opened fd u ≡ opened fd t)
    → Owned rt' held u
Owned-later {rt} {rt'} {held} {t} {u} v links keys same = record {
  owned = λ fd. same fd ∙ v.owned fd ∙ ap (λ l. holders fd l + holders fd held) (sym links);
  keyed = λ k. rw (links, keys, v.keyed k);
}

module _ (w : World) (fresh : FreshSockets w) {held : List ActiveLink} where
  scan_bluetooth_device-Owned :
      (d : BluetoothDevice) (rt : Runtime) (t : Trace)
      → Owned rt held t
      → OwnedAfter held (scan_bluetooth_device w d rt t)
  unfolding scan_bluetooth_device
  scan_bluetooth_device-Owned d rt t v =
      let key = bluetooth_key d.mac_address in
      let p = rt.callbacks.bluetooth_device in
      let u = (notify_new key rt.seen_bluetooth_devices p (bluetooth_found p d) t).1 in
      attempt-Owned key (attempt_bluetooth_handshake w d)
        (Owned-later v refl refl
          (λ fd. notify_new-opened key rt.seen_bluetooth_devices p (bluetooth_found p d) fd t refl))
        ((handshakes_gain w fresh u).1 d)

  scan_wifi_candidate-Owned :
      (c : Candidate) (rt : Runtime) (t : Trace)
      → Owned rt held t
      → OwnedAfter held (scan_wifi_candidate w c rt t)
  unfolding scan_wifi_candidate
  scan_wifi_candidate-Owned c rt t v =
      let key = wifi_key c.device.mac_address in
      let p = rt.callbacks.wifi_device in
      let u = (notify_new key rt.seen_wifi_devices p (wifi_found p c.device) t).1 in
      attempt-Owned key (attempt_wifi_handshake w c)
        (Owned-later v refl refl
          (λ fd. notify_new-opened key rt.seen_wifi_devices p (wifi_found p c.device) fd t refl))
        ((handshakes_gain w fresh u).0 c)

for_each-Owned {ℓ} :
    {A : Type ℓ} {held : List ActiveLink} (f : A → Runtime → T Runtime)
    → ((a : A) (rt : Runtime) (t : Trace) → Owned rt held t → OwnedAfter held (f a rt t))
    → (as' : List A) (rt : Runtime) (t : Trace) → Owned rt held t
    → OwnedAfter held (for_each f as' rt t)
unfolding for_each
for_each-Owned f step [] rt t v = v
for_each-Owned f step (a ∷ as') rt t v =
    for_each-Owned f step as' (f a rt t).0 (f a rt t).1 (step a rt t v)

module _ (w : World) (fresh : FreshSockets w) {held : List ActiveLink} where
  scan_devices-Owned :
      (devices : Option (List BluetoothDevice)) (rt : Runtime) (t : Trace)
      → Owned rt held t
      → OwnedAfter held (scan_devices w devices rt t)
  unfolding scan_devices
  scan_devices-Owned none rt t v = v
  scan_devices-Owned (some devices) rt t v =
      for_each-Owned (scan_bluetooth_device w) (scan_bluetooth_device-Owned w fresh) devices rt t v

  -- If socket() returns no descriptor that is open, a whole scan, whatever the network answers,
  -- keeps the descriptors owned: those open are those of the runtime's links and of the links that
  -- other threads hold, one owner each, and no two of the runtime's links have the same key.
  pub scan_once-Owned :
      (rt : Runtime) (t : Trace) → Owned rt held t → OwnedAfter held (scan_once w rt t)
  unfolding scan_once scan_bluetooth_links scan_wifi_links
  scan_once-Owned rt t v =
      let after = scan_bluetooth_links w rt t in
      for_each-Owned (scan_wifi_candidate w) (scan_wifi_candidate-Owned w fresh)
        (discover_wifi_candidates (w.files after.1)) after.0 after.1
        (scan_devices-Owned (w.bluetooth_devices t) rt t v)
