-- ===== src/Instrument/Switches.antt =====
-- Turning the Wi-Fi interface on and off: wifi_set_up of instrument_api.c.
use sensor_lib.Prelude.{
  ℕ, ◌/◌, ◌≡◌, refl, ◌∙◌, ap, Bool, true, false, Option, none, some, List, [], ◌∷◌, arith, Text, ℤ,
  pos, negsuc, if◌then◌else◌,
}
use sensor_lib.Types.{Status, success, error, not_supported}
use sensor_lib.Os.{Trace, done, socket_made, queried, flags_set}
use sensor_lib.Instrument.State.{Kernel, with_descriptor, with_socket}
use sensor_lib.Instrument.Wifi.{
  if_name, first_wireless, find_in, find_wireless_interface, up_bit, with_up, change_flags,
  set_up_at, wifi_set_up,
}

-- The interface flags that a trace has written, newest first
abbrev pub flag_writes : Trace → List (Text × ℕ)
flag_writes [] = []
flag_writes (flags_set fd name flags ∷ t) = (name, flags) ∷ flag_writes t
flag_writes (e ∷ t) = flag_writes t

module _ (k : Kernel) where
  first_wireless-writes :
      (fd : ℕ) (is : List Text) (t : Trace)
      → flag_writes (first_wireless k fd is t).1 ≡ flag_writes t
  unfolding first_wireless
  first_wireless-writes fd [] t = refl
  first_wireless-writes fd (i ∷ is) t =
      elim (k.is_wireless t (if_name i))
        as (λ b.
          flag_writes
            ((if b then done (some i) else first_wireless k fd is) (queried (pos fd) ∷ t)).1
          ≡ flag_writes t) [
            | true ↦ refl
            | false ↦ first_wireless-writes fd is (queried (pos fd) ∷ t)
          ]

  find_in-writes :
      (fd : ℕ) (o : Option (List Text)) (t : Trace)
      → flag_writes (find_in k fd o t).1 ≡ flag_writes t
  unfolding find_in
  find_in-writes fd none t = refl
  find_in-writes fd (some is) t = first_wireless-writes fd is t

  found_at-writes :
      (z : ℤ) (t : Trace)
      → flag_writes
          (with_descriptor
            (error, [])
            (λ fd u. find_in k fd (k.interfaces u) u)
            z
            (socket_made z ∷ t)).1
        ≡ flag_writes t
  unfolding with_descriptor
  found_at-writes (negsuc n) t = refl
  found_at-writes (pos fd) t =
      let u = socket_made (pos fd) ∷ t in find_in-writes fd (k.interfaces u) u

  find_wireless_interface-writes :
      (t : Trace) → flag_writes (find_wireless_interface k t).1 ≡ flag_writes t
  unfolding find_wireless_interface with_socket
  find_wireless_interface-writes t = found_at-writes (k.world.os.socket t) t

  -- One write: the flags that the kernel has for an interface, with the bit IFF_UP as asked.
  pub record Switched (up : Bool) (t u : Trace) : Type 0 where
    pub name : Text
    pub read_at : Trace
    pub flags : ℕ
    pub read : k.flags read_at (if_name name) ≡ some flags
    pub written : flag_writes u ≡ (if_name name, with_up up flags) ∷ flag_writes t

  change_flags-Switched :
      (up : Bool) (name : Text) (fd : ℕ) (o : Option ℕ) (t : Trace)
      → k.flags t (if_name name) ≡ o
      → (change_flags k up name fd o (queried (pos fd) ∷ t)).0 ≡ success
      → Switched up t (change_flags k up name fd o (queried (pos fd) ∷ t)).1
  unfolding change_flags
  change_flags-Switched up name fd none t e s = absurd (cc s)
  change_flags-Switched up name fd (some flags) t e s = record {
    name = name;
    read_at = t;
    flags = flags;
    read = e;
    written = refl;
  }

  moved :
      (up : Bool) (t u t' u' : Trace)
      → Switched up t u
      → flag_writes t ≡ flag_writes t'
      → flag_writes u' ≡ flag_writes u
      → Switched up t' u'
  moved up t u t' u' s e f = record {
    name = s.name;
    read_at = s.read_at;
    flags = s.flags;
    read = s.read;
    written = f ∙ (s.written ∙ ap (◌∷◌ (if_name s.name, with_up up s.flags)) e);
  }

  opened-Switched :
      (up : Bool) (name : Text) (z : ℤ) (t : Trace)
      → (with_descriptor error
          (λ fd u. change_flags k up name fd (k.flags u (if_name name)) (queried (pos fd) ∷ u))
          z
          (socket_made z ∷ t)).0
        ≡ success
      → Switched up t
          (with_descriptor error
            (λ fd u. change_flags k up name fd (k.flags u (if_name name)) (queried (pos fd) ∷ u))
            z
            (socket_made z ∷ t)).1
  unfolding with_descriptor
  opened-Switched up name (negsuc n) t s = absurd (cc s)
  opened-Switched up name (pos fd) t s =
      let u = socket_made (pos fd) ∷ t in
      moved up u (change_flags k up name fd (k.flags u (if_name name)) (queried (pos fd) ∷ u)).1 t _
        (change_flags-Switched up name fd (k.flags u (if_name name)) u refl s) refl refl

  set_up_at-Switched :
      (up : Bool) (s : Status) (name : Text) (t : Trace)
      → (set_up_at k up (s, name) t).0 ≡ success
      → Switched up t (set_up_at k up (s, name) t).1
  unfolding set_up_at with_socket
  set_up_at-Switched up success name t e = opened-Switched up name (k.world.os.socket t) t e
  set_up_at-Switched up error name t e = absurd (cc e)
  set_up_at-Switched up not_supported name t e = absurd (cc e)

with_up_bit : (up : Bool) (flags : ℕ) → up_bit (with_up up flags) ≡ up
unfolding with_up
with_up_bit true flags = ground arith
with_up_bit false flags = ground arith

with_up_rest : (up : Bool) (flags : ℕ) → with_up up flags / 2 ≡ flags / 2
unfolding with_up
with_up_rest true flags = omega arith
with_up_rest false flags = omega arith

-- If wifi_set_up reports success, it has written the flags of one interface once, and has written
-- those that the kernel reported for it with the lowest bit, IFF_UP, as asked and all others the
-- same.
pub wifi_set_up-Switched :
    (k : Kernel) (up : Bool) (t : Trace)
    → (wifi_set_up k up t).0 ≡ success
    → (s : Switched k up t (wifi_set_up k up t).1) × (up_bit (with_up up s.flags) ≡ up)
      × (with_up up s.flags / 2 ≡ s.flags / 2)
unfolding wifi_set_up
wifi_set_up-Switched k up t e =
    let r = find_wireless_interface k t in
    let s =
      moved k up r.1 (wifi_set_up k up t).1 t (wifi_set_up k up t).1
        (set_up_at-Switched k up r.0.0 r.0.1 r.1 e) (find_wireless_interface-writes k t) refl in
    (s, with_up_bit up s.flags, with_up_rest up s.flags)
