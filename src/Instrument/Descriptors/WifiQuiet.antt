-- ===== src/Instrument/Descriptors/WifiQuiet.antt =====
-- The Wi-Fi actions of instrument_api.c close what they open.
use sensor_lib.Prelude.{
  ℕ, refl, ◌∙◌, Bool, ◌&&◌, Option, none, some, List, [], ◌∷◌, Text, pos, ltb, length,
}
use sensor_lib.Types.{Status, success, error, not_supported, WifiDevice}
use sensor_lib.Os.{done, queried}
use sensor_lib.Comms.World.{FreshSockets}
use sensor_lib.Instrument.State.{Kernel, failure}
use sensor_lib.Instrument.Wifi.{
  first_wireless, find_in, find_wireless_interface, describe, wifi_get_interface_info,
  add_interface, add_interfaces, my_device_in, wifi_get_my_device, is_up_at, wifi_is_up,
  change_flags, set_up_at, wifi_set_up, discover_at, wifi_discover, wifi_max_devices, if_name,
}
use sensor_lib.Instrument.Descriptors.Quiet.{Quiet, if-opened, with_socket-Quiet}

module _ (k : Kernel) (fresh : FreshSockets k.world) where
  first_wireless-Quiet : (fd : ℕ) (is : List Text) → Quiet (first_wireless k fd is)
  unfolding first_wireless
  first_wireless-Quiet fd [] t x = refl
  first_wireless-Quiet fd (i ∷ is) t x =
      if-opened (k.is_wireless t (if_name i)) (done (some i)) (first_wireless k fd is)
        (queried (pos fd) ∷ t) x _ refl (first_wireless-Quiet fd is (queried (pos fd) ∷ t) x)

  find_in-Quiet : (fd : ℕ) (o : Option (List Text)) → Quiet (find_in k fd o)
  unfolding find_in
  find_in-Quiet fd none t x = refl
  find_in-Quiet fd (some is) t x = first_wireless-Quiet fd is t x

  find_wireless_interface-Quiet : Quiet (find_wireless_interface k)
  unfolding find_wireless_interface
  find_wireless_interface-Quiet =
      with_socket-Quiet k fresh _ _ (λ fd t. find_in-Quiet fd (k.interfaces t) t)

  wifi_get_interface_info-Quiet : (name : Text) → Quiet (wifi_get_interface_info k name)
  unfolding wifi_get_interface_info describe
  wifi_get_interface_info-Quiet name = with_socket-Quiet k fresh _ _ (λ fd t x. refl)

  add_interface-Quiet :
      (fd : ℕ) (i : Text) (devices : List WifiDevice) → Quiet (add_interface k fd i devices)
  unfolding add_interface
  add_interface-Quiet fd i devices t x =
      if-opened (k.is_wireless t (if_name i)) _ (done devices) (queried (pos fd) ∷ t) x _
        (wifi_get_interface_info-Quiet i (queried (pos fd) ∷ t) x) refl

  add_interfaces-Quiet :
      (fd : ℕ) (is : List Text) (devices : List WifiDevice) → Quiet (add_interfaces k fd is devices)
  unfolding add_interfaces
  add_interfaces-Quiet fd [] devices t x = refl
  add_interfaces-Quiet fd (i ∷ is) devices t x =
      let r = add_interface k fd i devices t in
      if-opened (ltb (length devices) wifi_max_devices) _ (done devices) t x _
        (add_interfaces-Quiet fd is r.0 r.1 x ∙ add_interface-Quiet fd i devices t x) refl

  my_device_in-Quiet : (fd : ℕ) (o : Option (List Text)) → Quiet (my_device_in k fd o)
  unfolding my_device_in
  my_device_in-Quiet fd none t x = refl
  my_device_in-Quiet fd (some is) t x = add_interfaces-Quiet fd is [] t x

  pub wifi_get_my_device-Quiet : (out len : Bool) → Quiet (wifi_get_my_device k out len)
  unfolding wifi_get_my_device
  wifi_get_my_device-Quiet out len t x =
      if-opened (out && len) _ (done (failure error)) t x _
        (with_socket-Quiet k fresh _ _ (λ fd t. my_device_in-Quiet fd (k.interfaces t) t) t x) refl

  is_up_at-Quiet : (s : Status) (name : Text) → Quiet (is_up_at k (s, name))
  unfolding is_up_at
  is_up_at-Quiet success name t x = with_socket-Quiet k fresh _ _ (λ fd t x. refl) t x
  is_up_at-Quiet error name t x = refl
  is_up_at-Quiet not_supported name t x = refl

  pub wifi_is_up-Quiet : (out len : Bool) → Quiet (wifi_is_up k out len)
  unfolding wifi_is_up
  wifi_is_up-Quiet out len t x =
      let r = find_wireless_interface k t in
      if-opened (out && len) _ (done (failure error)) t x _
        (is_up_at-Quiet r.0.0 r.0.1 r.1 x ∙ find_wireless_interface-Quiet t x) refl

  change_flags-Quiet :
      (up : Bool) (name : Text) (fd : ℕ) (o : Option ℕ) → Quiet (change_flags k up name fd o)
  unfolding change_flags
  change_flags-Quiet up name fd none t x = refl
  change_flags-Quiet up name fd (some flags) t x = refl

  set_up_at-Quiet : (up : Bool) (s : Status) (name : Text) → Quiet (set_up_at k up (s, name))
  unfolding set_up_at
  set_up_at-Quiet up success name t x =
      with_socket-Quiet k fresh _ _
        (λ fd t. change_flags-Quiet up name fd (k.flags t (if_name name)) (queried (pos fd) ∷ t)) t
        x
  set_up_at-Quiet up error name t x = refl
  set_up_at-Quiet up not_supported name t x = refl

  pub wifi_set_up-Quiet : (up : Bool) → Quiet (wifi_set_up k up)
  unfolding wifi_set_up
  wifi_set_up-Quiet up t x =
      let r = find_wireless_interface k t in
      set_up_at-Quiet up r.0.0 r.0.1 r.1 x ∙ find_wireless_interface-Quiet t x

  discover_at-Quiet : (s : Status) (name : Text) → Quiet (discover_at k (s, name))
  unfolding discover_at
  discover_at-Quiet success name t x = refl
  discover_at-Quiet error name t x = refl
  discover_at-Quiet not_supported name t x = refl

  pub wifi_discover-Quiet : (out len : Bool) → Quiet (wifi_discover k out len)
  unfolding wifi_discover
  wifi_discover-Quiet out len t x =
      let r = find_wireless_interface k t in
      if-opened (out && len) _ (done (some (failure error))) t x _
        (discover_at-Quiet r.0.0 r.0.1 r.1 x ∙ find_wireless_interface-Quiet t x) refl
