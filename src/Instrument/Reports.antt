-- ===== src/Instrument/Reports.antt =====
-- What wifi_get_my_device and bluetooth_get_adapter_info of instrument_api.c report.
use sensor_lib.Prelude.{
  ℕ, ◌≤◌, ◌<◌, ◌≡◌, ◌≢◌, ◌⊎◌, inl, inr, refl, Bool, true, false, Option, none, some, List, [], ◌∷◌,
  arith, Text, ℤ, pos, negsuc, ◌==◌, ltb, ltb→lt, if◌then◌else◌, length, length-append, Bool-cases,
}
use sensor_lib.Types.{success, error, not_supported, WifiDevice}
use sensor_lib.Os.{Trace, T, done, socket_made, queried}
use sensor_lib.CText.{copy_string}
use sensor_lib.Instrument.State.{
  AdapterInfo, Output, nothing, adapters, wifi_devices, Kernel, Answer, failure, with_descriptor,
  with_socket,
}
use sensor_lib.Instrument.Wifi.{
  if_name, append_device, wifi_get_interface_info, add_interface, add_interfaces, my_device_in,
  wifi_get_my_device,
}
use sensor_lib.Instrument.Hci.{
  append_adapter, add_adapters, adapters_in, bluetooth_get_adapter_info,
}

-- The entries of an output array
abbrev pub entries : Output → ℕ
entries (adapters xs) = length xs
entries (wifi_devices xs) = length xs
entries o = 0

-- Either the array has `room` entries at most, the length is their number, and the status is
-- success if there is one and else "not supported"; or nothing is written and the call failed.
abbrev pub IsReport : ℕ → Answer → Type 0
IsReport room a =
    ((entries a.output ≤ room)
      × (a.output_len ≡ some (entries a.output))
      × (a.status ≡ (if entries a.output == 0 then not_supported else success)))
    ⊎ ((a.output ≡ nothing) × (a.output_len ≡ none) × (a.status ≢ success))

module _ {A : Type 0} (k : Kernel) (P : A → Type 0) (refused : A) (body : ℕ → T A) where
  with_descriptor-result :
      (z : ℤ) (t : Trace)
      → P refused
      → ((fd : ℕ) (u : Trace) → P (body fd u).0)
      → P (with_descriptor refused body z t).0
  unfolding with_descriptor
  with_descriptor-result (negsuc n) t p h = p
  with_descriptor-result (pos fd) t p h = h fd t

  with_socket-result :
      (t : Trace)
      → P refused
      → ((fd : ℕ) (u : Trace) → P (body fd u).0)
      → P (with_socket k refused body t).0
  unfolding with_socket
  with_socket-result t p h =
      with_descriptor-result (k.world.os.socket t) (socket_made (k.world.os.socket t) ∷ t) p h

error-ne-success : error ≢ success
error-ne-success e = cc

not_supported-ne-success : not_supported ≢ success
not_supported-ne-success e = cc

module _ (k : Kernel) where
  append_device-le :
      (devices : List WifiDevice) (o : Option WifiDevice)
      → length devices < 150
      → length (append_device devices o) ≤ 150
  append_device-le devices none h = omega arith
  append_device-le devices (some d) h = omega (arith, length-append {0} devices (d ∷ []))

  add_interface-le :
      (fd : ℕ) (i : Text) (devices : List WifiDevice) (t : Trace)
      → length devices < 150
      → length (add_interface k fd i devices t).0 ≤ 150
  unfolding add_interface
  add_interface-le fd i devices t h =
      let u = queried (pos fd) ∷ t in
      elim (k.is_wireless t (if_name i))
        as (λ b.
          length
            ((if b
                then (λ v.
                    let r = wifi_get_interface_info k i v in (append_device devices r.0, r.1))
                else done devices)
              u).0
          ≤ 150) [
            | true ↦ append_device-le devices ((wifi_get_interface_info k i u).0) h
            | false ↦ omega arith
          ]

  add_interfaces-le :
      (fd : ℕ) (is : List Text) (devices : List WifiDevice) (t : Trace)
      → length devices ≤ 150
      → length (add_interfaces k fd is devices t).0 ≤ 150
  unfolding add_interfaces
  add_interfaces-le fd [] devices t h = h
  add_interfaces-le fd (i ∷ is) devices t h = elim (Bool-cases (ltb (length devices) 150)) [
    | inl room ↦ rw room (
        add_interfaces-le fd is ((add_interface k fd i devices t).0)
          ((add_interface k fd i devices t).1) (add_interface-le fd i devices t (ltb→lt _ _ room)))
    | inr full ↦ rw full h
  ]

  my_device_in-IsReport :
      (fd : ℕ) (o : Option (List Text)) (t : Trace) → IsReport 150 (my_device_in k fd o t).0
  unfolding my_device_in
  my_device_in-IsReport fd none t = inr (refl, refl, error-ne-success)
  my_device_in-IsReport fd (some is) t =
      inl (add_interfaces-le fd is [] t (omega arith), refl, refl)

  wifi_get_my_device-IsReport :
      (out len : Bool) (t : Trace) → IsReport 150 (wifi_get_my_device k out len t).0
  unfolding wifi_get_my_device
  wifi_get_my_device-IsReport false len t = inr (refl, refl, error-ne-success)
  wifi_get_my_device-IsReport true false t = inr (refl, refl, error-ne-success)
  wifi_get_my_device-IsReport true true t =
      with_socket-result k (IsReport 150) (failure error) _ t (inr (refl, refl, error-ne-success))
        (λ fd u. my_device_in-IsReport fd (k.interfaces u) u)

  append_adapter-le :
      (infos : List AdapterInfo) (o : Option AdapterInfo)
      → length infos < 10
      → length (append_adapter infos o) ≤ 10
  append_adapter-le infos none h = omega arith
  append_adapter-le infos (some a) h =
      omega (arith, length-append {0} infos ((record a { name = copy_string 256 a.name }) ∷ []))

  add_adapters-le :
      (ctl : ℕ) (ids : List ℕ) (infos : List AdapterInfo) (t : Trace)
      → length infos ≤ 10
      → length (add_adapters k ctl ids infos t).0 ≤ 10
  unfolding add_adapters
  add_adapters-le ctl [] infos t h = h
  add_adapters-le ctl (i ∷ ids) infos t h = elim (Bool-cases (ltb (length infos) 10)) [
    | inl room ↦ rw room (
        add_adapters-le ctl ids (append_adapter infos (k.adapter_info t i)) (queried (pos ctl) ∷ t)
          (append_adapter-le infos (k.adapter_info t i) (ltb→lt _ _ room)))
    | inr full ↦ rw full h
  ]

  adapters_in-IsReport :
      (ctl : ℕ) (o : Option (List ℕ)) (t : Trace) → IsReport 10 (adapters_in k ctl o t).0
  unfolding adapters_in
  adapters_in-IsReport ctl none t = inr (refl, refl, error-ne-success)
  adapters_in-IsReport ctl (some ids) t =
      inl (add_adapters-le ctl ids [] t (omega arith), refl, refl)

  refused-IsReport : (b : Bool) → IsReport 10 (failure (if b then not_supported else error))
  refused-IsReport true = inr (refl, refl, not_supported-ne-success)
  refused-IsReport false = inr (refl, refl, error-ne-success)

  bluetooth_get_adapter_info-IsReport :
      (out len : Bool) (t : Trace) → IsReport 10 (bluetooth_get_adapter_info k out len t).0
  unfolding bluetooth_get_adapter_info
  bluetooth_get_adapter_info-IsReport false len t = inr (refl, refl, error-ne-success)
  bluetooth_get_adapter_info-IsReport true false t = inr (refl, refl, error-ne-success)
  bluetooth_get_adapter_info-IsReport true true t =
      with_socket-result k (IsReport 10) _ _ t (refused-IsReport (k.lacks_bluetooth t))
        (λ ctl u. adapters_in-IsReport ctl (k.adapter_ids u) (queried (pos ctl) ∷ u))

-- However the kernel answers, wifi_get_my_device fills at most 150 entries of the output array and
-- bluetooth_get_adapter_info at most 10; the length that they report is the number of entries, and
-- the status is success exactly if there is one; or else they fail and write nothing.
pub queries-IsReport :
    (k : Kernel) (out len : Bool) (t : Trace)
    → IsReport 150 (wifi_get_my_device k out len t).0
      × IsReport 10 (bluetooth_get_adapter_info k out len t).0
queries-IsReport k out len t =
    (wifi_get_my_device-IsReport k out len t, bluetooth_get_adapter_info-IsReport k out len t)
