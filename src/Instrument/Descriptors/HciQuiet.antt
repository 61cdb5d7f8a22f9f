-- ===== src/Instrument/Descriptors/HciQuiet.antt =====
-- The Bluetooth actions of instrument_api.c close what they open.
use sensor_lib.Prelude.{
  ℕ, refl, Bool, ◌&&◌, Option, none, some, List, [], ◌∷◌, pos, ◌==◌, ltb, length,
}
use sensor_lib.Types.{error}
use sensor_lib.Os.{done, queried}
use sensor_lib.Comms.World.{FreshSockets}
use sensor_lib.Instrument.State.{AdapterInfo, Kernel, failure}
use sensor_lib.Instrument.Hci.{
  add_adapters, adapters_in, bluetooth_get_adapter_info, is_up_of, bluetooth_is_up, switch_power,
  bluetooth_set_up, bluetooth_max_adapters, append_adapter,
}
use sensor_lib.Instrument.Descriptors.Quiet.{Quiet, if-opened, with_socket-Quiet}

module _ (k : Kernel) (fresh : FreshSockets k.world) where
  add_adapters-Quiet :
      (ctl : ℕ) (ids : List ℕ) (infos : List AdapterInfo) → Quiet (add_adapters k ctl ids infos)
  unfolding add_adapters
  add_adapters-Quiet ctl [] infos t x = refl
  add_adapters-Quiet ctl (i ∷ ids) infos t x =
      if-opened (ltb (length infos) bluetooth_max_adapters) _ (done infos) t x _
        (add_adapters-Quiet ctl ids (append_adapter infos (k.adapter_info t i))
          (queried (pos ctl) ∷ t) x)
        refl

  adapters_in-Quiet : (ctl : ℕ) (o : Option (List ℕ)) → Quiet (adapters_in k ctl o)
  unfolding adapters_in
  adapters_in-Quiet ctl none t x = refl
  adapters_in-Quiet ctl (some ids) t x = add_adapters-Quiet ctl ids [] t x

  pub bluetooth_get_adapter_info-Quiet :
      (out len : Bool) → Quiet (bluetooth_get_adapter_info k out len)
  unfolding bluetooth_get_adapter_info
  bluetooth_get_adapter_info-Quiet out len t x =
      if-opened (out && len) _ (done (failure error)) t x _
        (with_socket-Quiet k fresh _ _
          (λ ctl t. adapters_in-Quiet ctl (k.adapter_ids t) (queried (pos ctl) ∷ t)) t x)
        refl

  is_up_of-Quiet : (o : Option ℕ) → Quiet (is_up_of k o)
  unfolding is_up_of
  is_up_of-Quiet none t x = refl
  is_up_of-Quiet (some id) t x = with_socket-Quiet k fresh _ _ (λ ctl t x. refl) t x

  pub bluetooth_is_up-Quiet :
      (o : Option ℕ) (n : ℕ) (out len : Bool) → Quiet (bluetooth_is_up k o n out len)
  unfolding bluetooth_is_up
  bluetooth_is_up-Quiet o n out len t x = if-opened (n == 0) (done (failure error)) _ t x _ refl (
      if-opened (out && len) (is_up_of k o) (done (failure error)) t x _ (is_up_of-Quiet o t x)
        refl)

  switch_power-Quiet : (up : Bool) (o : Option ℕ) → Quiet (switch_power k up o)
  unfolding switch_power
  switch_power-Quiet up none t x = refl
  switch_power-Quiet up (some id) t x = with_socket-Quiet k fresh _ _ (λ ctl t x. refl) t x

  pub bluetooth_set_up-Quiet :
      (o : Option ℕ) (n : ℕ) (up : Bool) → Quiet (bluetooth_set_up k o n up)
  unfolding bluetooth_set_up
  bluetooth_set_up-Quiet o n up t x =
      if-opened (n == 0) (done error) (switch_power k up o) t x _ refl (switch_power-Quiet up o t x)
