-- ===== src/Instrument/Hci.antt =====
-- The Bluetooth queries and switches of instrument_api.c. The input is the id of the first adapter of
-- the input array, if the pointer is not null.
use sensor_lib.Prelude.{
  ℕ, Bool, Option, none, some, List, [], ◌∷◌, ◌++◌, ◌&&◌, ◌%◌, pos, ◌==◌, ltb, if◌then◌else◌,
  length,
}
use sensor_lib.Types.{Status, success, error, not_supported}
use sensor_lib.Os.{other_errno, Outcome, succeeds, fails, T, done, ◌>>=◌, powered}
use sensor_lib.CText.{copy_string}
use sensor_lib.Instrument.State.{
  AdapterInfo, Kernel, Answer, failure, adapters, is_up, with_socket, ask,
}

abbrev pub bluetooth_max_adapters : ℕ
bluetooth_max_adapters = 10

-- What HCIGETDEVINFO adds to the output array
abbrev pub append_adapter : List AdapterInfo → Option AdapterInfo → List AdapterInfo
append_adapter infos none = infos
append_adapter infos (some a) = infos ++ (record a { name = copy_string 256 a.name }) ∷ []

-- The loop of bluetooth_get_adapter_info
unfoldable pub add_adapters : Kernel → ℕ → List ℕ → List AdapterInfo → T (List AdapterInfo)
unfolding copy_string
add_adapters k ctl [] infos = done infos
add_adapters k ctl (i ∷ ids) infos =
    if ltb (length infos) bluetooth_max_adapters
    then (do
      info ← ask ctl (λ t. k.adapter_info t i)
      add_adapters k ctl ids (append_adapter infos info))
    else done infos

abbrev pub adapter_answer : List AdapterInfo → Answer
adapter_answer infos = record {
  status = if length infos == 0 then not_supported else success;
  output = adapters infos;
  output_len = some (length infos);
}

unfoldable pub adapters_in : Kernel → ℕ → Option (List ℕ) → T Answer
unfolding add_adapters
adapters_in k ctl none = done (failure error)
adapters_in k ctl (some ids) = do infos ← add_adapters k ctl ids []; done (adapter_answer infos)

-- bluetooth_get_adapter_info; the flags say whether the output pointers are not null
unfoldable pub bluetooth_get_adapter_info : Kernel → Bool → Bool → T Answer
unfolding adapters_in with_socket
bluetooth_get_adapter_info k out len t =
    (if out && len
        then with_socket k (failure (if k.lacks_bluetooth t then not_supported else error))
            (λ ctl. do ids ← ask ctl k.adapter_ids; adapters_in k ctl ids)
        else done (failure error))
      t

abbrev pub up_answer : Option AdapterInfo → Answer
up_answer none = failure error
up_answer (some a) = record {
  status = success;
  output = is_up (a.flags % 2 == 1);
  output_len = some 1;
}

unfoldable pub is_up_of : Kernel → Option ℕ → T Answer
unfolding with_socket
is_up_of k none = done (failure error)
is_up_of k (some id) =
    with_socket k (failure error)
      (λ ctl. do info ← ask ctl (λ t. k.adapter_info t id); done (up_answer info))

-- bluetooth_is_up
unfoldable pub bluetooth_is_up : Kernel → Option ℕ → ℕ → Bool → Bool → T Answer
unfolding is_up_of
bluetooth_is_up k input input_len out len =
    if input_len == 0
    then done (failure error)
    else if out && len
    then is_up_of k input
    else done (failure error)

-- EALREADY is 114
unfoldable pub power_status : Outcome → Status
power_status (succeeds n) = success
power_status (fails (other_errno e)) = if e == 114 then success else error
power_status (fails e) = error

unfoldable pub switch_power : Kernel → Bool → Option ℕ → T Status
unfolding power_status with_socket
switch_power k up none = done error
switch_power k up (some id) =
    with_socket k error (λ ctl t. (power_status (k.power t up id), powered (pos ctl) up id ∷ t))

-- bluetooth_set_up
unfoldable pub bluetooth_set_up : Kernel → Option ℕ → ℕ → Bool → T Status
unfolding switch_power
bluetooth_set_up k input input_len up =
    if input_len == 0 then done error else switch_power k up input
