-- ===== src/Bluez/Inquiry.antt =====
-- bluetooth_discover_devices_backend of hci_scanner.c. The HCI library is a parameter.
use sensor_lib.Prelude.{
  ℕ, ◌+◌, ◌*◌, ◌/◌, ◌%◌, ◌^◌, Bool, false, ◌&&◌, Option, none, some, List, [], ◌∷◌, ◌++◌, Text, ℤ,
  pos, negsuc, ◌==◌, ltb, if◌then◌else◌, length,
}
use sensor_lib.Types.{success, error, not_supported, BluetoothDevice}
use sensor_lib.CText.{copy_string}
use sensor_lib.Instrument.State.{Answer, failure, bluetooth_devices}

-- inquiry_info: the address as ba2str prints it, and the class as three bytes
pub record Found : Type 0 where
  pub address : Text
  pub class0 : ℕ
  pub class1 : ℕ
  pub class2 : ℕ

-- hci_get_route, hci_inquiry for 150 devices at most, whether hci_open_dev succeeds, and
-- hci_read_remote_name
pub record Hci : Type 0 where
  pub route : ℤ
  pub inquiry : ℕ → Option (List Found)
  pub opens : Bool
  pub remote_name : Text → Option Text

-- bluetooth_major_from_class, with the class as one number
unfoldable pub bluetooth_major_from_class : ℕ → ℕ → ℕ → ℕ
bluetooth_major_from_class b0 b1 b2 =
    let m = (b2 * 2 ^ 16 + b1 * 2 ^ 8 + b0) / 2 ^ 8 % 32 in if ltb m 9 then m else 63

abbrev pub name_or_empty : Option Text → Text
name_or_empty none = []
name_or_empty (some name) = copy_string 256 name

unfoldable pub found_device : Hci → ℕ → Found → BluetoothDevice
unfolding bluetooth_major_from_class copy_string
found_device h i f = record {
  id = i % 2 ^ 16;
  mac_address = f.address;
  name = if h.opens then name_or_empty (h.remote_name f.address) else [];
  dev_class = f.class0 ∷ f.class1 ∷ f.class2 ∷ [];
  major = bluetooth_major_from_class f.class0 f.class1 f.class2;
  rssi = record { value_dbm = pos 0; valid = false };
}

-- The loop over the results, with the devices that are in the output array
unfoldable pub found_devices : Hci → ℕ → List Found → List BluetoothDevice → List BluetoothDevice
unfolding found_device
found_devices h i [] devices = devices
found_devices h i (f ∷ fs) devices =
    if ltb (length devices) 150
    then found_devices h (i + 1) fs (devices ++ found_device h i f ∷ [])
    else devices

unfoldable pub inquired : Hci → Option (List Found) → Answer
unfolding found_devices
inquired h none = failure error
inquired h (some fs) =
    let devices = found_devices h 0 fs [] in
    record {
      status = success;
      output = bluetooth_devices devices;
      output_len = some (length devices);
    }

unfoldable pub inquire : Hci → ℤ → Answer
unfolding inquired
inquire h (negsuc n) = failure not_supported
inquire h (pos dev_id) = inquired h (h.inquiry dev_id)

-- The adapter: the one of the input, or else the route
unfoldable pub adapter_of : Hci → Option ℕ → ℕ → ℤ
adapter_of h none input_len = h.route
adapter_of h (some id) input_len = if input_len == 0 then h.route else pos id

-- bluetooth_discover_devices_backend; the flags say whether the output pointers are not null
unfoldable pub hci_discover : Hci → Option ℕ → ℕ → Bool → Bool → Answer
unfolding inquire adapter_of
hci_discover h input input_len out len =
    if out && len then inquire h (adapter_of h input input_len) else failure error
