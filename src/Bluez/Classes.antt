-- ===== src/Bluez/Classes.antt =====
-- The device classes and the reports of the two scanners compared.
use sensor_lib.Prelude.{
  ℕ, suc, ◌+◌, ◌*◌, ◌/◌, ◌%◌, ◌^◌, ◌≤◌, ◌≡◌, refl, ap, true, false, inl, inr, Option, none, some,
  List, [], ◌∷◌, ◌++◌, arith, pos, negsuc, ℤ, ◌==◌, ltb, ltb→lt, if◌then◌else◌, length,
  length-append, Bool-cases, min,
}
use sensor_lib.Types.{BluetoothDevice, success, error, not_supported}
use sensor_lib.Instrument.State.{Answer, bluetooth_devices, failure}
use sensor_lib.Bluez.Info.{bluetooth_major_from_cod, with_class}
use sensor_lib.Bluez.Inquiry.{
  Found, Hci, bluetooth_major_from_class, found_device, found_devices, inquired, inquire,
  adapter_of, hci_discover,
}

-- For every class of device that bluetoothctl prints, the three bytes that the BlueZ scanner keeps
-- are its low 24 bits, and its major class is the one that the HCI scanner finds from those bytes.
with_class_agrees :
    (cod : ℕ) (d : BluetoothDevice)
    → (b0 : ℕ) × (b1 : ℕ) × (b2 : ℕ) × ((with_class cod d).dev_class ≡ b0 ∷ b1 ∷ b2 ∷ [])
      × (b2 * 2 ^ 16 + b1 * 2 ^ 8 + b0 ≡ cod % 2 ^ 24)
      × ((with_class cod d).major ≡ bluetooth_major_from_class b0 b1 b2)
unfolding with_class
with_class_agrees cod d = (
  cod % 2 ^ 8,
  cod / 2 ^ 8 % 2 ^ 8,
  cod / 2 ^ 16 % 2 ^ 8,
  refl,
  omega arith,
  unfold bluetooth_major_from_cod in
      (unfold bluetooth_major_from_class in ap (λ m. if ltb m 9 then m else 63) (same_bits cod)),
)
  where
    same_bits :
        (cod : ℕ)
        → cod % 2 ^ 32 / 2 ^ 8 % 32
          ≡ (cod / 2 ^ 16 % 2 ^ 8 * 2 ^ 16 + cod / 2 ^ 8 % 2 ^ 8 * 2 ^ 8 + cod % 2 ^ 8) / 2 ^ 8 % 32
    same_bits cod = omega arith

-- The number of devices, each in the place of its result
found_devices-length :
    (h : Hci) (i : ℕ) (fs : List Found) (devices : List BluetoothDevice)
    → length devices ≤ 150
    → length (found_devices h i fs devices) ≡ min 150 (length devices + length fs)
unfolding found_devices
found_devices-length h i [] devices le = omega arith
found_devices-length h i (f ∷ fs) devices le = elim (Bool-cases (ltb (length devices) 150)) [
  | inl room ↦ rw room (
      omega (
        arith,
        found_devices-length h (i + 1) fs (devices ++ found_device h i f ∷ [])
            (omega (arith, length-append {0} devices (found_device h i f ∷ []), ltb→lt _ _ room)),
        length-append {0} devices (found_device h i f ∷ []),
      ))
  | inr full ↦ rw full (omega (arith, ltb_false (length devices) 150 full))
]
  where
    ltb_false : (a b : ℕ) → ltb a b ≡ false → b ≤ a
    ltb_false a b h = ground arith

-- What the HCI scanner answers for an inquiry
abbrev pub Inquired : Hci → Option (List Found) → Answer → Type 0
Inquired h none a = a ≡ failure error
Inquired h (some fs) a =
    (ds : List BluetoothDevice) × (a
      ≡ record { status = success; output = bluetooth_devices ds; output_len = some (length ds) })
    × (length ds ≡ min 150 (length fs))

abbrev pub InquiryAnswer : Hci → ℤ → Answer → Type 0
InquiryAnswer h (negsuc n) a = a ≡ failure not_supported
InquiryAnswer h (pos id) a = Inquired h (h.inquiry id) a

inquired-Inquired : (h : Hci) (o : Option (List Found)) → Inquired h o (inquired h o)
unfolding inquired
inquired-Inquired h none = refl
inquired-Inquired h (some fs) =
    (found_devices h 0 fs [], refl, omega (arith, found_devices-length h 0 fs [] (omega arith)))

inquire-Answer : (h : Hci) (z : ℤ) → InquiryAnswer h z (inquire h z)
unfolding inquire
inquire-Answer h (negsuc n) = refl
inquire-Answer h (pos id) = inquired-Inquired h (h.inquiry id)

-- The HCI scanner asks the adapter of the input, if there is one and the input length is not 0, and
-- else the adapter of the route: it is not supported without one, fails with the inquiry, and
-- else reports one device for each result, 150 at most, with their number as output length.
hci_discover-Answer :
    (h : Hci) (input : Option ℕ) (n : ℕ)
    → InquiryAnswer h h.route (hci_discover h none n true true)
      × ((id : ℕ) → InquiryAnswer h (pos id) (hci_discover h (some id) (suc n) true true))
      × InquiryAnswer h h.route (hci_discover h input 0 true true)
unfolding hci_discover adapter_of
hci_discover-Answer h none n = (inquire-Answer h h.route, λ id. given id, inquire-Answer h h.route)
  where
    given : (id : ℕ) → InquiryAnswer h (pos id) (inquire h (if suc n == 0 then h.route else pos id))
    given id = let e : (suc n == 0) ≡ false = ground arith in rw e (inquire-Answer h (pos id))
hci_discover-Answer h (some i) n =
    (inquire-Answer h h.route, λ id. given id, inquire-Answer h h.route)
  where
    given : (id : ℕ) → InquiryAnswer h (pos id) (inquire h (if suc n == 0 then h.route else pos id))
    given id = let e : (suc n == 0) ≡ false = ground arith in rw e (inquire-Answer h (pos id))
