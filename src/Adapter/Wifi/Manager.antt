-- ===== src/Adapter/Wifi/Manager.antt =====
-- What WifiAdapter asks of NetworkManager: GetNMClient, GetNMDevice, GetWifiDeviceType, GetLocalIP,
-- GetSSID and GetMacAddress, and the constructor. libnm is a parameter.
pub mod Choice
use sensor_lib.Prelude.{
  ℕ, Bool, true, false, Option, none, some, List, [], ◌∷◌, Text, ◌==◌, ltb, if◌then◌else◌, ◌-◌,
}
use sensor_lib.Types.{WifiDeviceType, wifi_unknown, wifi_adapter, wifi_router}
use sensor_lib.Os.{Os, Trace}
use sensor_lib.CText.{strncpy}
use sensor_lib.Adapter.Wifi.State.{WifiAdapter}
use sensor_lib.Adapter.Wifi.Conn.{construct}

-- A method stops where a null pointer is read.
infixl 5 ◌>>=◌
abbrev ◌>>=◌ : {A B : Type 0} → Option A → (A → Option B) → Option B
◌>>=◌ none f = none
◌>>=◌ (some a) f = f a

-- What libnm answers at one moment. A device is the number that its pointer is; libnm also answers
-- for the null pointer.
pub record Manager : Type 0 where
  -- nm_client_new, then the array of nm_client_get_devices; `none` is no client, and so no array
  pub devices : Option (List ℕ)
  pub is_wifi : ℕ → Bool
  pub state : ℕ → ℕ
  pub wifi_mode : Option ℕ → ℕ
  pub hw_address : Option ℕ → Option Text
  pub path : Option ℕ → Option Text
  -- `none` is no access point; then its name in UTF-8
  pub access_point : Option ℕ → Option Text → Option (Option Text)
  pub host_name : Option Text
  -- `none` is no configuration; then its array of addresses, which may be null
  pub ip4_config : Option ℕ → Option (Option (List (Option Text)))

-- NM_DEVICE_STATE_ACTIVATED
abbrev pub activated : ℕ
activated = 100

-- The loop of GetNMDevice, with the device that is kept
unfoldable pub scan_devices : Manager → Option ℕ → List ℕ → Option ℕ
scan_devices m kept [] = kept
scan_devices m kept (d ∷ ds) =
    let keeping = scan_devices m (some d) ds in
    let skipping = scan_devices m kept ds in
    if m.is_wifi d then (if m.state d == activated then some d else keeping) else skipping

-- GetNMDevice(client.Ref()); `none` is the read of `devices->len` through a null pointer.
unfoldable pub get_nm_device : Manager → Option (Option ℕ)
unfolding scan_devices
get_nm_device m = elim (m.devices) [ none ↦ none | some ds ↦ some (scan_devices m none ds) ]

-- The rest of a method, with the device
unfoldable pub with_device : {A : Type 0} → Manager → (Option ℕ → A) → Option A
unfolding get_nm_device
with_device m f = do d ← get_nm_device m; some (f d)

-- NM_802_11_MODE_UNKNOWN, ADHOC, INFRA, AP and MESH are 0 to 4.
unfoldable pub type_of_mode : ℕ → WifiDeviceType
type_of_mode n =
    if n == 3
    then wifi_router
    else if n == 1
    then wifi_adapter
    else if n == 2
    then wifi_adapter
    else if n == 4
    then wifi_adapter
    else wifi_unknown

unfoldable pub get_wifi_device_type : Manager → Option WifiDeviceType
unfolding with_device type_of_mode
get_wifi_device_type m = with_device m (λ d. type_of_mode (m.wifi_mode d))

-- nm_ip_address_get_address of the first address
unfoldable pub first_address : Option (Option (List (Option Text))) → Option Text
first_address none = none
first_address (some none) = none
first_address (some (some [])) = none
first_address (some (some (a ∷ rest))) = a

unfoldable pub get_local_ip : Manager → Option (Option Text)
unfolding with_device first_address
get_local_ip m = with_device m (λ d. first_address (m.ip4_config d))

-- strncpy(buffer, s, size - 1) and a zero behind it, into a buffer that holds `old`; with `found`
unfoldable pub copied : ℕ → Text → Option Text → Text × Bool
copied size old none = (old, false)
copied size old (some s) = (strncpy (size - 1) s, true)

-- GetMacAddress, for a buffer that is not null and holds `old`
unfoldable pub get_mac_address : Manager → ℕ → Text → Option (Text × Bool)
unfolding with_device copied
get_mac_address m size old =
    if ltb size 18 then some (old, false) else with_device m (λ d. copied size old (m.hw_address d))

unfoldable pub or_host_name : Manager → Option (Option Text) → Option Text
or_host_name m none = m.host_name
or_host_name m (some s) = s

-- GetSSID, for a buffer that is not null and holds `old`
unfoldable pub get_ssid : Manager → ℕ → Text → Option (Text × Bool)
unfolding with_device copied or_host_name
get_ssid m size old =
    if ltb size 256
    then some (old, false)
    else with_device m (λ d. copied size old (or_host_name m (m.access_point d (m.path d))))

-- The constructor up to its sockets, with what libnm answers the three times that it is asked
unfoldable pub identified : Manager → Manager → Manager → WifiAdapter → Option WifiAdapter
unfolding get_wifi_device_type get_mac_address get_ssid
identified m₁ m₂ m₃ a = do
  type ← get_wifi_device_type m₁
  mac ← get_mac_address m₂ 18 a.mac_address
  name ← get_ssid m₃ 256 a.ssid
  some (record a { device_type = type; mac_address = mac.0; ssid = name.0 })

-- The constructor; `none` is a null pointer that is read.
unfoldable pub create :
    Os → Manager → Manager → Manager → WifiAdapter → Trace → Option (WifiAdapter × Trace)
unfolding identified construct
create os m₁ m₂ m₃ a t = do b ← identified m₁ m₂ m₃ a; some (construct os b t)
