-- ===== src/Adapter/Wifi/Manager/Choice.antt =====
-- Which Wi-Fi device an adapter uses, and what its constructor takes from it.
use sensor_lib.Prelude.{
  ℕ, ◌≤◌, ◌≡◌, Bool, Option, none, some, List, [], ◌∷◌, ◌==◌, if◌then◌else◌, length,
}
use sensor_lib.Adapter.Wifi.State.{WifiAdapter}
use sensor_lib.Adapter.Wifi.Manager.{Manager, activated, type_of_mode, copied, or_host_name}

filter {ℓ} : {A : Type ℓ} → (A → Bool) → List A → List A
filter p [] = []
filter p (x ∷ xs) = let ys = filter p xs in if p x then x ∷ ys else ys

last_or {ℓ} : {A : Type ℓ} → Option A → List A → Option A
last_or o [] = o
last_or o (x ∷ xs) = last_or (some x) xs

first_or {ℓ} : {A : Type ℓ} → Option A → List A → Option A
first_or o [] = o
first_or o (x ∷ xs) = some x

-- The first activated Wi-Fi device; without one the last Wi-Fi device, or else the null pointer.
unfoldable pub best_device : Manager → List ℕ → Option ℕ
unfolding filter last_or first_or
best_device m ds =
    let wireless = filter m.is_wifi ds in
    first_or (last_or none wireless) (filter (λ d. m.state d == activated) wireless)

-- What the constructor leaves in the adapter: the type of the best device, and of its names what
-- fits the buffers.
pub record Identifies (m₁ m₂ m₃ : Manager) (ds₁ ds₂ ds₃ : List ℕ) (a b : WifiAdapter) : Type 0 where
  type_is : b.device_type ≡ type_of_mode (m₁.wifi_mode (best_device m₁ ds₁))
  mac_is : b.mac_address ≡ (copied 18 a.mac_address (m₂.hw_address (best_device m₂ ds₂))).0
  ssid_is :
      let d = best_device m₃ ds₃ in
      b.ssid ≡ (copied 256 a.ssid (or_host_name m₃ (m₃.access_point d (m₃.path d)))).0
  mac_fits : length b.mac_address ≤ 17
  ssid_fits : length b.ssid ≤ 255
