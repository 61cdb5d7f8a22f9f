-- ===== src/Scanner/Results.antt =====
-- The scan results of wifi_scanner_bridge.cpp: MAC addresses, signal, and the handler of a message.
use sensor_lib.Prelude.{
  ℕ, zero, suc, ◌+◌, ◌-◌, ◌/◌, ◌%◌, Bool, true, false, ◌||◌, ◌&&◌, Option, none, some, List, [],
  ◌∷◌, ◌++◌, Text, ℤ, pos, ltb, leb, if◌then◌else◌, length, take,
}
use sensor_lib.Comms.Strings.{to_upper}
use sensor_lib.Scanner.Elements.{find_ssid_ie, ssid_bytes}

-- WifiNetwork. The signal is a double of hundredths, kept as the number of hundredths.
pub record WifiNetwork : Type 0 where
  pub ssid : Text
  pub bssid : Text
  pub signal_mbm : ℤ
  pub has_signal : Bool

-- std::isxdigit in the C locale
unfoldable pub is_xdigit : ℕ → Bool
is_xdigit c = (leb b'0' c && leb c b'9') || (leb b'A' c && leb c b'F') || (leb b'a' c && leb c b'f')

-- The first loop of normalize_mac_address: the hex digits, `room` of them at most
unfoldable pub hex_digits : ℕ → Text → Text
unfolding is_xdigit to_upper
hex_digits room [] = []
hex_digits zero (c ∷ s) = []
hex_digits (suc room) (c ∷ s) =
    let more = hex_digits room s in
    let same = hex_digits (suc room) s in if is_xdigit c then to_upper c ∷ more else same

-- The second loop: pairs with colons between
unfoldable pub with_colons : Text → Text
with_colons (a ∷ b ∷ c ∷ s) = a ∷ b ∷ b':' ∷ with_colons (c ∷ s)
with_colons s = s

-- normalize_mac_address
unfoldable pub normalize_mac_address : Text → Text
unfolding hex_digits with_colons
normalize_mac_address input =
    let hex = hex_digits 12 input in if ltb (length hex) 12 then [] else with_colons hex

-- A digit of "%X"
unfoldable pub hex_digit : ℕ → ℕ
hex_digit n = if ltb n 10 then b'0' + n else b'A' + (n - 10)

-- Bytes, each as "%02X", with colons between
unfoldable pub print_bytes : List ℕ → Text
unfolding hex_digit
print_bytes [] = []
print_bytes (b ∷ []) = hex_digit (b / 16) ∷ hex_digit (b % 16) ∷ []
print_bytes (b ∷ c ∷ bs) = hex_digit (b / 16) ∷ hex_digit (b % 16) ∷ b':' ∷ print_bytes (c ∷ bs)

-- mac_to_string, of the first six bytes
unfoldable pub mac_to_string : List ℕ → Text
unfolding print_bytes
mac_to_string mac = print_bytes (take 6 mac)

-- The attributes of NL80211_ATTR_BSS that the handler reads, as libnl parses them.
pub record Bss : Type 0 where
  pub bssid : Option (List ℕ)
  pub ies : Option Text
  pub signal_mbm : Option ℤ

bssid_of : Option (List ℕ) → Text
unfolding normalize_mac_address mac_to_string
bssid_of none = []
bssid_of (some mac) = normalize_mac_address (mac_to_string mac)

ssid_of : Option Text → Text
unfolding find_ssid_ie ssid_bytes
ssid_of none = []
ssid_of (some ies) = ssid_bytes ies (find_ssid_ie ies)

with_signal : Option ℤ → WifiNetwork → WifiNetwork
with_signal none net = net
with_signal (some mbm) net = record net { signal_mbm = mbm; has_signal = true }

keep_bssid : Text → Bss → List WifiNetwork → List WifiNetwork
unfolding ssid_of with_signal
keep_bssid [] bss networks = networks
keep_bssid (c ∷ s) bss networks =
    networks
    ++ with_signal bss.signal_mbm
        (record { ssid = ssid_of bss.ies; bssid = c ∷ s; signal_mbm = pos 0; has_signal = false })
      ∷ []

-- scan_result_handler
unfoldable pub scan_result_handler : Option Bss → List WifiNetwork → List WifiNetwork
unfolding bssid_of keep_bssid
scan_result_handler none networks = networks
scan_result_handler (some bss) networks = keep_bssid (bssid_of bss.bssid) bss networks
