-- ===== src/Comms/Candidates.antt =====
-- Wi-Fi peers from the ARP table: discover_wifi_candidates of comms_runtime.cpp. The files under
-- /sys/class/net and /proc/net/arp are a parameter.
use sensor_lib.Prelude.{
  ℕ, zero, suc, Bool, true, false, not, ◌||◌, Option, none, some, List, [], ◌∷◌, ◌++◌, Text, bytes,
  ltb, ◌==◌, if◌then◌else◌, text_eq, pos,
}
use sensor_lib.Types.{WifiDevice, wifi_adapter, copy_string}
use sensor_lib.Comms.Strings.{is_blank, trim_copy, normalize_mac}

-- What the runtime reads of the file system: the interfaces, as far as /sys/class/net can be listed
-- (otherwise directory_iterator throws, which ends the process and is not modelled), whether they have a `wireless`
-- directory, their `operstate` and `address` lines, and the lines of the ARP table.
pub record Files : Type 0 where
  pub interfaces : List Text
  pub wireless : Text → Bool
  pub operstate : Text → Option Text
  pub address : Text → Option Text
  pub arp : Option (List Text)

-- WifiCandidate
pub record Candidate : Type 0 where
  pub device : WifiDevice
  pub interface_name : Text
  pub ip_address : Text

-- std::string's and std::strcmp's `<`
unfoldable pub less : Text → Text → Bool
less s [] = false
less [] (d ∷ t) = true
less (c ∷ s) (d ∷ t) =
    let rest = less s t in if ltb c d then true else if ltb d c then false else rest

-- `std::sort`, by insertion
unfoldable pub insert_by {ℓ} : {A : Type ℓ} → (A → A → Bool) → A → List A → List A
insert_by lt a [] = a ∷ []
insert_by lt a (b ∷ bs) = let rest = b ∷ insert_by lt a bs in if lt b a then rest else a ∷ b ∷ bs

unfoldable pub sort_by {ℓ} : {A : Type ℓ} → (A → A → Bool) → List A → List A
unfolding insert_by
sort_by lt [] = []
sort_by lt (a ∷ as') = insert_by lt a (sort_by lt as')

unfoldable pub member : Text → List Text → Bool
member k [] = false
member k (j ∷ js) = text_eq j k || member k js

is_down : Option Text → Bool
unfolding trim_copy
is_down none = false
is_down (some operstate) = text_eq (trim_copy operstate) (bytes "down")

-- interface_is_usable
unfoldable pub interface_is_usable : Files → Text → Bool
unfolding is_down
interface_is_usable f name =
    if text_eq name (bytes "lo") then false else not (is_down (f.operstate name))

usable_wireless : Files → List Text → List Text
unfolding interface_is_usable
usable_wireless f [] = []
usable_wireless f (name ∷ names) =
    let rest = usable_wireless f names in
    if not (interface_is_usable f name) || not (f.wireless name) then rest else name ∷ rest

-- list_wireless_interfaces
unfoldable pub list_wireless_interfaces : Files → List Text
unfolding usable_wireless sort_by less
list_wireless_interfaces f = sort_by less (usable_wireless f f.interfaces)

-- local_interface_mac
unfoldable pub local_interface_mac : Files → Text → Text
unfolding trim_copy normalize_mac
local_interface_mac f name = elim (f.address name) [
  | none ↦ []
  | some line ↦ normalize_mac (trim_copy line)
]

-- std::isspace in the C locale, by which `>>` splits
is_space : ℕ → Bool
is_space c = is_blank c || c == 11 || c == 12

skip_spaces : Text → Text
unfolding is_space
skip_spaces [] = []
skip_spaces (c ∷ s) = let rest = skip_spaces s in if is_space c then rest else c ∷ s

-- The word at the front of a stream, and what follows it.
word : Text → Text × Text
unfolding is_space
word [] = ([], [])
word (c ∷ s) = let (w, rest) = word s in if is_space c then ([], c ∷ s) else (c ∷ w, rest)

-- A word that `>>` read, before the words that follow; an empty one fails the stream.
add_word : Text → Option (List Text) → Option (List Text)
add_word [] more = none
add_word (c ∷ w) none = none
add_word (c ∷ w) (some ws) = some ((c ∷ w) ∷ ws)

-- `n` words, if the line has so many.
words : ℕ → Text → Option (List Text)
unfolding word skip_spaces add_word
words zero s = some []
words (suc n) s = let (w, rest) = word (skip_spaces s) in let more = words n rest in add_word w more

-- The columns of an ARP line that are used.
pub record Row : Type 0 where
  pub ip_address : Text
  pub mac_address : Text
  pub interface_name : Text

row_of : Option (List Text) → Option Row
row_of (some (ip ∷ hw ∷ flags ∷ mac ∷ mask ∷ name ∷ [])) =
    some (record { ip_address = ip; mac_address = mac; interface_name = name })
row_of _ = none

-- `parser >> ip >> hw_type >> flags >> mac >> mask >> interface`
unfoldable pub parse_row : Text → Option Row
unfolding words row_of
parse_row line = row_of (words 6 line)

abbrev pub zero_mac : Text
zero_mac = bytes "00:00:00:00:00:00"

-- `interface_name + "|" + mac_address`
abbrev pub row_key : Text → Text → Text
row_key name mac = name ++ (b'|' ∷ mac)

unfoldable pub candidate_of : Row → Text → Candidate
candidate_of row mac = record {
  device = record {
    ssid = copy_string 256 row.ip_address;
    mac_address = copy_string 18 mac;
    type = wifi_adapter;
    rssi = record { value_dbm = pos 0; valid = false };
  };
  interface_name = row.interface_name;
  ip_address = row.ip_address;
}

-- What the loop makes of a line: skip it, or take a candidate under a key.
unfoldable pub accept : List Text → List Text → Option Row → Option (Text × Candidate)
unfolding normalize_mac member candidate_of
accept interfaces seen none = none
accept interfaces seen (some row) =
    let mac = normalize_mac row.mac_address in
    let key = row_key row.interface_name mac in
    if text_eq mac zero_mac || not (member row.interface_name interfaces)
    then none
    else if member key seen
    then none
    else some (key, candidate_of row mac)

-- The loop over the lines, with the keys seen so far.
unfoldable pub scan_lines : List Text → List Text → List Text → List Candidate
unfolding parse_row accept
scan_lines interfaces seen [] = []
scan_lines interfaces seen (line ∷ lines) = elim (accept interfaces seen (parse_row line)) [
  | none ↦ scan_lines interfaces seen lines
  | some (key, c) ↦ c ∷ scan_lines interfaces (key ∷ seen) lines
]

-- The order of the candidates: by interface, then by MAC address.
unfoldable pub candidate_less : Candidate → Candidate → Bool
unfolding less
candidate_less a b =
    if text_eq a.interface_name b.interface_name
    then less a.device.mac_address b.device.mac_address
    else less a.interface_name b.interface_name

unfoldable pub after_header : List Text → List Text
after_header [] = []
after_header (l ∷ ls) = ls

unfoldable pub candidates_of : List Text → Option (List Text) → List Candidate
unfolding scan_lines sort_by candidate_less after_header
candidates_of interfaces none = []
candidates_of interfaces (some lines) =
    sort_by candidate_less (scan_lines interfaces [] (after_header lines))

-- discover_wifi_candidates; without wireless interfaces every line is skipped
unfoldable pub discover_wifi_candidates : Files → List Candidate
unfolding list_wireless_interfaces candidates_of
discover_wifi_candidates f = elim (list_wireless_interfaces f) [
  | [] ↦ []
  | name ∷ names ↦ candidates_of (name ∷ names) f.arp
]
