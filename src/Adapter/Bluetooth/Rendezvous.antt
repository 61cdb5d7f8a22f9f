-- ===== src/Adapter/Bluetooth/Rendezvous.antt =====
-- The roles and ports that two Bluetooth peers derive from their MAC addresses.
use sensor_lib.Prelude.{
  ℕ, ◌+◌, ◌*◌, ◌%◌, ◌≤◌, ◌<◌, ◌≡◌, refl, sym, ◌≢◌, ◌↔◌, not, some, [], ◌∷◌, Text, arith,
}
use sensor_lib.Os.{Os, Trace, socket_made}
use sensor_lib.Adapter.Bluetooth.State.{
  BluetoothAdapter, Library, greater, generate_unique_port, port_range_end, construct, first_byte,
  second_byte,
}

-- The 16-bit number that GenerateUniquePort reads from a hash.
abbrev pub hash_value : Library → Text → ℕ
hash_value lib mac = (first_byte (lib.sha256 mac) * 256 + second_byte (lib.sha256 mac)) % 65536

-- For every MAC address and every hash function the port is odd and lies in [0x1003, 0x1101], and
-- it lies above PORT_RANGE_END, 0x1100, exactly when the hash value is 127 modulo 128.
pub generate_unique_port_bounds :
    (lib : Library) (mac : Text)
    → let p = generate_unique_port lib mac in
      (p % 2 ≡ 1)
      × (0x1003 ≤ p)
      × (p ≤ 0x1101)
      × ((port_range_end < p) ↔ (hash_value lib mac % 128 ≡ 127))
unfolding generate_unique_port
generate_unique_port_bounds lib mac =
    (omega arith, omega arith, omega arith, (λ h. omega arith, λ h. omega arith))

-- `strcmp` orders two different strings one way or the other.
greater-flip : (s t : Text) → s ≢ t → greater s t ≡ not (greater t s)
unfolding greater
greater-flip [] [] n = absurd (n refl)
greater-flip [] (y ∷ t) n = refl
greater-flip (x ∷ s) [] n = refl
greater-flip (x ∷ s) (y ∷ t) n = ground (arith, greater-flip s t)

generate_agrees :
    (libA libB : Library) (mac : Text)
    → libA.sha256 mac ≡ libB.sha256 mac
    → generate_unique_port libA mac ≡ generate_unique_port libB mac
unfolding generate_unique_port
generate_agrees libA libB mac h = rw h

-- What the constructor derives, where the HCI device answers.
construct_lem :
    (os : Os) (lib : Library) (a : BluetoothAdapter) (t : Trace) (mac : Text)
    → ((v : Trace) → lib.local_address v ≡ some mac)
    → let x = (construct os lib a t).0 in
      (x.is_listener ≡ greater a.peer_mac mac)
      × (x.local_psm ≡ generate_unique_port lib a.peer_mac)
      × (x.remote_psm ≡ generate_unique_port lib mac)
unfolding construct
construct_lem os lib a t mac l =
    let e = l (
      socket_made (
        os.socket
          (socket_made (os.socket (socket_made (os.socket t) ∷ t)) ∷ socket_made (os.socket t) ∷ t))
      ∷ socket_made (os.socket (socket_made (os.socket t) ∷ t))
      ∷ socket_made (os.socket t)
      ∷ t) in
    (ground (arith, e), refl, ground (arith, e))

-- Two peers that each hold the other's MAC address, which differ, whose HCI devices answer and who
-- hash alike: exactly one of them is the listener, and each one connects to the port that the other
-- one binds.
pub peers_meet :
    (osA osB : Os) (libA libB : Library) (a b : BluetoothAdapter) (t u : Trace) (macA macB : Text)
    → macA ≢ macB
    → a.peer_mac ≡ macB
    → b.peer_mac ≡ macA
    → ((v : Trace) → libA.local_address v ≡ some macA)
    → ((v : Trace) → libB.local_address v ≡ some macB)
    → ((s : Text) → libA.sha256 s ≡ libB.sha256 s)
    → let x = (construct osA libA a t).0 in
      let y = (construct osB libB b u).0 in
      (x.is_listener ≡ not y.is_listener)
      × (x.remote_psm ≡ y.local_psm)
      × (y.remote_psm ≡ x.local_psm)
peers_meet osA osB libA libB a b t u macA macB ne pa pb la lb h =
    let (lx, px, rx) = construct_lem osA libA a t macA la in
    let (ly, py, ry) = construct_lem osB libB b u macB lb in
    (
      ground (arith, lx, ly, pa, pb, greater-flip macB macA (λ e. ne (sym e))),
      ground (arith, rx, py, pb, generate_agrees libA libB macA (h macA)),
      ground (arith, ry, px, pa, generate_agrees libA libB macB (h macB)),
    )
