-- ===== src/Adapter/Wifi/Exchange.antt =====
-- What a Wi-Fi client sends to the access point, and the port that it takes from the answer.
use sensor_lib.Prelude.{
  ℕ, zero, suc, ◌%◌, ◌≤◌, ◌<◌, ◌≡◌, refl, ◌∙◌, ◌≢◌, true, [], ◌∷◌, ℤ, pos, length, Text, arith,
}
use sensor_lib.Os.{Os, Trace, sent, recv_tried}
use sensor_lib.Registry.Port.{min_port, max_port}
use sensor_lib.Adapter.Wifi.State.{WifiAdapter, swap16, pad, setup_local_addr}
use sensor_lib.Adapter.Wifi.Request.{received_port, exchange}

length-pad : (n : ℕ) (s : Text) → length (pad n s) ≡ n
unfolding pad
length-pad zero s = refl
length-pad (suc n) [] = omega (arith, length-pad n [])
length-pad (suc n) (c ∷ s) = omega (arith, length-pad n s)

swap16-lt : (x : ℕ) → swap16 x < 65536
unfolding swap16
swap16-lt x = omega arith

-- Converting a 16-bit number twice gives it back.
swap16-swap16 : (x : ℕ) → x < 65536 → swap16 (swap16 x) ≡ x
unfolding swap16
swap16-swap16 x h = omega arith

-- The calls of a complete exchange, newest first.
abbrev pub exchange_trace : WifiAdapter → Trace → Trace
exchange_trace a t =
    recv_tried a.sockfd_request
    ∷ sent a.sockfd_request (swap16 a.local_sin_port % 256 ∷ [])
    ∷ sent a.sockfd_request (pad 256 a.ssid)
    ∷ sent a.sockfd_request (pad 18 a.mac_address)
    ∷ t

abbrev tail_of : Trace → Trace
tail_of [] = []
tail_of (e ∷ t) = t

received_port-lt : (z : ℤ) (b : Text) → received_port z b < 65536
unfolding received_port
received_port-lt z [] = omega arith
received_port-lt z (b ∷ []) = omega arith
received_port-lt z (b ∷ c ∷ rest) = omega arith

-- A successful exchange sends 18 bytes of MAC address, 256 bytes of SSID and one byte of port, in
-- this order, and then receives; the port that it stores is a 16-bit number, so the test for a
-- negative one never fails.
exchange_lem :
    (os : Os) (a : WifiAdapter) (t : Trace)
    → (exchange os a t).0.1 ≡ true
    → ((exchange os a t).1 ≡ exchange_trace a t)
      × (length (pad 18 a.mac_address) ≡ 18)
      × (length (pad 256 a.ssid) ≡ 256)
      × ((n : ℕ) × ((exchange os a t).0.0.remote_port ≡ pos n) × (n < 65536))
unfolding exchange
exchange_lem os a t h =
    let answered = os.recv_bytes (tail_of (exchange_trace a t)) a.sockfd_request in
    (
      ground arith,
      length-pad 18 a.mac_address,
      length-pad 256 a.ssid,
      (received_port a.remote_port answered, ground arith, received_port-lt a.remote_port answered),
    )

-- A client whose local port is `p`, a port of the registry's range, and whose exchange succeeds has
-- sent its MAC address, its SSID and one byte for the port, which is `p` modulo 256 and never `p`,
-- and nothing else; and for the least and the greatest port of the range that byte is the same.
pub port_byte_loses :
    (os : Os) (a : WifiAdapter) (p : ℕ) (t : Trace)
    → min_port ≤ p
    → p ≤ max_port
    → (exchange os (setup_local_addr (pos p) a) t).0.1 ≡ true
    → ((exchange os (setup_local_addr (pos p) a) t).1
        ≡ recv_tried a.sockfd_request
          ∷ sent a.sockfd_request (p % 256 ∷ [])
          ∷ sent a.sockfd_request (pad 256 a.ssid)
          ∷ sent a.sockfd_request (pad 18 a.mac_address)
          ∷ t)
      × (p % 256 ≢ p)
      × (min_port % 256 ≡ max_port % 256)
unfolding setup_local_addr
port_byte_loses os a p t lo hi h =
    let byte : swap16 (setup_local_addr (pos p) a).local_sin_port % 256 ≡ p % 256 = omega arith in
    ((exchange_lem os (setup_local_addr (pos p) a) t h).0 ∙ rw byte refl, omega arith, omega arith)
