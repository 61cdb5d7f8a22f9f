-- ===== src/Registry/Valid.antt =====
-- The representation invariant of the registry's maps: the two maps and the heap agree, so every
-- config belongs to one device id and to at most one socket, and no map holds a freed pointer.
use sensor_lib.Prelude.{
  ℕ, ◌<◌, ◌≡◌, ◌≢◌, ◌⊎◌, inl, inr, true, none, some, List, Text, put, ◌==◌, Bool-cases,
  Option-cases, arith,
}
use sensor_lib.Registry.State.{SocketConfig, Registry}
use sensor_lib.Registry.Config.{get_config_of_socket, get_config, update_config}

-- A socket's entry points to a live config that names the socket.
abbrev pub SockEntry : Registry → ℕ → ℕ → Type 0
SockEntry r s p = (s ≢ 0) × ((c : SocketConfig) × (r.configs p ≡ some c) × (c.socket ≡ s))

abbrev pub IdEntry : Registry → Text → ℕ → Type 0
IdEntry r d p = (c : SocketConfig) × (r.configs p ≡ some c) × (c.device_id ≡ d)

-- A live config is the one of its device id, and the one of its socket if it has one.
abbrev pub Owned : Registry → ℕ → SocketConfig → Type 0
Owned r p c =
    (p < r.next_config)
    × (r.device_id_to_config c.device_id ≡ some p)
    × (c.socket ≢ 0 → r.sock_to_config c.socket ≡ some p)

pub record IsValid (r : Registry) : Type 0 where
  pub by_sock : (s p : ℕ) → r.sock_to_config s ≡ some p → SockEntry r s p
  pub by_id : (d : Text) (p : ℕ) → r.device_id_to_config d ≡ some p → IdEntry r d p
  pub owned : (p : ℕ) (c : SocketConfig) → r.configs p ≡ some c → Owned r p c

abbrev pub with_ports : Registry → List ℕ → Registry
with_ports r ports = record r { available_local_ports = ports }

-- The invariant does not speak of the port pool.
pub with_ports-IsValid : {r : Registry} (ports : List ℕ) → IsValid r → IsValid (with_ports r ports)
with_ports-IsValid ports v = record { by_sock = v.by_sock; by_id = v.by_id; owned = v.owned }

-- Writing back a config with its socket and device id unchanged keeps the invariant.
pub put-IsValid :
    {r : Registry} (p : ℕ) (c c' : SocketConfig)
    → IsValid r
    → r.configs p ≡ some c
    → c'.socket ≡ c.socket
    → c'.device_id ≡ c.device_id
    → IsValid (record r { configs = put r.configs p (some c') })
put-IsValid {r} p c c' v e es ed = record {
  by_sock = λ s q h. (
    (v.by_sock s q h).0,
    elim (Bool-cases (p == q)) [
      | inl hit ↦ (c', ground arith, ground (arith, (v.by_sock s q h).1.1, (v.by_sock s q h).1.2))
      | inr miss ↦ ((v.by_sock s q h).1.0, rw miss (v.by_sock s q h).1.1, (v.by_sock s q h).1.2)
    ],
  );
  by_id = λ d q h. elim (Bool-cases (p == q)) [
    | inl hit ↦ (c', ground arith, ground (arith, (v.by_id d q h).1, (v.by_id d q h).2))
    | inr miss ↦ ((v.by_id d q h).0, rw miss (v.by_id d q h).1, (v.by_id d q h).2)
  ];
  owned = λ q x h. elim (Bool-cases (p == q)) [
    | inl hit ↦ ground (arith, v.owned p c e)
    | inr miss ↦ v.owned q x (ground arith)
  ];
}

module _ {r : Registry} (v : IsValid r) where
  -- Reading by socket finds no config, or the live one that names the socket.
  pub get_of_socket-cases :
      (s : ℕ)
      → ((r.sock_to_config s ≡ none) × (get_config_of_socket s r ≡ some (none, r)))
        ⊎ ((p : ℕ) × (c : SocketConfig) × (r.sock_to_config s ≡ some p)
            × (r.configs p ≡ some c)
            × (c.socket ≡ s)
            × (get_config_of_socket s r ≡ some (some c, r)))
  unfolding get_config_of_socket
  get_of_socket-cases s = elim (Option-cases (r.sock_to_config s)) [
    | inl e ↦ inl (e, ground arith)
    | inr (p, e) ↦
        let (ne, c, ec, es) = flat (v.by_sock s p e) in inr (p, c, e, ec, es, ground arith)
  ]
    where
      flat :
          {s p : ℕ}
          → SockEntry r s p
          → (s ≢ 0) × (c : SocketConfig) × (r.configs p ≡ some c) × (c.socket ≡ s)
      flat h = (h.0, h.1.0, h.1.1, h.1.2)

  pub get-cases :
      (d : Text)
      → ((r.device_id_to_config d ≡ none) × (get_config d r ≡ some (none, r)))
        ⊎ ((p : ℕ) × (c : SocketConfig) × (r.device_id_to_config d ≡ some p)
            × (r.configs p ≡ some c)
            × (c.device_id ≡ d)
            × (get_config d r ≡ some (some c, r)))
  unfolding get_config
  get-cases d = elim (Option-cases (r.device_id_to_config d)) [
    | inl e ↦ inl (e, ground arith)
    | inr (p, e) ↦ let (c, ec, ed) = v.by_id d p e in inr (p, c, e, ec, ed, ground arith)
  ]

  -- UpdateConfig writes through to the config that has the socket and the device id.
  pub update-at :
      (p : ℕ) (c c' : SocketConfig)
      → r.configs p ≡ some c
      → c'.socket ≡ c.socket
      → c'.device_id ≡ c.device_id
      → update_config c' r ≡ some (true, record r { configs = put r.configs p (some c') })
  unfolding update_config
  update-at p c c' e es ed = elim (Bool-cases (c.socket == 0)) [
    | inl null ↦ elim (Option-cases (r.sock_to_config c'.socket)) [
      | inl n ↦ ground (arith, v.owned p c e)
      | inr (q, h) ↦ absurd ((v.by_sock c'.socket q h).0 (ground arith))
    ]
    | inr some_socket ↦ ground (arith, v.owned p c e)
  ]
