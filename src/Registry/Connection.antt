-- ===== src/Registry/Connection.antt =====
-- Connect, Disconnect and IsConnected on a valid registry.
use sensor_lib.Prelude.{
  ℕ, ◌≡◌, refl, ◌≢◌, inl, inr, Bool, true, false, Option, none, some, put, ◌==◌, if◌then◌else◌,
  Bool-cases, arith,
}
use sensor_lib.Registry.State.{SocketConfig, Registry, M, ◌>>=◌}
use sensor_lib.Registry.Config.{
  get_config_of_socket, connect, disconnect_of_socket, is_connected_of_socket,
}
use sensor_lib.Registry.Valid.{IsValid, put-IsValid, get_of_socket-cases, update-at}

-- The config of `s` with its flag set, written back.
abbrev pub with_flag : Registry → ℕ → SocketConfig → Bool → Registry
with_flag r p c b = record r { configs = put r.configs p (some (record c { connected = b })) }

-- What a query answers, without the state.
abbrev pub answer : {A : Type 0} → Option (A × Registry) → Option A
answer none = none
answer (some (a, r)) = some a

-- A socket that the registry knows: its config and where it lives.
pub record Known (r : Registry) (s : ℕ) : Type 0 where
  pub address : ℕ
  pub config : SocketConfig
  pub points : r.sock_to_config s ≡ some address
  pub holds : r.configs address ≡ some config

pub Known-socket : {r : Registry} {s : ℕ} → IsValid r → (k : Known r s) → k.config.socket ≡ s
Known-socket {r} {s} v k =
    ground
      (arith, (v.by_sock s k.address k.points).1.1, (v.by_sock s k.address k.points).1.2, k.holds)

module _ {r : Registry} {s : ℕ} (v : IsValid r) (k : Known r s) where
  pub get-Known : get_config_of_socket s r ≡ some (some k.config, r)
  unfolding get_config_of_socket
  get-Known = ground (arith, k.points, k.holds)

  pub connect_lem : connect s r ≡ some (true, with_flag r k.address k.config true)
  unfolding connect
  connect_lem = rw (get-Known, ◌>>=◌) (update-at v k.address k.config _ k.holds refl refl)

  pub disconnect_lem : disconnect_of_socket s r ≡ some (true, with_flag r k.address k.config false)
  unfolding disconnect_of_socket
  disconnect_lem = rw (get-Known, ◌>>=◌) (update-at v k.address k.config _ k.holds refl refl)

  pub flag-IsValid : (b : Bool) → IsValid (with_flag r k.address k.config b)
  flag-IsValid b = put-IsValid k.address k.config _ v k.holds refl refl

  pub is_connected-flag :
      (b : Bool) → answer (is_connected_of_socket s (with_flag r k.address k.config b)) ≡ some b
  unfolding is_connected_of_socket
  is_connected-flag b = ground (arith, k.points)

  -- Another socket has another config, which the write leaves alone.
  pub is_connected-flag_ne :
      (b : Bool) (t : ℕ)
      → t ≢ s
      → answer (is_connected_of_socket t (with_flag r k.address k.config b))
        ≡ answer (is_connected_of_socket t r)
  unfolding is_connected_of_socket
  is_connected-flag_ne b t n = elim (get_of_socket-cases v t) [
    | inl (e, _) ↦ ground (arith, e)
    | inr (q, c, e, ec, es, _) ↦ ground (arith, e, ec, es, Known-socket v k, k.holds)
  ]

pub is_connected-Known :
    {r : Registry} {b : ℕ}
    → IsValid r
    → (k : Known r b) → is_connected_of_socket b r ≡ some (k.config.connected, r)
unfolding is_connected_of_socket
is_connected-Known v k = ground (arith, k.points, k.holds)

-- What Connect and Disconnect promise of a flag `b`: the write succeeds, keeps the invariant, and
-- afterwards IsConnected answers `b` for the socket and as before for every other one.
pub record Sets (b : Bool) (s : ℕ) (r : Registry) (m : M Bool) : Type 0 where
  pub after : Registry
  pub runs : m r ≡ some (true, after)
  pub valid : IsValid after
  pub sockets : after.sockets ≡ r.sockets
  pub mapped : (t : ℕ) → after.sock_to_config t ≡ r.sock_to_config t
  pub reads :
      (t : ℕ)
      → answer (is_connected_of_socket t after)
        ≡ (if t == s then some b else answer (is_connected_of_socket t r))

flag-Sets :
    {r : Registry} {s : ℕ} (v : IsValid r) (k : Known r s) (b : Bool) (m : M Bool)
    → m r ≡ some (true, with_flag r k.address k.config b)
    → Sets b s r m
flag-Sets {r} {s} v k b m e = record {
  after = with_flag r k.address k.config b;
  runs = e;
  valid = flag-IsValid v k b;
  sockets = refl;
  mapped = λ t. refl;
  reads = λ t. elim (Bool-cases (t == s)) [
    | inl hit ↦ let same : t ≡ s = ground arith in rw (hit, same) (is_connected-flag v k b)
    | inr miss ↦ rw miss (is_connected-flag_ne v k b t (ground arith))
  ];
}

-- On a valid registry that knows the socket, Connect returns true, keeps the registry valid, and
-- afterwards IsConnected is true for that socket and unchanged for every other socket.
pub connect-Sets : {r : Registry} {s : ℕ} → IsValid r → Known r s → Sets true s r (connect s)
connect-Sets v k = flag-Sets v k true _ (connect_lem v k)

-- On a valid registry that knows the socket, Disconnect returns true, keeps the registry valid, and
-- afterwards IsConnected is false for that socket and unchanged for every other socket.
pub disconnect-Sets :
    {r : Registry} {s : ℕ} → IsValid r → Known r s → Sets false s r (disconnect_of_socket s)
disconnect-Sets v k = flag-Sets v k false _ (disconnect_lem v k)
