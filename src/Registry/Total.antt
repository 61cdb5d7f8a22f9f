-- ===== src/Registry/Total.antt =====
-- On a valid registry the queries answer and AddLocalPort runs, and what neither of them changes.
use sensor_lib.Prelude.{
  ℕ, ◌≡◌, refl, inl, inr, Bool, true, false, some, List, [], ◌∷◌, Text, pos, minus_one, put, arith,
}
use sensor_lib.Registry.State.{SocketConfig, Registry, M}
use sensor_lib.Registry.Config.{get_remote_port, is_connected_of_socket}
use sensor_lib.Registry.Port.{add_local_port, get_local_port}
use sensor_lib.Registry.Valid.{
  IsValid, put-IsValid, get_of_socket-cases, get-cases, update-at, with_ports, with_ports-IsValid,
}
use sensor_lib.Registry.Connection.{Known, answer}

pub Known-of : {r : Registry} {s p : ℕ} → IsValid r → r.sock_to_config s ≡ some p → Known r s
Known-of {r} {s} {p} v e =
    let (c, ec, es) = (v.by_sock s p e).1 in
    record { address = p; config = c; points = e; holds = ec }

-- A query that answers and changes nothing.
abbrev pub Answers : {A : Type 0} → M A → Registry → Type 0
Answers {A} m r = (x : A) × (m r ≡ some (x, r))

module _ {r : Registry} (v : IsValid r) (d : Text) where
  pub get_remote_port-Answers : Answers (get_remote_port d) r
  unfolding get_remote_port
  get_remote_port-Answers = elim (get-cases v d) [
    | inl (_, e) ↦ (minus_one, ground (arith, e))
    | inr (p, c, _, _, _, e) ↦ (c.remote_port, ground (arith, e))
  ]

  pub get_local_port-Answers : Answers (get_local_port d) r
  unfolding get_local_port
  get_local_port-Answers = elim (get-cases v d) [
    | inl (_, e) ↦ (minus_one, ground (arith, e))
    | inr (p, c, _, _, _, e) ↦ (c.local_port, ground (arith, e))
  ]

-- What a call leaves alone: the socket map and every connected flag.
pub record Quiet (r r' : Registry) : Type 0 where
  pub valid : IsValid r'
  pub sockets : r'.sockets ≡ r.sockets
  pub mapped : (t : ℕ) → r'.sock_to_config t ≡ r.sock_to_config t
  pub flags : (t : ℕ) → answer (is_connected_of_socket t r') ≡ answer (is_connected_of_socket t r)

put-flags :
    {r : Registry} (p : ℕ) (c c' : SocketConfig) (ps : List ℕ)
    → r.configs p ≡ some c
    → c'.connected ≡ c.connected
    → IsValid r
    → (t : ℕ)
    → answer (
        is_connected_of_socket t
          (record r { available_local_ports = ps; configs = put r.configs p (some c') }))
      ≡ answer (is_connected_of_socket t r)
unfolding is_connected_of_socket
put-flags {r} p c c' ps e ec v t = elim (get_of_socket-cases v t) [
  | inl (n, _) ↦ ground (arith, n)
  | inr (q, x, n, ex, _, _) ↦ ground (arith, n, ex)
]

ports-flags :
    (r : Registry) (ps : List ℕ)
    → IsValid r
    → (t : ℕ)
    → answer (is_connected_of_socket t (with_ports r ps)) ≡ answer (is_connected_of_socket t r)
unfolding is_connected_of_socket
ports-flags r ps v t = elim (get_of_socket-cases v t) [
  | inl (n, _) ↦ ground (arith, n)
  | inr (q, x, n, ex, _, _) ↦ ground (arith, n, ex)
]

add_local_port-by :
    {r : Registry} (d : Text) (ps : List ℕ)
    → r.available_local_ports ≡ ps
    → IsValid r
    → (b : Bool) × (r' : Registry) × (add_local_port d r ≡ some (b, r')) × Quiet r r'
unfolding add_local_port
add_local_port-by {r} d [] e v = (
  false,
  r,
  ground (arith, e),
  record { valid = v; sockets = refl; mapped = λ t. refl; flags = λ t. refl },
)
add_local_port-by {r} d (p ∷ ps) e v = elim (get-cases (with_ports-IsValid ps v) d) [
  | inl (_, g) ↦ (
    false,
    with_ports r ps,
    ground (arith, e, g),
    record {
      valid = with_ports-IsValid ps v;
      sockets = refl;
      mapped = λ t. refl;
      flags = ports-flags r ps v;
    },
  )
  | inr (q, c, _, ec, _, g) ↦
      let c' : SocketConfig = record c { local_port = pos p } in
      (
        true,
        record r { available_local_ports = ps; configs = put r.configs q (some c') },
        ground (arith, e, g, update-at (with_ports-IsValid ps v) q c c' ec refl refl),
        record {
          valid = put-IsValid q c c' (with_ports-IsValid ps v) ec refl refl;
          sockets = refl;
          mapped = λ t. refl;
          flags = put-flags q c c' ps ec refl v;
        },
      )
]

pub add_local_port-Quiet :
    {r : Registry} (d : Text)
    → IsValid r
    → (b : Bool) × (r' : Registry) × (add_local_port d r ≡ some (b, r')) × Quiet r r'
add_local_port-Quiet {r} d v = add_local_port-by d r.available_local_ports refl v
