-- ===== src/Registry/Removal.antt =====
-- Remove on a valid registry: the config is freed and leaves both maps, and nothing else changes.
use sensor_lib.Prelude.{
  ℕ, ◌≡◌, refl, ap, inl, inr, Bool, true, false, none, some, List, Text, put, put_text, ◌==◌,
  if◌then◌else◌, Bool-cases, text_eq_refl, text_eq-cases, arith, ℤ, pos, negsuc, leb, ◌&&◌,
}
use sensor_lib.Registry.State.{SocketConfig, Registry}
use sensor_lib.Registry.Config.{remove_config}
use sensor_lib.Registry.Port.{release_local_port_of_socket, insert_port, min_port, max_port}
use sensor_lib.Registry.SocketList.{Distinct, contains-erase, Distinct-erase}
use sensor_lib.Registry.Socket.{erase_first, remove, exists_socket}
use sensor_lib.Registry.Valid.{IsValid, with_ports, with_ports-IsValid, SockEntry, IdEntry, Owned}
use sensor_lib.Registry.Connection.{Known, Known-socket, disconnect_lem, flag-IsValid, with_flag}

-- The registry after Remove of a socket that `Known` describes.
abbrev pub removed : (r : Registry) (s : ℕ) → Known r s → Registry
removed r s k = record r {
  configs = put r.configs k.address none;
  sock_to_config = put r.sock_to_config s none;
  device_id_to_config = put_text r.device_id_to_config k.config.device_id none;
}

module _ {r : Registry} {s : ℕ} (v : IsValid r) (k : Known r s) where
  pub remove_config_lem : remove_config s r ≡ some (tt, removed r s k)
  unfolding remove_config
  remove_config_lem = ground (arith, k.points, k.holds)

  removed-by_sock :
      (t p : ℕ) → (removed r s k).sock_to_config t ≡ some p → SockEntry (removed r s k) t p
  removed-by_sock t p h = elim (Bool-cases (s == t)) [
    | inl hit ↦ absurd (ground arith)
    | inr miss ↦
        let old = v.by_sock t p (rw miss at h) in
        let (c, ec, es) = old.1 in
        (old.0, (c, ground (arith, ec, es, k.holds, Known-socket v k), es))
  ]

  removed-by_id :
      (d : Text) (p : ℕ)
      → (removed r s k).device_id_to_config d ≡ some p
      → IdEntry (removed r s k) d p
  removed-by_id d p h = elim (text_eq-cases k.config.device_id d) [
    | inl (hit, e) ↦ absurd (ground (arith, hit))
    | inr (miss, ne) ↦
        let (c, ec, ed) = v.by_id d p (rw miss at h) in
        (
          c,
          elim (Bool-cases (k.address == p)) [
            | inl same ↦ absurd (ne (ground (arith, ec, ed, k.holds)))
            | inr other ↦ rw other ec
          ],
          ed,
        )
  ]

  removed-Owned :
      (p : ℕ) (c : SocketConfig) → (removed r s k).configs p ≡ some c → Owned (removed r s k) p c
  removed-Owned p c h = elim (Bool-cases (k.address == p)) [
    | inl hit ↦ absurd (ground arith)
    | inr miss ↦
        let ec : r.configs p ≡ some c = rw miss at h in
        let o = v.owned p c ec in
        (
          o.0,
          elim (text_eq-cases k.config.device_id c.device_id) [
            | inl (_, e) ↦ absurd (
                ground
                  (arith, o.1, (v.owned k.address k.config k.holds).1, ap r.device_id_to_config e))
            | inr (other, _) ↦ rw other o.1
          ],
          λ has. elim (Bool-cases (s == c.socket)) [
            | inl same ↦ absurd (ground (arith, o.2 has, k.points))
            | inr other ↦ rw other (o.2 has)
          ],
        )
  ]

  pub removed-IsValid : IsValid (removed r s k)
  removed-IsValid = record {
    by_sock = removed-by_sock;
    by_id = removed-by_id;
    owned = removed-Owned;
  }

-- The pool after ReleaseLocalPort of the config's local port.
abbrev pub give_back : ℤ → List ℕ → List ℕ
give_back (negsuc n) ports = ports
give_back (pos p) ports = if leb min_port p && leb p max_port then insert_port p ports else ports

abbrev with_sockets : Registry → List ℕ → Registry
with_sockets r sockets = record r { sockets = sockets }

with_sockets-IsValid :
    {r : Registry} (sockets : List ℕ) → IsValid r → IsValid (with_sockets r sockets)
with_sockets-IsValid sockets v = record { by_sock = v.by_sock; by_id = v.by_id; owned = v.owned }

release_of_socket_lem :
    {r : Registry} {s : ℕ} (k : Known r s)
    → (b : Bool) × (release_local_port_of_socket s r
        ≡ some (b, with_ports r (give_back k.config.local_port r.available_local_ports)))
unfolding release_local_port_of_socket
release_of_socket_lem {r} {s} k = elim_port k.config.local_port refl
  where
    elim_port :
        (z : ℤ)
        → k.config.local_port ≡ z
        → (b : Bool) × (release_local_port_of_socket s r
            ≡ some (b, with_ports r (give_back k.config.local_port r.available_local_ports)))
    elim_port (negsuc n) e = (false, ground (arith, k.points, k.holds))
    elim_port (pos p) e = (leb min_port p && leb p max_port, ground (arith, k.points, k.holds))

-- What Remove promises of a socket that the registry knows.
pub record Removes (r : Registry) (s : ℕ) (k : Known r s) : Type 0 where
  pub after : Registry
  pub runs : remove s r ≡ some (true, after)
  pub valid : IsValid after
  pub freed : after.configs k.address ≡ none
  pub no_device : after.device_id_to_config k.config.device_id ≡ none
  pub ports : after.available_local_ports ≡ give_back k.config.local_port r.available_local_ports
  pub sockets : after.sockets ≡ erase_first s r.sockets
  pub distinct : Distinct after.sockets
  pub listed : (t : ℕ) → exists_socket t after ≡ (if t == s then false else exists_socket t r)
  pub mapped : (t : ℕ) → after.sock_to_config t ≡ (if t == s then none else r.sock_to_config t)

-- On a valid registry whose socket list has no repetition, Remove of a listed socket with a config
-- returns true and never touches freed memory; afterwards the registry is valid, the config is
-- freed and neither map reaches it, its local port is back in the pool, and exactly this socket
-- has left the socket list and the socket map.
pub remove-Removes :
    {r : Registry} {s : ℕ}
    → IsValid r
    → Distinct r.sockets
    → exists_socket s r ≡ true
    → (k : Known r s) → Removes r s k
unfolding remove exists_socket
remove-Removes {r} {s} v d e k = record {
  after = r4;
  runs = ground (arith, e, released.1, disconnect_lem v1 k1, remove_config_lem v2 k2);
  valid = with_sockets-IsValid _ (removed-IsValid v2 k2);
  freed = ground arith;
  no_device = ground (arith, text_eq_refl k.config.device_id);
  ports = refl;
  sockets = refl;
  distinct = Distinct-erase s r.sockets d;
  listed = λ t. contains-erase t s r.sockets d;
  mapped = λ t. ground arith;
}
  where
    released :
        (b : Bool) × (release_local_port_of_socket s r
          ≡ some (b, with_ports r (give_back k.config.local_port r.available_local_ports)))
    released = release_of_socket_lem k

    r1 : Registry
    r1 = with_ports r (give_back k.config.local_port r.available_local_ports)

    v1 : IsValid r1
    v1 = with_ports-IsValid _ v

    k1 : Known r1 s
    k1 = record { address = k.address; config = k.config; points = k.points; holds = k.holds }

    r2 : Registry
    r2 = with_flag r1 k.address k.config false

    v2 : IsValid r2
    v2 = flag-IsValid v1 k1 false

    k2 : Known r2 s
    k2 = record {
      address = k.address;
      config = record k.config { connected = false };
      points = k.points;
      holds = ground arith;
    }

    r4 : Registry
    r4 = with_sockets (removed r2 s k2) (erase_first s r.sockets)
