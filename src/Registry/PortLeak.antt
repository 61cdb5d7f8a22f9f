-- ===== src/Registry/PortLeak.antt =====
-- How a device's local port moves between its config and the pool.
use sensor_lib.Prelude.{ℕ, suc, ◌≡◌, refl, ◌≢◌, true, some, List, ◌∷◌, Text, pos, put, arith, ◌≤◌}
use sensor_lib.Registry.State.{SocketConfig, Registry, ◌>>◌}
use sensor_lib.Registry.Port.{
  insert_port, min_port, max_port, add_local_port, get_local_port, release_local_port_of_device,
}
use sensor_lib.Registry.PortPool.{From, insert-head}
use sensor_lib.Registry.Valid.{IsValid, put-IsValid, update-at, with_ports, with_ports-IsValid}

-- A device that the registry knows: its config and where it lives.
pub record KnownDevice (r : Registry) (d : Text) : Type 0 where
  pub address : ℕ
  pub config : SocketConfig
  pub points : r.device_id_to_config d ≡ some address
  pub holds : r.configs address ≡ some config

-- The registry after AddLocalPort took `p` from the front of the pool.
abbrev pub ported : Registry → ℕ → SocketConfig → ℕ → List ℕ → Registry
ported r a c p ps = record r {
  available_local_ports = ps;
  configs = put r.configs a (some (record c { local_port = pos p }));
}

module _ {r : Registry} (v : IsValid r) {d : Text} (k : KnownDevice r d) where
  add_local_port_lem :
      (p : ℕ) (ps : List ℕ)
      → r.available_local_ports ≡ p ∷ ps
      → add_local_port d r ≡ some (true, ported r k.address k.config p ps)
  unfolding add_local_port
  add_local_port_lem p ps e = ground (
    arith,
    e,
    k.points,
    k.holds,
    update-at (with_ports-IsValid ps v) k.address k.config (record k.config { local_port = pos p })
        k.holds refl refl,
  )

  ported-IsValid : (p : ℕ) (ps : List ℕ) → IsValid (ported r k.address k.config p ps)
  ported-IsValid p ps = put-IsValid k.address k.config _ (with_ports-IsValid ps v) k.holds refl refl

  ported-Known : (p : ℕ) (ps : List ℕ) → KnownDevice (ported r k.address k.config p ps) d
  ported-Known p ps = record {
    address = k.address;
    config = record k.config { local_port = pos p };
    points = k.points;
    holds = ground arith;
  }

release_of_device_lem :
    {r : Registry} {d : Text} (k : KnownDevice r d) (p : ℕ)
    → k.config.local_port ≡ pos p
    → min_port ≤ p
    → p ≤ max_port
    → release_local_port_of_device d r
      ≡ some (true, with_ports r (insert_port p r.available_local_ports))
unfolding release_local_port_of_device
release_of_device_lem k p e lo hi = ground (arith, k.points, k.holds)

-- AddLocalPort twice for one device, as a client that connects twice does, and then one release:
-- on a valid registry that knows the device, with a pool whose two least ports are `p` and `q`,
-- only `q` comes back. The port `p` stays out of the pool, while the port that GetLocalPort then
-- gives for the device is `q`.
pub port_leaks :
    {r : Registry} {d : Text} (p q : ℕ) (ps : List ℕ)
    → IsValid r
    → KnownDevice r d
    → r.available_local_ports ≡ p ∷ q ∷ ps
    → From min_port (p ∷ q ∷ ps)
    → (after : Registry) × ((do add_local_port d; add_local_port d; release_local_port_of_device d)
          r
        ≡ some (true, after))
      × (after.available_local_ports ≡ q ∷ ps)
      × (get_local_port d after ≡ some (pos q, after))
unfolding get_local_port ported-Known
port_leaks {r} {d} p q ps v k e f = (
  with_ports r2 (insert_port q ps),
  ground (
    arith,
    add_local_port_lem v k p (q ∷ ps) e,
    add_local_port_lem v1 k1 q ps refl,
    release_of_device_lem k2 q refl (omega (arith, f)) f.2.1,
  ),
  insert-head q ps f.2.2,
  ground (arith, k.points),
)
  where
    r1 : Registry
    r1 = ported r k.address k.config p (q ∷ ps)

    v1 : IsValid r1
    v1 = ported-IsValid v k p (q ∷ ps)

    k1 : KnownDevice r1 d
    k1 = ported-Known v k p (q ∷ ps)

    r2 : Registry
    r2 = ported r1 k1.address k1.config q ps

    k2 : KnownDevice r2 d
    k2 = ported-Known v1 k1 q ps

-- ReleaseLocalPort of a device leaves the port in its config: on a valid registry that knows two
-- devices with two configs, where the first one's port is in the port range and below every port
-- of the pool, the next AddLocalPort hands the same port to the second device, and GetLocalPort
-- then gives it for both.
released_port_is_shared :
    {r : Registry} {d e : Text} (p : ℕ)
    → IsValid r
    → (k : KnownDevice r d) → (j : KnownDevice r e) → k.address ≢ j.address
    → k.config.local_port ≡ pos p
    → min_port ≤ p
    → p ≤ max_port
    → From (suc p) r.available_local_ports
    → (after : Registry) × ((do release_local_port_of_device d; add_local_port e) r
        ≡ some (true, after))
      × (get_local_port d after ≡ some (pos p, after))
      × (get_local_port e after ≡ some (pos p, after))
unfolding get_local_port
released_port_is_shared {r} {d} {e} p v k j ne held lo hi f = (
  ported r1 j1.address j1.config p r.available_local_ports,
  ground (
    arith,
    release_of_device_lem k p held lo hi,
    add_local_port_lem v1 j1 p r.available_local_ports (insert-head p r.available_local_ports f),
  ),
  ground (arith, k.points, k.holds),
  ground (arith, j.points),
)
  where
    r1 : Registry
    r1 = with_ports r (insert_port p r.available_local_ports)

    v1 : IsValid r1
    v1 = with_ports-IsValid _ v

    j1 : KnownDevice r1 e
    j1 = record { address = j.address; config = j.config; points = j.points; holds = j.holds }
