-- ===== src/Registry/PortPool.antt =====
-- The local port pool: its invariant, and what AcquireLocalPort and ReleaseLocalPort do to it.
use sensor_lib.Prelude.{
  ℕ, zero, suc, ◌+◌, ◌≤◌, ◌<◌, ◌≡◌, refl, inl, inr, Bool, true, false, ◌&&◌, ◌||◌, some, List, [],
  ◌∷◌, ℤ, pos, negsuc, minus_one, eq_ℤ, ltb, leb, subst, ◌==◌, if◌then◌else◌, Bool-cases, arith,
}
use sensor_lib.Registry.State.{Registry}
use sensor_lib.Registry.Port.{
  min_port, max_port, insert_port, insert_ports, initialize_local_ports, new_registry,
  acquire_local_port, release_local_port,
}
use sensor_lib.Registry.Socket.{contains}

-- Ascending from a bound on, and inside the port range: what the `std::set` holds.
abbrev pub From : ℕ → List ℕ → Type 0
From lo [] = Unit {0}
From lo (p ∷ ps) = (lo ≤ p) × (p ≤ max_port) × From (suc p) ps

abbrev pub IsPool : Registry → Type 0
IsPool r = From min_port r.available_local_ports

-- Whether an int is a port of the range.
abbrev pub range_test : ℤ → Bool
range_test (negsuc n) = false
range_test (pos p) = leb min_port p && leb p max_port

From-weaken : (lo lo' : ℕ) (ps : List ℕ) → lo' ≤ lo → From lo ps → From lo' ps
From-weaken lo lo' [] h f = tt
From-weaken lo lo' (p ∷ ps) h f = (omega arith, f.1, f.2)

contains-insert :
    (q p : ℕ) (ps : List ℕ) → contains q (insert_port p ps) ≡ (q == p || contains q ps)
unfolding contains insert_port
contains-insert q p [] = ground arith
contains-insert q p (x ∷ ps) = ground (arith, contains-insert q p ps)

insert-From :
    (lo p : ℕ) (ps : List ℕ) → lo ≤ p → p ≤ max_port → From lo ps → From lo (insert_port p ps)
unfolding insert_port
insert-From lo p [] h k f = (h, k, tt)
insert-From lo p (x ∷ ps) h k f = ground (arith, insert-From (suc x) p ps, f.0, f.1, f.2)

contains-below : (q lo : ℕ) (ps : List ℕ) → q < lo → From lo ps → contains q ps ≡ false
unfolding contains
contains-below q lo [] h f = refl
contains-below q lo (p ∷ ps) h f = ground (arith, contains-below q (suc p) ps, f.0, f.2)

pub insert-head : (p : ℕ) (ps : List ℕ) → From (suc p) ps → insert_port p ps ≡ p ∷ ps
unfolding insert_port
insert-head p [] f = refl
insert-head p (x ∷ ps) f = ground (arith, f.0)

insert_ports-From :
    (n first : ℕ) (ps : List ℕ)
    → min_port ≤ first
    → first + n ≤ max_port + 1
    → From min_port ps
    → From min_port (insert_ports n first ps)
unfolding insert_ports
insert_ports-From zero first ps h k f = f
insert_ports-From (suc n) first ps h k f =
    insert_ports-From n (first + 1) (insert_port first ps) (omega arith) (omega arith)
      (insert-From min_port first ps h (omega arith) f)

contains-insert_ports :
    (n first q : ℕ) (ps : List ℕ)
    → contains q (insert_ports n first ps) ≡ ((leb first q && ltb q (first + n)) || contains q ps)
unfolding insert_ports
contains-insert_ports zero first q ps = ground arith
contains-insert_ports (suc n) first q ps = ground (
  arith,
  contains-insert_ports n (first + 1) q (insert_port first ps),
  contains-insert q first ps,
)

-- The constructor leaves a valid pool that holds exactly the ports from MIN_PORT to MAX_PORT.
pub new_registry-IsPool :
    IsPool new_registry
    × ((q : ℕ) → contains q new_registry.available_local_ports ≡ (leb min_port q && leb q max_port))
unfolding new_registry initialize_local_ports contains
new_registry-IsPool = (
  insert_ports-From 257 min_port [] (omega arith) (omega arith) tt,
  λ q. ground (arith, contains-insert_ports 257 min_port q []),
)

-- What AcquireLocalPort leaves on a pool: nothing to give, or its least port, taken out.
pub data Acquires (r : Registry) : Type 0 where
  exhausted : r.available_local_ports ≡ [] → acquire_local_port r ≡ some (minus_one, r) → Acquires r
  least :
      (p : ℕ) (after : Registry)
      → acquire_local_port r ≡ some (pos p, after)
      → (min_port ≤ p) × (p ≤ max_port)
      → IsPool after
      → contains p r.available_local_ports ≡ true
      → ((q : ℕ)
          → contains q after.available_local_ports
            ≡ (if q == p then false else contains q r.available_local_ports))
      → ((q : ℕ) → ltb q p && contains q r.available_local_ports ≡ false)
      → release_local_port (pos p) after ≡ some (true, r)
      → Acquires r

acquire-by : (r : Registry) (ps : List ℕ) → r.available_local_ports ≡ ps → IsPool r → Acquires r
unfolding acquire_local_port release_local_port contains
acquire-by r [] e f = exhausted e (ground (arith, e))
acquire-by r (p ∷ ps) e f =
    let g : From min_port (p ∷ ps) = subst (From min_port) e f in
    let after : Registry = record r { available_local_ports = ps } in
    least p after (ground (arith, e)) (g.0, g.1)
      (From-weaken (suc p) min_port ps (omega (arith, g.0)) g.2) (ground (arith, e))
      (λ q. ground (arith, e, contains-below q (suc p) ps, g.2))
      (λ q. ground (arith, e, contains-below q p (p ∷ ps)))
      (ground (arith, e, g, insert-head p ps g.2))

-- On a valid pool, AcquireLocalPort returns -1 and changes nothing if the pool is empty; otherwise
-- it returns the least port, which lies in the port range, takes exactly that one out, leaves a
-- valid pool, and ReleaseLocalPort of that port then restores the registry.
pub acquire-Acquires : (r : Registry) → IsPool r → Acquires r
acquire-Acquires r f = acquire-by r r.available_local_ports refl f

-- What ReleaseLocalPort leaves for any int.
pub record Releases (r : Registry) (port : ℤ) : Type 0 where
  pub after : Registry
  pub runs : release_local_port port r ≡ some (range_test port, after)
  pub valid : IsPool after
  pub members :
      (q : ℕ)
      → contains q after.available_local_ports
        ≡ ((range_test port && eq_ℤ (pos q) port) || contains q r.available_local_ports)

-- On a valid pool, ReleaseLocalPort returns whether the port is in the port range, adds exactly
-- that port if it is and nothing otherwise, and leaves a valid pool.
release-Releases : (r : Registry) (port : ℤ) → IsPool r → Releases r port
unfolding release_local_port
release-Releases r (negsuc n) f = record { after = r; runs = refl; valid = f; members = λ q. refl }
release-Releases r (pos p) f = elim (Bool-cases (leb min_port p && leb p max_port)) [
  | inl fits ↦ record {
    after = record r { available_local_ports = insert_port p r.available_local_ports };
    runs = ground (arith, fits);
    valid =
        insert-From min_port p r.available_local_ports (ground (arith, fits)) (ground (arith, fits))
          f;
    members = λ q. ground (arith, fits, contains-insert q p r.available_local_ports);
  }
  | inr misses ↦ record {
    after = r;
    runs = ground (arith, misses);
    valid = f;
    members = λ q. ground (arith, misses);
  }
]
