-- ===== src/Api/Emptied.antt =====
-- Cleanup destroys every socket.
use sensor_lib.Prelude.{
  ℕ, zero, suc, ◌≡◌, refl, ap, ◌≢◌, true, false, Bool-cases, inl, inr, some, List, [], ◌∷◌, ◌==◌,
  length, arith,
}
use sensor_lib.Registry.Socket.{contains, erase_first, exists_socket}
use sensor_lib.Registry.Valid.{IsValid}
use sensor_lib.Registry.Total.{Known-of}
use sensor_lib.Registry.SocketList.{Distinct}
use sensor_lib.Api.Interface.{BaseAdapter, Sock, Api}
use sensor_lib.Api.Destroy.{last_socket, after_destroy, cleanup_rounds, cleanup}
use sensor_lib.Api.Destroyed.{Destroys, destroy-Destroys}

-- A listed socket is not null, has a config and has an object.
pub record Lives {A : Type 0} (s : Api A) (b : ℕ) : Type 0 where
  pub nonzero : b ≢ 0
  pub address : ℕ
  pub points : s.registry.sock_to_config b ≡ some address
  pub object : Sock A
  pub holds : s.socks b ≡ some object

-- The registry is valid, and every listed socket is listed once and lives.
pub record IsLive {A : Type 0} (s : Api A) : Type 0 where
  pub valid : IsValid s.registry
  pub distinct : Distinct s.registry.sockets
  pub lives : (b : ℕ) → exists_socket b s.registry ≡ true → Lives s b

length-erase :
    (b : ℕ) (bs : List ℕ) → contains b bs ≡ true → suc (length (erase_first b bs)) ≡ length bs
unfolding contains erase_first
length-erase b [] h = cc
length-erase b (c ∷ bs) h = ground (arith, length-erase b bs)

module _ {A : Type 0} (ops : BaseAdapter A) where
  contains-last : (b : ℕ) (bs : List ℕ) → contains (last_socket ops (b ∷ bs)) (b ∷ bs) ≡ true
  unfolding contains last_socket
  contains-last b [] = ground arith
  contains-last b (c ∷ bs) = ground (arith, contains-last c bs)

  last-listed : (bs : List ℕ) → (length bs == 0) ≡ false → contains (last_socket ops bs) bs ≡ true
  last-listed [] h = cc
  last-listed (b ∷ bs) h = contains-last b bs

  -- After a destroy the other sockets live on.
  pub Destroys-IsLive : {s : Api A} (b : ℕ) → IsLive s → (d : Destroys ops b s) → IsLive d.after
  Destroys-IsLive {s} b v d = record {
    valid = d.valid;
    distinct = d.distinct;
    lives = λ c e. elim (Bool-cases (c == b)) [
      | inl same ↦ absurd (ground (arith, e, d.listed c))
      | inr other ↦
          let l = v.lives c (ground (arith, e, d.listed c)) in
          record {
            nonzero = l.nonzero;
            address = l.address;
            points = ground (arith, other, d.mapped c, l.points);
            object = l.object;
            holds = ground (arith, other, d.others c, l.holds);
          }
    ];
  }

  destroy_last :
      (s : Api A)
      → IsLive s
      → (length s.registry.sockets == 0) ≡ false
      → Destroys ops (last_socket ops s.registry.sockets) s
  unfolding exists_socket
  destroy_last s v h =
      let b = last_socket ops s.registry.sockets in
      let l = v.lives b (last-listed s.registry.sockets h) in
      destroy-Destroys ops b s l.object v.valid v.distinct l.nonzero
        (last-listed s.registry.sockets h) (Known-of v.valid l.points) l.holds

  rounds-empty :
      (rounds : ℕ) (s : Api A)
      → IsLive s
      → length s.registry.sockets ≡ rounds
      → (t : Api A) × (cleanup_rounds ops rounds s ≡ some (tt, t))
        × IsLive t
        × (length t.registry.sockets ≡ 0)
  unfolding cleanup_rounds after_destroy
  rounds-empty zero s v e = (s, rw e refl, v, e)
  rounds-empty (suc rounds) s v e =
      let some_left : (length s.registry.sockets == 0) ≡ false = ground (arith, e) in
      let b = last_socket ops s.registry.sockets in
      let d = destroy_last s v some_left in
      let shorter : length d.after.registry.sockets ≡ rounds = omega (
        arith,
        e,
        ap length d.sockets,
        length-erase b s.registry.sockets (last-listed s.registry.sockets some_left),
      ) in
      let (t, runs, live, none_left) =
        rounds-empty rounds d.after (Destroys-IsLive b v d) shorter in
      (t, rw (some_left, d.runs) runs, live, none_left)

  -- Where the registry is valid and every listed socket is listed once, is not null, and has a config
  -- and an object, Cleanup ends after as many destroys as there are sockets, without a fault, whatever
  -- the adapters do; no socket is listed then, and the registry is still valid.
  pub cleanup-IsLive :
      (s : Api A)
      → IsLive s
      → (t : Api A) × (cleanup ops s ≡ some (tt, t)) × IsLive t × (length t.registry.sockets ≡ 0)
  unfolding cleanup
  cleanup-IsLive s v = rounds-empty (length s.registry.sockets) s v refl
