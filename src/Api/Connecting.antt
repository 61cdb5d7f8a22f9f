-- ===== src/Api/Connecting.antt =====
-- bratislavaConn over any adapter that keeps the laws.
use sensor_lib.Prelude.{
  ℕ, ◌≡◌, refl, ◌≢◌, inl, inr, Bool, true, false, Option, some, ℤ, pos, minus_one, ◌==◌,
  if◌then◌else◌, Bool-cases, arith, put,
}
use sensor_lib.Os.{Errno}
use sensor_lib.Registry.State.{Registry}
use sensor_lib.Registry.Config.{is_connected_of_socket}
use sensor_lib.Registry.Socket.{exists_socket}
use sensor_lib.Registry.Valid.{IsValid}
use sensor_lib.Registry.Connection.{Known, answer, is_connected-Known}
use sensor_lib.Api.Interface.{BaseAdapter, Sock, Api}
use sensor_lib.Api.Laws.{Connects, Laws}
use sensor_lib.Api.Calls.{pinned, asked, with_sock, returned, adapter_conn, bratislava_conn}

-- What a call of bratislavaConn on the socket `k` promises: it returns 0 if the socket is connected
-- afterwards and else -1, and it changes no other socket, nor the flag of one, nor the link of its own.
pub record Connected {A : Type 0} (b : ℕ) (k : Sock A) (s : Api A) (o : Option (ℤ × Api A))
    : Type 0 where
  pub linked : Bool
  pub after : Api A
  pub adapter : A
  pub runs : o ≡ some (if linked then pos 0 else minus_one, after)
  pub valid : IsValid after.registry
  pub flags :
      (t : ℕ)
      → answer (is_connected_of_socket t after.registry)
        ≡ (if t == b then some linked else answer (is_connected_of_socket t s.registry))
  pub sockets : after.registry.sockets ≡ s.registry.sockets
  pub mapped : (t : ℕ) → after.registry.sock_to_config t ≡ s.registry.sock_to_config t
  pub socks :
      (p : ℕ)
      → after.socks p ≡ (if p == b then some (record k { adapter = adapter }) else s.socks p)

pub put_lem :
    {A : Type 0} (f : ℕ → Option A) (b : ℕ) (x : Option A) (p : ℕ)
    → put f b x p ≡ (if p == b then x else f p)
put_lem f b x p = ground arith

module _ {A : Type 0} {ops : BaseAdapter A} (laws : Laws ops) (b : ℕ) (k : Sock A) (s : Api A) where
  asked-Connected :
      (o : Option ((ℤ × Errno × A) × Registry))
      → answer (is_connected_of_socket b s.registry) ≡ some false
      → Connects b s.registry o
      → Connected b k s (returned b k s o)
  unfolding returned
  asked-Connected o off c = record {
    linked = c.linked;
    after = record s {
      registry = c.after;
      errno = c.errno;
      socks = put s.socks b (some (record k { adapter = c.adapter }));
    };
    adapter = c.adapter;
    runs = rw (c.runs) refl;
    valid = c.valid;
    sockets = c.sockets;
    mapped = c.mapped;
    flags = λ t. elim (Bool-cases (t == b)) [
      | inl own ↦ let same : t ≡ b = ground (arith, own) in ground (arith, c.flags b, off, same)
      | inr other ↦ ground (arith, c.flags t, other)
    ];
    socks = put_lem s.socks b (some (record k { adapter = c.adapter }));
  }

  already-Connected :
      IsValid s.registry
      → answer (is_connected_of_socket b s.registry) ≡ some true
      → s.socks b ≡ some k
      → Connected b k s (some (pos 0, s))
  already-Connected v on holds = record {
    linked = true;
    after = s;
    adapter = k.adapter;
    runs = refl;
    valid = v;
    sockets = refl;
    mapped = λ t. refl;
    flags = λ t. elim (Bool-cases (t == b)) [
      | inl own ↦ let same : t ≡ b = ground (arith, own) in rw (own, same) on
      | inr other ↦ rw other refl
    ];
    socks = λ p. elim (Bool-cases (p == b)) [
      | inl own ↦ let same : p ≡ b = ground (arith, own) in rw (own, same) holds
      | inr other ↦ rw other refl
    ];
  }

  -- Over an adapter that keeps the laws of BaseAdapter, on a valid registry that has the socket and
  -- its config, and with the socket on the heap, bratislavaConn returns: 0 if the socket's flag is
  -- set afterwards and else -1. It keeps the registry valid, changes the flag of no other socket and
  -- no other socket object, and of its own object at most the adapter's state.
  pub bratislava_conn-Connected :
      b ≢ 0
      → exists_socket b s.registry ≡ true
      → IsValid s.registry
      → Known s.registry b
      → s.socks b ≡ some k
      → Connected b k s (bratislava_conn ops b s)
  unfolding bratislava_conn pinned adapter_conn asked with_sock
  bratislava_conn-Connected nonzero listed v known holds =
      let null : (b == 0) ≡ false = ground (arith, nonzero) in
      let flag = is_connected-Known v known in
      elim (Bool-cases known.config.connected) [
        | inl on ↦ rw (null, listed, flag, on) (already-Connected v (rw (flag, on) refl) holds)
        | inr off ↦
            rw (null, listed, flag, off, holds)
              (asked-Connected (ops.conn b k.adapter s.errno s.registry) (rw (flag, off) refl)
                (laws.connects b k.adapter s.errno s.registry v known))
      ]
