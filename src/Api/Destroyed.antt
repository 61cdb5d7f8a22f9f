-- ===== src/Api/Destroyed.antt =====
-- A destroyed socket: gone from the registry and the heap, and refused by every call.
use sensor_lib.Prelude.{
  ℕ, ◌≡◌, ◌≢◌, true, false, none, some, Text, minus_one, ◌==◌, if◌then◌else◌, put, arith,
}
use sensor_lib.Os.{eidrm}
use sensor_lib.Registry.Socket.{erase_first, exists_socket}
use sensor_lib.Registry.Valid.{IsValid}
use sensor_lib.Registry.Connection.{Known}
use sensor_lib.Registry.SocketList.{Distinct}
use sensor_lib.Registry.Removal.{remove-Removes}
use sensor_lib.Api.Interface.{BaseAdapter, Sock, Api, with_errno}
use sensor_lib.Api.Calls.{
  pinned, with_sock, asked, bratislava_conn, bratislava_send, bratislava_recv,
  bratislava_conn_timeout, bratislava_recv_timeout, bratislava_disconnect,
}
use sensor_lib.Api.Destroy.{destroy_interrupted, destroy_locked, release, bratislava_destroy}

-- Every call on the socket fails with EIDRM and changes nothing else.
pub record Refuses {A : Type 0} (ops : BaseAdapter A) (b : ℕ) (s : Api A) : Type 0 where
  pub conn : bratislava_conn ops b s ≡ some (minus_one, with_errno eidrm s)
  pub send : (buf : Text) → bratislava_send ops b buf s ≡ some (minus_one, with_errno eidrm s)
  pub recv : bratislava_recv ops b s ≡ some (minus_one, with_errno eidrm s)
  pub conn_timeout :
      (ms : ℕ) → bratislava_conn_timeout ops b ms s ≡ some (minus_one, with_errno eidrm s)
  pub recv_timeout :
      (ms : ℕ) → bratislava_recv_timeout ops b ms s ≡ some (minus_one, with_errno eidrm s)
  pub disconnect : bratislava_disconnect ops b s ≡ some (tt, with_errno eidrm s)
  pub destroy : bratislava_destroy ops b s ≡ some (tt, with_errno eidrm s)

module _ {A : Type 0} (ops : BaseAdapter A) where
  unlisted-Refuses :
      (b : ℕ) (s : Api A) → (b == 0) ≡ false → exists_socket b s.registry ≡ false → Refuses ops b s
  unfolding bratislava_conn bratislava_send bratislava_recv bratislava_conn_timeout
      bratislava_recv_timeout bratislava_disconnect bratislava_destroy pinned
  unlisted-Refuses b s ne e = record {
    conn = rw (ne, e);
    send = λ buf. rw (ne, e);
    recv = rw (ne, e);
    conn_timeout = λ ms. rw (ne, e);
    recv_timeout = λ ms. rw (ne, e);
    disconnect = rw (ne, e);
    destroy = rw (ne, e);
  }

  -- What bratislavaDestroy promises.
  pub record Destroys (b : ℕ) (s : Api A) : Type 0 where
    pub after : Api A
    pub runs : bratislava_destroy ops b s ≡ some (tt, after)
    pub valid : IsValid after.registry
    pub sockets : after.registry.sockets ≡ erase_first b s.registry.sockets
    pub distinct : Distinct after.registry.sockets
    pub mapped :
        (c : ℕ)
        → after.registry.sock_to_config c ≡ (if c == b then none else s.registry.sock_to_config c)
    pub freed : after.socks b ≡ none
    pub others : (c : ℕ) → after.socks c ≡ (if b == c then none else s.socks c)
    pub listed :
        (c : ℕ)
        → exists_socket c after.registry ≡ (if c == b then false else exists_socket c s.registry)
    pub refuses : Refuses ops b after

  -- On a valid registry whose socket list has no repetition, bratislavaDestroy of a socket that is
  -- not null, is listed and has a config and an object ends without a fault, whatever the adapter
  -- does; the socket is freed and leaves the list, no other socket is touched, the registry stays
  -- valid, and every later call on the pointer fails with EIDRM.
  pub destroy-Destroys :
      (b : ℕ) (s : Api A) (k : Sock A)
      → IsValid s.registry
      → Distinct s.registry.sockets
      → b ≢ 0
      → exists_socket b s.registry ≡ true
      → Known s.registry b
      → s.socks b ≡ some k
      → Destroys b s
  unfolding bratislava_destroy pinned with_sock destroy_interrupted destroy_locked asked release
  destroy-Destroys b s k v d ne e known h =
      let gone = remove-Removes v d e known in
      let nonzero : (b == 0) ≡ false = ground arith in
      let woken = ops.interrupt k.adapter s.errno in
      let own : (b == b) ≡ true = ground arith in
      let after : Api A = record s {
        registry = gone.after;
        errno = ops.delete woken.1 woken.0;
        socks = put (put s.socks b (some (record k { adapter = woken.1 }))) b none;
      } in
      record {
        after = after;
        runs = rw (nonzero, e, h, e, gone.runs, own);
        valid = gone.valid;
        sockets = gone.sockets;
        distinct = gone.distinct;
        mapped = gone.mapped;
        freed = ground arith;
        others = λ c. ground arith;
        listed = gone.listed;
        refuses = unlisted-Refuses b after nonzero (ground (arith, gone.listed b));
      }
