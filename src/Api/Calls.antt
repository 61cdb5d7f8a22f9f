-- ===== src/Api/Calls.antt =====
-- The functions of BratislavaSocket.cc. A call is one step: the locks that it holds keep calls that
-- change the same socket apart.
use sensor_lib.Prelude.{
  ℕ, ◌+◌, Bool, true, false, Option, none, some, Text, ℤ, pos, minus_one, ◌==◌, if◌then◌else◌, put,
}
use sensor_lib.Types.{Link, Instrument, bluetooth, wifi}
use sensor_lib.Os.{Errno, einval, eidrm}
use sensor_lib.Registry.State.{SocketConfig, Registry}
use sensor_lib.Registry.Config.{get_config, is_connected_of_socket, disconnect_of_socket}
use sensor_lib.Registry.Socket.{add, exists_socket, exists}
use sensor_lib.Api.Interface.{BaseAdapter, Sock, Api, S, with_errno}

-- The null test and pinSharedIfExists or pinUniqueIfExists, which begin most calls
unfoldable pub pinned : {A B : Type 0} → ℕ → B → S A B → S A B
pinned b failure call s =
    if b == 0
    then some (failure, with_errno einval s)
    else if exists_socket b s.registry
    then call s
    else some (failure, with_errno eidrm s)

-- A call of an adapter, written back
unfoldable pub returned :
    {A : Type 0} → ℕ → Sock A → Api A → Option ((ℤ × Errno × A) × Registry) → Option (ℤ × Api A)
returned b k s none = none
returned b k s (some ((value, errno, a), r)) = some (
  value,
  record s { registry = r; errno = errno; socks = put s.socks b (some (record k { adapter = a })) },
)

-- Read the socket; a freed one is a fault
unfoldable pub with_sock : {A B : Type 0} → Option (Sock A) → (Sock A → S A B) → S A B
with_sock none f s = none
with_sock (some k) f s = f k s

-- Go on with the answer of a registry query
unfoldable pub asked : {A B : Type 0} → Option (Bool × Registry) → S A B → S A B → S A B
asked none on_true on_false s = none
asked (some (true, r)) on_true on_false s = on_true (record s { registry = r })
asked (some (false, r)) on_true on_false s = on_false (record s { registry = r })

unfoldable pub failed : {A B : Type 0} → B → Errno → S A B
failed failure e s = some (failure, with_errno e s)

module _ {A : Type 0} (ops : BaseAdapter A) where
  unfoldable pub adapter_conn : ℕ → S A ℤ
  unfolding with_sock returned
  adapter_conn b s =
      with_sock (s.socks b) (λ k s'. returned b k s' (ops.conn b k.adapter s'.errno s'.registry)) s

  unfoldable pub adapter_send : ℕ → Text → S A ℤ
  unfolding with_sock returned
  adapter_send b buf s =
      with_sock (s.socks b)
        (λ k s'. returned b k s' (ops.send b k.adapter buf s'.errno s'.registry)) s

  unfoldable pub adapter_recv : ℕ → S A ℤ
  unfolding with_sock returned
  adapter_recv b s =
      with_sock (s.socks b) (λ k s'. returned b k s' (ops.recv b k.adapter s'.errno s'.registry)) s

  -- bratislavaConn
  unfoldable pub bratislava_conn : ℕ → S A ℤ
  unfolding pinned asked adapter_conn is_connected_of_socket
  bratislava_conn b =
      pinned b minus_one
        (λ s. asked (is_connected_of_socket b s.registry) (λ t. some (pos 0, t)) (adapter_conn b) s)

  -- bratislavaSend
  unfoldable pub bratislava_send : ℕ → Text → S A ℤ
  unfolding pinned asked adapter_send failed is_connected_of_socket
  bratislava_send b buf = pinned b minus_one (λ s.
      asked (is_connected_of_socket b s.registry) (adapter_send b buf) (failed minus_one eidrm) s)

  -- bratislavaRecv
  unfoldable pub bratislava_recv : ℕ → S A ℤ
  unfolding pinned asked adapter_recv failed is_connected_of_socket
  bratislava_recv b =
      pinned b minus_one (λ s.
        asked (is_connected_of_socket b s.registry) (adapter_recv b) (failed minus_one eidrm) s)

  unfoldable pub put_adapter : ℕ → Sock A → ℤ × Errno × A → S A ℤ
  put_adapter b k (value, errno, a) s =
      some
        (value, record s { errno = errno; socks = put s.socks b (some (record k { adapter = a })) })

  -- bratislavaConnTimeout
  unfoldable pub bratislava_conn_timeout : ℕ → ℕ → S A ℤ
  unfolding pinned with_sock put_adapter
  bratislava_conn_timeout b ms = pinned b minus_one (λ s.
      with_sock (s.socks b)
        (λ k s'. put_adapter b k (ops.set_conn_timeout ms k.adapter s'.errno) s') s)

  -- bratislavaRecvTimeout
  unfoldable pub bratislava_recv_timeout : ℕ → ℕ → S A ℤ
  unfolding pinned with_sock put_adapter
  bratislava_recv_timeout b ms = pinned b minus_one (λ s.
      with_sock (s.socks b)
        (λ k s'. put_adapter b k (ops.set_recv_timeout ms k.adapter s'.errno) s') s)

  unfoldable pub put_silently : ℕ → Sock A → ℤ × Errno × A → S A (Unit {0})
  put_silently b k (value, errno, a) s =
      some (tt, record s { errno = errno; socks = put s.socks b (some (record k { adapter = a })) })

  -- bratislavaDisconnect
  unfoldable pub bratislava_disconnect : ℕ → S A (Unit {0})
  unfolding pinned asked with_sock put_silently failed disconnect_of_socket
  bratislava_disconnect b = pinned b tt (λ s.
      asked (disconnect_of_socket b s.registry)
        (λ t.
          with_sock (t.socks b) (λ k t'. put_silently b k (ops.disconn k.adapter t'.errno) t') t)
        (failed tt eidrm) s)

  unfoldable pub is_supported : Instrument → Bool
  is_supported bluetooth = true
  is_supported wifi = true
  is_supported i = false

  unfoldable pub added_socket : Link → Api A → Option (Unit {0} × Registry) → Option (ℕ × Api A)
  added_socket link s none = none
  added_socket link s (some (u, r)) = some (
    s.next_sock,
    record s {
      registry = r;
      errno = (ops.make s.next_sock link s.errno).0;
      socks =
          put s.socks s.next_sock
            (some (record { link = link; adapter = (ops.make s.next_sock link s.errno).1 }));
      next_sock = s.next_sock + 1;
    },
  )

  -- `new`, the switch on the instrument, and Add. For another instrument the new socket is lost.
  unfoldable pub create_socket : Link → S A ℕ
  unfolding is_supported added_socket
  create_socket link s =
      if is_supported link.instrument
      then added_socket link s (add s.next_sock link s.registry)
      else some (0, record s { next_sock = s.next_sock + 1 })

  socket_of : Api A → Option (Option SocketConfig × Registry) → Option (ℕ × Api A)
  socket_of s none = none
  socket_of s (some (none, r)) = some (0, s)
  socket_of s (some (some c, r)) = some (c.socket, s)

  -- bratislavaSocket
  unfoldable pub bratislava_socket : Link → S A ℕ
  unfolding asked socket_of create_socket
  bratislava_socket link s =
      asked (exists link.link_id s.registry) (λ t. socket_of t (get_config link.link_id t.registry))
        (create_socket link) s
