-- ===== src/Api/BluetoothOps.antt =====
-- BluetoothAdapter.h: the Bluetooth adapter as a BaseAdapter, which keeps the laws of one.
use sensor_lib.Adapter.IoLaws.{io_lem}
use sensor_lib.Prelude.{
  [], ap, ℕ, refl, inl, inr, true, false, Option, none, some, ℤ, pos, minus_one, Bool-cases, arith,
}
use sensor_lib.Os.{Os, Errno, Trace}
use sensor_lib.Types.{Link}
use sensor_lib.Registry.State.{Registry}
use sensor_lib.Registry.Valid.{IsValid}
use sensor_lib.Registry.Connection.{Known, connect-Sets}
use sensor_lib.Adapter.Io.{IoResult, send, recv}
use sensor_lib.Adapter.Bluetooth.State.{
  BluetoothAdapter, destroy, disconn, set_conn_timeout, set_recv_timeout, configure_for_comms,
}
use sensor_lib.Adapter.Bluetooth.Conn.{ConnResult, RequestThread, finish, conn}
use sensor_lib.Api.Interface.{BaseAdapter}
use sensor_lib.Api.Laws.{Connects, Laws}

abbrev BluetoothSocket : Type 0
BluetoothSocket = BluetoothAdapter × Trace

of_conn :
    (Trace → Errno)
    → Option (ConnResult × Registry)
    → Option ((ℤ × Errno × BluetoothSocket) × Registry)
of_conn leaves none = none
of_conn leaves (some (c, r)) = some ((c.value, leaves c.trace, (c.adapter, c.trace)), r)

finish-Connects :
    (os : Os) (b : ℕ) (thread : RequestThread) (leaves : Trace → Errno) (requested : Trace)
    (x : BluetoothAdapter × Trace) {r : Registry}
    → IsValid r
    → Known r b
    → Connects b r (of_conn leaves (finish os b thread requested x r))
unfolding finish of_conn
finish-Connects os b thread leaves requested (a, t) {r} v k = elim (Bool-cases a.connected) [
  | inl yes_connected ↦
      let s = connect-Sets v k in
      record {
        errno = leaves (configure_for_comms a t).1;
        adapter = (a, (configure_for_comms a t).1);
        after = s.after;
        linked = true;
        runs =
            ap (of_conn leaves)
              {y = some (
                record {
                  value = pos 0;
                  adapter = a;
                  trace = (configure_for_comms a t).1;
                  request_trace = requested;
                },
                s.after,
              )}
              (ground (arith, yes_connected, s.runs));
        valid = s.valid;
        sockets = s.sockets;
        mapped = s.mapped;
        flags = s.reads;
      }
  | inr not_connected ↦ record {
    errno = leaves t;
    adapter = (a, t);
    after = r;
    linked = false;
    runs =
        ap (of_conn leaves)
          {y = some
            (record { value = minus_one; adapter = a; trace = t; request_trace = requested }, r)}
          (ground (arith, not_connected));
    valid = v;
    sockets = refl;
    mapped = λ u. refl;
    flags = λ u. refl;
  }
]

of_io :
    Option (IoResult × Registry)
    → BluetoothAdapter
    → Option ((ℤ × Errno × BluetoothSocket) × Registry)
of_io none a = none
of_io (some (io, r)) a = some ((io.value, io.errno, (a, io.trace)), r)

of_setter : (Trace → Errno) → (BluetoothAdapter × ℤ) × Trace → ℤ × Errno × BluetoothSocket
of_setter leaves ((a, value), t) = (value, leaves t, (a, t))

-- The constructor, what errno is after the calls of a trace and, for each conn(), its request thread
-- are given.
unfoldable bluetooth_ops :
    Os
    → (Trace → Errno → Errno)
    → (ℕ → Link → Errno → Errno × BluetoothSocket)
    → (Trace → RequestThread)
    → BaseAdapter BluetoothSocket
unfolding of_conn of_io of_setter
bluetooth_ops os leaves make thread = record {
  make = make;
  conn = λ b a e r. of_conn (λ t. leaves t e) (conn os b (thread a.1) a.0 a.1 r);
  send = λ b a buf e r. of_io (send os b a.0.sockfd buf e a.1 r) a.0;
  recv = λ b a e r. of_io (recv os b a.0.sockfd e a.1 r) a.0;
  set_conn_timeout = λ ms a e. of_setter (λ t. leaves t e) (set_conn_timeout ms a.0 a.1);
  set_recv_timeout = λ ms a e. of_setter (λ t. leaves t e) (set_recv_timeout ms a.0 a.1);
  disconn = λ a e. of_setter (λ t. leaves t e) (disconn os a.0 a.1);
  interrupt = λ a e. let x = of_setter (λ t. leaves t e) (disconn os a.0 a.1) in (x.1, x.2);
  delete = λ a e. leaves (destroy os a.0 a.1).1 e;
}

bluetooth_ops-Laws :
    (os : Os) (leaves : Trace → Errno → Errno) (make : ℕ → Link → Errno → Errno × BluetoothSocket)
    (thread : Trace → RequestThread)
    → Laws (bluetooth_ops os leaves make thread)
unfolding bluetooth_ops conn of_io
bluetooth_ops-Laws os leaves make thread = record {
  connects = λ b a e r v k. finish-Connects os b (thread a.1) (λ t. leaves t e) _ _ v k;
  sends =
      λ b a buf e r v k. (_, _, _, ap (λ o. of_io o a.0) (io_lem os b a.0.sockfd buf e a.1 k).0);
  receives = λ b a e r v k. (_, _, _, ap (λ o. of_io o a.0) (io_lem os b a.0.sockfd [] e a.1 k).1);
}
