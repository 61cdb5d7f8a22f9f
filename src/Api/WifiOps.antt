-- ===== src/Api/WifiOps.antt =====
-- WifiAdapter.h: the Wi-Fi adapter as a BaseAdapter, which keeps the laws of one.
use sensor_lib.Adapter.IoLaws.{io_lem}
use sensor_lib.Prelude.{[], ap, ℕ, refl, Option, none, some, ℤ}
use sensor_lib.Os.{Os, Errno, Trace}
use sensor_lib.Types.{Link}
use sensor_lib.Registry.State.{Registry}
use sensor_lib.Adapter.Io.{IoResult, send, recv}
use sensor_lib.Adapter.Wifi.State.{
  WifiAdapter, Network, destroy, disconn, set_conn_timeout, set_recv_timeout,
}
use sensor_lib.Adapter.Wifi.Conn.{ConnResult, conn}
use sensor_lib.Adapter.Wifi.Session.{HasDevice, conn-Conns}
use sensor_lib.Api.Interface.{BaseAdapter}
use sensor_lib.Api.Laws.{Laws}

-- WifiAdapter as a BaseAdapter: an adapter with the trace of its system calls
abbrev pub WifiSocket : Type 0
WifiSocket = WifiAdapter × Trace

of_conn :
    (Trace → Errno) → Option (ConnResult × Registry) → Option ((ℤ × Errno × WifiSocket) × Registry)
of_conn leaves none = none
of_conn leaves (some (c, r)) = some ((c.value, leaves c.trace, (c.adapter, c.trace)), r)

of_io : Option (IoResult × Registry) → WifiAdapter → Option ((ℤ × Errno × WifiSocket) × Registry)
of_io none a = none
of_io (some (io, r)) a = some ((io.value, io.errno, (a, io.trace)), r)

of_setter : (Trace → Errno) → (WifiAdapter × ℤ) × Trace → ℤ × Errno × WifiSocket
of_setter leaves ((a, value), t) = (value, leaves t, (a, t))

-- The constructor is given, and so is what errno is after the calls of a trace, for what it was before.
unfoldable pub wifi_ops :
    Os
    → Network
    → (Trace → Errno → Errno)
    → (ℕ → Link → Errno → Errno × WifiSocket)
    → BaseAdapter WifiSocket
unfolding of_conn of_io of_setter
wifi_ops os net leaves make = record {
  make = make;
  conn = λ b a e r. of_conn (λ t. leaves t e) (conn os net b a.0 a.1 r);
  send = λ b a buf e r. of_io (send os b a.0.sockfd buf e a.1 r) a.0;
  recv = λ b a e r. of_io (recv os b a.0.sockfd e a.1 r) a.0;
  set_conn_timeout = λ ms a e. of_setter (λ t. leaves t e) (set_conn_timeout os ms a.0 a.1);
  set_recv_timeout = λ ms a e. of_setter (λ t. leaves t e) (set_recv_timeout os ms a.0 a.1);
  disconn = λ a e. of_setter (λ t. leaves t e) (disconn os a.0 a.1);
  interrupt = λ a e. let x = of_setter (λ t. leaves t e) (disconn os a.0 a.1) in (x.1, x.2);
  delete = λ a e. leaves (destroy os a.0 a.1).1 e;
}

pub wifi_ops-Laws :
    (os : Os) (net : Network) (leaves : Trace → Errno → Errno)
    (make : ℕ → Link → Errno → Errno × WifiSocket)
    → HasDevice net
    → Laws (wifi_ops os net leaves make)
unfolding wifi_ops of_conn of_io
wifi_ops-Laws os net leaves make device = record {
  connects = λ b a e r v k.
      let c = conn-Conns os net b a.0 a.1 device v k in
      record {
        errno = leaves c.result.trace e;
        adapter = (c.result.adapter, c.result.trace);
        after = c.after;
        linked = c.result.adapter.connected;
        runs = rw (c.runs, c.value) refl;
        valid = c.valid;
        sockets = c.sockets;
        mapped = c.mapped;
        flags = c.flags;
      };
  sends =
      λ b a buf e r v k. (_, _, _, ap (λ o. of_io o a.0) (io_lem os b a.0.sockfd buf e a.1 k).0);
  receives = λ b a e r v k. (_, _, _, ap (λ o. of_io o a.0) (io_lem os b a.0.sockfd [] e a.1 k).1);
}
