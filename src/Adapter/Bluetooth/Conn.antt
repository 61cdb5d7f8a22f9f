-- ===== src/Adapter/Bluetooth/Conn.antt =====
-- BluetoothAdapter::conn(). The request thread has its own trace, answered by its own `Os`; conn()
-- joins it and drops its result. Both threads only read the adapter's fields, but for `connected_`
-- and `sockfd_`, which this one sets.
use sensor_lib.Prelude.{ℕ, Bool, false, ℤ, pos, minus_one, if◌then◌else◌}
use sensor_lib.Os.{Os, Trace, clock}
use sensor_lib.Registry.State.{M, pure, ◌>>◌}
use sensor_lib.Registry.Config.{connect}
use sensor_lib.Adapter.Bluetooth.State.{BluetoothAdapter, configure_for_comms}
use sensor_lib.Adapter.Bluetooth.Request.{send_connection_request}
use sensor_lib.Adapter.Bluetooth.Peer.{connect_to_peer, listen_for_peer}

pub record ConnResult : Type 0 where
  pub value : ℤ
  pub adapter : BluetoothAdapter
  pub trace : Trace
  pub request_trace : Trace

-- The thread that runs SendConnectionRequest.
pub record RequestThread : Type 0 where
  pub os : Os
  pub flag : Trace → Bool
  pub trace : Trace

module _ (os : Os) (bsock : ℕ) (thread : RequestThread) where
  unfoldable pub finish : Trace → BluetoothAdapter × Trace → M ConnResult
  unfolding connect configure_for_comms
  finish requested (a, t) =
      if a.connected
      then (do
        connect bsock
        pure (record {
          value = pos 0;
          adapter = a;
          trace = (configure_for_comms a t).1;
          request_trace = requested;
        }))
      else pure (record { value = minus_one; adapter = a; trace = t; request_trace = requested })

  -- conn
  unfoldable pub conn : BluetoothAdapter → Trace → M ConnResult
  unfolding send_connection_request connect_to_peer listen_for_peer finish
  conn a t =
      let (start, t') = clock os t in
      let b = record a { connected = false } in
      let (sent, requested) = send_connection_request thread.os thread.flag start b thread.trace in
      finish requested
        (if b.is_listener then listen_for_peer os start b t' else connect_to_peer os start b t')
