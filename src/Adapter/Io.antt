-- ===== src/Adapter/Io.antt =====
-- send() and recv() of the adapters, which are the same code in WifiAdapter.cc and
-- BluetoothAdapter.cc: the connected flag of the registry is tested first, and a recv() that timed
-- out reports ETIMEDOUT. `errno` is passed in and out.
use sensor_lib.Prelude.{ℕ, Bool, true, false, ◌∷◌, Text, ℤ, pos, minus_one}
use sensor_lib.Os.{
  Os, Outcome, succeeds, fails, Errno, etimedout, eagain, epipe, Trace, sent, recv_tried,
}
use sensor_lib.Registry.State.{M, pure, ◌>>=◌}
use sensor_lib.Registry.Config.{is_connected_of_socket}

pub record IoResult : Type 0 where
  pub value : ℤ
  pub errno : Errno
  pub trace : Trace

-- The errno that recv() leaves after a failure.
unfoldable pub recv_errno : Errno → Errno
recv_errno etimedout = etimedout
recv_errno eagain = etimedout
recv_errno e = e

of_outcome : (Errno → Errno) → Outcome → Errno → Trace → IoResult
of_outcome f (succeeds n) errno t = record { value = pos n; errno = errno; trace = t }
of_outcome f (fails e) errno t = record { value = minus_one; errno = f e; trace = t }

module _ (os : Os) (bsock : ℕ) (sockfd : ℤ) where
  send_if : Bool → Text → Errno → Trace → IoResult
  unfolding of_outcome
  send_if false buf errno t = record { value = minus_one; errno = epipe; trace = t }
  send_if true buf errno t = of_outcome (λ e. e) (os.send t sockfd buf) errno (sent sockfd buf ∷ t)

  recv_if : Bool → Errno → Trace → IoResult
  unfolding of_outcome recv_errno
  recv_if false errno t = record { value = minus_one; errno = epipe; trace = t }
  recv_if true errno t = of_outcome recv_errno (os.recv t sockfd) errno (recv_tried sockfd ∷ t)

  -- send
  unfoldable pub send : Text → Errno → Trace → M IoResult
  unfolding is_connected_of_socket send_if
  send buf errno t = do
    connected ← is_connected_of_socket bsock
    pure (send_if connected buf errno t)

  -- recv
  unfoldable pub recv : Errno → Trace → M IoResult
  unfolding is_connected_of_socket recv_if
  recv errno t = do connected ← is_connected_of_socket bsock; pure (recv_if connected errno t)
