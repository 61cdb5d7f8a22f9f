-- ===== src/Adapter/IoLaws.antt =====
-- What send() and recv() of an adapter return.
use sensor_lib.Prelude.{
  ℕ, ◌≡◌, refl, ◌≢◌, Bool, true, false, some, ◌∷◌, Text, ℤ, pos, minus_one, arith,
}
use sensor_lib.Os.{
  Os, Outcome, succeeds, fails, Errno, no_error, etimedout, eagain, epipe, Trace, Event, sent,
  recv_tried,
}
use sensor_lib.Registry.State.{Registry}
use sensor_lib.Registry.Config.{is_connected_of_socket}
use sensor_lib.Registry.Connection.{Known}
use sensor_lib.Adapter.Io.{IoResult, recv_errno, send, recv}

-- What a call on a socket does: nothing on a socket that is not connected, one system call else.
abbrev pub io_spec : Bool → Event → Outcome → (Errno → Errno) → Errno → Trace → IoResult
io_spec false event outcome f errno t = record { value = minus_one; errno = epipe; trace = t }
io_spec true event (succeeds n) f errno t = record {
  value = pos n;
  errno = errno;
  trace = event ∷ t;
}
io_spec true event (fails e) f errno t = record {
  value = minus_one;
  errno = f e;
  trace = event ∷ t;
}

recv_errno-ne-eagain : (e : Errno) → recv_errno e ≢ eagain
unfolding recv_errno
recv_errno-ne-eagain no_error = λ h. cc
recv_errno-ne-eagain eagain = λ h. cc
recv_errno-ne-eagain etimedout = λ h. cc
recv_errno-ne-eagain _ = λ h. cc

-- On a registry that knows the socket, send() and recv() of an adapter leave the registry as it is.
-- If the socket is not connected they return -1 with EPIPE and make no system call; else they make
-- one and return its count with errno unchanged, or -1 with its errno, which for recv() is
-- ETIMEDOUT in place of EAGAIN and never EAGAIN.
pub io_lem :
    {r : Registry} (os : Os) (bsock : ℕ) (fd : ℤ) (buf : Text) (errno : Errno) (t : Trace)
    → (k : Known r bsock)
    → (send os bsock fd buf errno t r
        ≡ some (io_spec k.config.connected (sent fd buf) (os.send t fd buf) (λ e. e) errno t, r))
      × (recv os bsock fd errno t r
          ≡ some (io_spec k.config.connected (recv_tried fd) (os.recv t fd) recv_errno errno t, r))
      × (recv_errno eagain ≡ etimedout)
      × ((e : Errno) → recv_errno e ≢ eagain)
unfolding send recv is_connected_of_socket
io_lem os bsock fd buf errno t k = (
  ground (arith, k.points, k.holds),
  ground (arith, k.points, k.holds),
  refl,
  recv_errno-ne-eagain,
)
