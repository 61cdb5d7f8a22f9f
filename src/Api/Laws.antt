-- ===== src/Api/Laws.antt =====
-- What the socket API may count on of every adapter's conn().
use sensor_lib.Prelude.{
  Text, ℕ, ◌≡◌, Bool, true, Option, some, ℤ, pos, minus_one, ◌==◌, if◌then◌else◌,
}
use sensor_lib.Os.{Errno}
use sensor_lib.Registry.State.{Registry}
use sensor_lib.Registry.Config.{is_connected_of_socket}
use sensor_lib.Registry.Valid.{IsValid}
use sensor_lib.Registry.Connection.{Known, answer}
use sensor_lib.Api.Interface.{BaseAdapter}

-- conn() runs and keeps the registry valid; it returns 0 or -1, and sets the socket's connected flag
-- exactly if it returns 0; no other flag changes, and no
-- socket is listed, removed or given another config.
pub record Connects {A : Type 0} (b : ℕ) (r : Registry) (o : Option ((ℤ × Errno × A) × Registry))
    : Type 0 where
  pub errno : Errno
  pub adapter : A
  pub after : Registry
  pub linked : Bool
  pub runs : o ≡ some ((if linked then pos 0 else minus_one, errno, adapter), after)
  pub valid : IsValid after
  pub sockets : after.sockets ≡ r.sockets
  pub mapped : (t : ℕ) → after.sock_to_config t ≡ r.sock_to_config t
  pub flags :
      (t : ℕ)
      → answer (is_connected_of_socket t after) ≡ (
          if linked
          then (if t == b then some true else answer (is_connected_of_socket t r))
          else answer (is_connected_of_socket t r))

-- send() and recv() run and leave the registry alone.
abbrev pub Reads : {A : Type 0} → Registry → Option ((ℤ × Errno × A) × Registry) → Type 0
Reads {A} r o =
    (value : ℤ) × (errno : Errno) × (adapter : A) × (o ≡ some ((value, errno, adapter), r))

pub record Laws {A : Type 0} (ops : BaseAdapter A) : Type 0 where
  pub connects :
      (b : ℕ) (a : A) (e : Errno) (r : Registry)
      → IsValid r
      → Known r b
      → Connects b r (ops.conn b a e r)
  pub sends :
      (b : ℕ) (a : A) (buf : Text) (e : Errno) (r : Registry)
      → IsValid r
      → Known r b
      → Reads r (ops.send b a buf e r)
  pub receives :
      (b : ℕ) (a : A) (e : Errno) (r : Registry)
      → IsValid r
      → Known r b
      → Reads r (ops.recv b a e r)
