-- ===== src/Api/Interface.antt =====
-- BaseAdapter, the interface between the socket API and the adapters, and the state of the API.
use sensor_lib.Prelude.{ℕ, Option, Text, ℤ}
use sensor_lib.Types.{Link}
use sensor_lib.Os.{Errno}
use sensor_lib.Registry.State.{Registry, M}

-- The virtual methods of BaseAdapter, on an adapter's state `A`. conn(), send() and recv() are given
-- the socket's pointer, as they use the registry. Every method may set errno, which is passed in and
-- out. `make` is the constructor and `delete` the destructor.
pub record BaseAdapter (A : Type 0) : Type 0 where
  pub make : ℕ → Link → Errno → Errno × A
  pub conn : ℕ → A → Errno → M (ℤ × Errno × A)
  pub send : ℕ → A → Text → Errno → M (ℤ × Errno × A)
  pub recv : ℕ → A → Errno → M (ℤ × Errno × A)
  pub set_conn_timeout : ℕ → A → Errno → ℤ × Errno × A
  pub set_recv_timeout : ℕ → A → Errno → ℤ × Errno × A
  pub disconn : A → Errno → ℤ × Errno × A
  pub interrupt : A → Errno → Errno × A
  pub delete : A → Errno → Errno

-- BratislavaSocket, with its lock left out
pub record Sock (A : Type 0) : Type 0 where
  pub link : Link
  pub adapter : A

-- The registry, the heap of sockets, and errno. A freed or unknown socket is `none`.
pub record Api (A : Type 0) : Type 0 where
  pub registry : Registry
  pub socks : ℕ → Option (Sock A)
  pub next_sock : ℕ
  pub errno : Errno

-- A call: it may fault, and else returns and leaves a state.
abbrev pub S : Type 0 → Type 0 → Type 0
S A B = Api A → Option (B × Api A)

abbrev pub with_errno : {A : Type 0} → Errno → Api A → Api A
with_errno e s = record s { errno = e }
