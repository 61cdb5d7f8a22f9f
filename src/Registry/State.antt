-- ===== src/Registry/State.antt =====
-- The state of BratislavaSocketRegistry (BratislavaSocketRegistry.h and .cc) and the monad of its
-- methods. A pointer is a number, 0 the null pointer. Configs live on a heap, `new` returns
-- addresses in order and none twice, and a load or store through a freed address is a fault
-- (`none`): undefined behaviour. A method is one atomic step, as under the registry's locks.
use sensor_lib.Prelude.{ℕ, ◌+◌, Bool, false, Option, none, some, List, [], Text, ℤ, minus_one, put}

-- BratislavaSocketConfig
pub record SocketConfig : Type 0 where
  pub socket : ℕ
  pub device_id : Text
  pub ip : Text
  pub sockfd : ℤ
  pub local_port : ℤ
  pub remote_port : ℤ
  pub connected : Bool

pub record Registry : Type 0 where
  pub sockets : List ℕ
  pub active_links : List (Text × ℕ)
  pub inactive_links : List (Text × ℕ)
  pub device_id_to_config : Text → Option ℕ
  pub sock_to_config : ℕ → Option ℕ
  pub available_local_ports : List ℕ
  pub configs : ℕ → Option SocketConfig
  pub next_config : ℕ

abbrev pub M : Type 0 → Type 0
M A = Registry → Option (A × Registry)

abbrev pub pure : {A : Type 0} → A → M A
pure a r = some (a, r)

infixl 5 ◌>>=◌ ◌>>◌
abbrev pub ◌>>=◌ : {A B : Type 0} → M A → (A → M B) → M B
◌>>=◌ m f r = elim (m r) [ none ↦ none | some (a, r') ↦ f a r' ]

abbrev pub ◌>>◌ : {A B : Type 0} → M A → M B → M B
m >> k = m >>= λ _. k

-- `new BratislavaSocketConfig()`, with its default member values
abbrev pub new_config : SocketConfig
new_config = record {
  socket = 0;
  device_id = [];
  ip = [];
  sockfd = minus_one;
  local_port = minus_one;
  remote_port = minus_one;
  connected = false;
}

-- `*p`
unfoldable pub load : ℕ → M SocketConfig
load p r = elim (r.configs p) [ none ↦ none | some c ↦ some (c, r) ]

-- `*p = c`
unfoldable pub store : ℕ → SocketConfig → M (Unit {0})
store p c r = elim (r.configs p) [
  | none ↦ none
  | some _ ↦ some (tt, record r { configs = put r.configs p (some c) })
]

-- `new`, and the writes that fill it
unfoldable pub alloc : SocketConfig → M ℕ
alloc c r = some (
  r.next_config,
  record r { configs = put r.configs r.next_config (some c); next_config = r.next_config + 1 },
)

-- `delete p`
unfoldable pub free : ℕ → M (Unit {0})
free p r = elim (r.configs p) [
  | none ↦ none
  | some _ ↦ some (tt, record r { configs = put r.configs p none })
]
