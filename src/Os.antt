-- ===== src/Os.antt =====
-- The operating system as the code sees it. A run keeps the trace of the calls made so far, newest
-- first, and an `Os` answers each call from that trace, so it may answer the same call differently
-- later, and the clock may move at every call. The functions of an `Os` stand for the kernel and
-- the C library; nothing is assumed of them.
use sensor_lib.Prelude.{ℕ, suc, ◌+◌, Bool, List, [], ◌∷◌, Text, ℤ}
use sensor_lib.Types.{BluetoothDevice, WifiDevice, Link, LinkInfo}

-- The values of errno that the code tells apart. EWOULDBLOCK is EAGAIN on Linux.
pub data Errno : Type 0 where
  no_error eisconn econnrefused ehostunreach ehostdown einval etimedout eagain epipe eidrm : Errno
  other_errno : ℕ → Errno

-- A system call with its arguments or result, or a call of one of the user's callbacks, with the
-- callback's pointer.
pub data Event : Type 0 where
  clock_read : Event
  socket_made : ℤ → Event
  closed : ℤ → Event
  shut : ℤ → Event
  unblocked : ℤ → Event
  configured : ℤ → ℤ → Event
  polled : ℤ → ℤ → Event
  connect_tried : ℤ → Event
  bound : ℤ → Event
  listening : ℤ → Event
  accept_tried : ℤ → Event
  sent : ℤ → Text → Event
  recv_tried : ℤ → Event
  slept : ℕ → Event
  bluetooth_found : ℕ → BluetoothDevice → Event
  wifi_found : ℕ → WifiDevice → Event
  link_found : ℕ → Link → Event
  link_gone : ℕ → LinkInfo → Event
  accepted : ℤ → Event
  ran : Text → Event
  queried : ℤ → Event
  flags_set : ℤ → Text → ℕ → Event
  powered : ℤ → Bool → ℕ → Event

abbrev pub Trace : Type 0
Trace = List Event

-- A call that returns a count or a descriptor: the result, and errno if it is negative.
pub data Outcome : Type 0 where
  succeeds : ℕ → Outcome
  fails : Errno → Outcome

-- poll() on one descriptor for POLLOUT
pub data Poll : Type 0 where
  writable not_writable poll_timeout poll_error : Poll

pub record Os : Type 0 where
  pub clock_ms : Trace → ℕ
  pub socket : Trace → ℤ
  pub poll : Trace → ℤ → ℤ → Poll
  pub connect : Trace → ℤ → Outcome
  pub bind : Trace → ℤ → Outcome
  pub listen : Trace → ℤ → Outcome
  pub accept : Trace → ℤ → Outcome
  pub send : Trace → ℤ → Text → Outcome
  pub recv : Trace → ℤ → Outcome
  pub recv_bytes : Trace → ℤ → Text

-- A computation that makes calls.
abbrev pub T : Type 0 → Type 0
T A = Trace → A × Trace

abbrev pub done {ℓ} : {A : Type ℓ} → A → Trace → A × Trace
done a t = (a, t)

infixl 5 ◌>>=◌ ◌>>◌
abbrev pub ◌>>=◌ : {A B : Type 0} → T A → (A → T B) → T B
◌>>=◌ m f t = let (a, t') = m t in f a t'

abbrev pub ◌>>◌ : {A B : Type 0} → T A → T B → T B
m >> k = m >>= λ _. k

-- A call without an answer.
abbrev pub emit : Event → T (Unit {0})
emit e t = (tt, e ∷ t)

-- `close(fd)`, its result ignored
abbrev pub close : ℤ → T (Unit {0})
close fd = emit (closed fd)

module _ (os : Os) where
  abbrev pub clock : T ℕ
  clock t = (os.clock_ms t, clock_read ∷ t)

  abbrev pub make_socket : T ℤ
  make_socket t = (os.socket t, socket_made (os.socket t) ∷ t)

  abbrev pub poll_out : ℤ → ℤ → T Poll
  poll_out fd ms t = (os.poll t fd ms, polled fd ms ∷ t)

  abbrev pub try_connect : ℤ → T Outcome
  try_connect fd t = (os.connect t fd, connect_tried fd ∷ t)

  abbrev pub try_bind : ℤ → T Outcome
  try_bind fd t = (os.bind t fd, bound fd ∷ t)

  abbrev pub try_listen : ℤ → T Outcome
  try_listen fd t = (os.listen t fd, listening fd ∷ t)

  abbrev pub try_accept : ℤ → T Outcome
  try_accept fd t = (os.accept t fd, accept_tried fd ∷ t)

  abbrev pub try_send : ℤ → Text → T Outcome
  try_send fd b t = (os.send t fd b, sent fd b ∷ t)

  abbrev pub try_recv : ℤ → T Outcome
  try_recv fd t = (os.recv t fd, recv_tried fd ∷ t)

-- What the proofs measure on a trace.
abbrev pub total_sleep : Trace → ℕ
total_sleep [] = 0
total_sleep (slept ms ∷ t) = ms + total_sleep t
total_sleep (e ∷ t) = total_sleep t

abbrev pub connects : Trace → ℕ
connects [] = 0
connects (connect_tried fd ∷ t) = suc (connects t)
connects (e ∷ t) = connects t
