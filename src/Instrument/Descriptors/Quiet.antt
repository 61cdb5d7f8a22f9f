-- ===== src/Instrument/Descriptors/Quiet.antt =====
-- Computations that close what they open: with_socket and branches.
use sensor_lib.Prelude.{ℕ, ◌≡◌, refl, Bool, true, false, ◌∷◌, arith, ℤ, pos, negsuc, if◌then◌else◌}
use sensor_lib.Os.{Trace, T, socket_made}
use sensor_lib.Comms.World.{opened, FreshSockets}
use sensor_lib.Instrument.State.{Kernel, with_descriptor, with_socket}

-- A computation that leaves open what it finds open, and nothing else.
abbrev pub Quiet : {A : Type 0} → T A → Type 0
Quiet m = (t : Trace) (fd : ℕ) → opened fd (m t).1 ≡ opened fd t

-- Both branches of a test leave the same open.
pub if-opened :
    {A : Type 0} (b : Bool) (m n : T A) (t : Trace) (fd : ℕ) (v : ℕ)
    → opened fd (m t).1 ≡ v
    → opened fd (n t).1 ≡ v
    → opened fd ((if b then m else n) t).1 ≡ v
if-opened true m n t fd v h g = h
if-opened false m n t fd v h g = g

module _ (k : Kernel) (fresh : FreshSockets k.world) where
  with_descriptor-closes :
      {A : Type 0} (refused : A) (body : ℕ → T A) (z : ℤ) (t : Trace) (fd : ℕ)
      → ((f : ℕ) → Quiet (body f))
      → ((f : ℕ) → z ≡ pos f → opened f t ≡ 0)
      → opened fd (with_descriptor refused body z (socket_made z ∷ t)).1 ≡ opened fd t
  unfolding with_descriptor
  with_descriptor-closes refused body (negsuc n) t fd h new = refl
  with_descriptor-closes refused body (pos f) t fd h new =
      ground (arith, h f (socket_made (pos f) ∷ t) fd, new f refl)

  pub with_socket-Quiet :
      {A : Type 0} (refused : A) (body : ℕ → T A)
      → ((f : ℕ) → Quiet (body f))
      → Quiet (with_socket k refused body)
  unfolding with_socket
  with_socket-Quiet refused body h t fd =
      with_descriptor-closes refused body (k.world.os.socket t) t fd h (fresh t)
