-- ===== src/Comms/Counting.antt =====
-- The reference count around the runtime of the process.
use sensor_lib.Prelude.{
  ℕ, suc, ◌-◌, ◌≡◌, refl, ◌∙◌, ap, Bool, true, false, Option, none, some, List, [], ◌∷◌, ◌==◌,
  if◌then◌else◌, arith,
}
use sensor_lib.Os.{T, Trace}
use sensor_lib.Comms.Runtime.{Runtime}
use sensor_lib.Comms.Lifecycle.{
  Process, comms_runtime_initialize, comms_runtime_shutdown, start, initialize_runtime,
  keep_started,
}

-- A call of comms_runtime_initialize, with its flags, or of comms_runtime_shutdown
pub data Call : Type 0 where
  initialize : Bool → Bool → Call
  shutdown : Call

unfoldable pub step : Process → Call → T Process
unfolding comms_runtime_initialize comms_runtime_shutdown
step g (initialize config threads) t =
    let r = comms_runtime_initialize config threads g t in (r.0.1, r.1)
step g shutdown t = comms_runtime_shutdown g t

unfoldable pub run : Process → List Call → T Process
unfolding step
run g [] t = (g, t)
run g (c ∷ cs) t = let (g', t') = step g c t in run g' cs t'

-- There is a runtime exactly while the count is not 0, and then it is running.
abbrev pub Alive : Option Runtime → ℕ → Type 0
Alive none n = n ≡ 0
Alive (some rt) n = ((n == 0) ≡ false) × (rt.running ≡ true)

abbrev pub IsCounted : Process → Type 0
IsCounted g = Alive g.runtime g.refcount

-- What the calls do to the count by themselves.
abbrev pub count : ℕ → Call → ℕ
count n (initialize false threads) = n
count n (initialize true true) = suc n
count n (initialize true false) = if n == 0 then 0 else suc n
count n shutdown = n - 1

abbrev pub counts : ℕ → List Call → ℕ
counts n [] = n
counts n (c ∷ cs) = counts (count n c) cs

pub step-IsCounted :
    (o : Option Runtime) (n : ℕ) (c : Call) (t : Trace)
    → Alive o n
    → let g = (step (record { runtime = o; refcount = n }) c t).0 in
      IsCounted g × (g.refcount ≡ count n c)
unfolding step comms_runtime_initialize comms_runtime_shutdown initialize_runtime start keep_started
step-IsCounted none n (initialize false threads) t v = (v, refl)
step-IsCounted (some rt) n (initialize false threads) t v = (v, refl)
step-IsCounted none n (initialize true true) t v = ((ground arith, refl), refl)
step-IsCounted none n (initialize true false) t v = (v, ground (arith, v))
step-IsCounted (some rt) n (initialize true true) t v = ((ground arith, v.1), refl)
step-IsCounted (some rt) n (initialize true false) t v = ((ground arith, v.1), ground (arith, v.0))
step-IsCounted none n shutdown t v = ground (arith, v)
step-IsCounted (some rt) n shutdown t v = ground (arith, v.0, v.1)

-- After any history of initialize and shutdown calls from a process in which it holds, there is a
-- runtime exactly while the reference count is not 0, it is running, and the count is what the
-- calls make it on their own: one more for an initialize with a configuration, unless it is the
-- first and the threads could not be made, and one less, but not below 0, for a shutdown.
run-IsCounted :
    (g : Process) (cs : List Call) (t : Trace)
    → IsCounted g
    → IsCounted ((run g cs t).0) × ((run g cs t).0.refcount ≡ counts g.refcount cs)
unfolding run
run-IsCounted g [] t v = (v, refl)
run-IsCounted g (c ∷ cs) t v =
    let s = step-IsCounted g.runtime g.refcount c t v in
    let r = step g c t in
    let later = run-IsCounted r.0 cs r.1 s.0 in (later.0, later.1 ∙ ap (λ n. counts n cs) s.1)
