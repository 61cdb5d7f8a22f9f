-- ===== src/Instrument/Handles.antt =====
-- The handles that createInstrumentAPI gives out, and the runtime of the process behind them.
use sensor_lib.Prelude.{
  ℕ, zero, suc, ◌≡◌, refl, ◌∙◌, subst, Bool, true, false, Option, none, some, List, [], ◌∷◌, arith,
}
use sensor_lib.Types.{Instrument, CallbackType, error}
use sensor_lib.Os.{T, Trace}
use sensor_lib.Comms.Runtime.{Runtime}
use sensor_lib.Comms.Counting.{shutdown, IsCounted, step, step-IsCounted}
use sensor_lib.Comms.Lifecycle.{
  Process, comms_runtime_initialize, comms_runtime_shutdown, start, initialize_runtime,
  keep_started,
}
use sensor_lib.Instrument.Action.{
  created, register_callback, create_instrument_api, destroy_instrument_api,
}

-- A call of createInstrumentAPI, given whether calloc and the making of threads succeed, or of
-- destroyInstrumentAPI with a handle; without one left there is nothing to destroy.
pub data Use : Type 0 where
  acquire : Bool → Bool → Use
  release : Use

acquired : ℕ → Bool × Process → ℕ × Process
acquired n (true, g) = (suc n, g)
acquired n (false, g) = (n, g)

-- One call, with the number of handles that are out and the process
unfoldable pub use_handle : Use → ℕ × Process → T (ℕ × Process)
unfolding acquired create_instrument_api destroy_instrument_api
use_handle (acquire calloc threads) (n, g) t =
    let (r, u) = create_instrument_api calloc threads g t in (acquired n r, u)
use_handle release (zero, g) t = ((zero, g), t)
use_handle release (suc n, g) t = let (g', u) = destroy_instrument_api g t in ((n, g'), u)

unfoldable pub use_handles : List Use → ℕ × Process → T (ℕ × Process)
unfolding use_handle
use_handles [] s t = (s, t)
use_handles (c ∷ cs) s t = let (s', u) = use_handle c s t in use_handles cs s' u

-- Every handle stands for one reference to the runtime, which is there and runs while there is one.
abbrev pub Held : ℕ × Process → Type 0
Held (n, g) = IsCounted g × (g.refcount ≡ n)

acquire-Held :
    (o : Option Runtime) (n : ℕ) (calloc threads : Bool) (t : Trace)
    → IsCounted (record { runtime = o; refcount = n })
    → Held (use_handle (acquire calloc threads) (n, record { runtime = o; refcount = n }) t).0
unfolding use_handle comms_runtime_initialize initialize_runtime start keep_started created
acquire-Held o n false threads t v = (v, refl)
acquire-Held none n true true t v = ((ground arith, refl), ground (arith, v))
acquire-Held none n true false t v = (v, refl)
acquire-Held (some rt) n true threads t v = ((ground arith, v.1), refl)

acquire-Held_at :
    (n : ℕ) (g : Process) (calloc threads : Bool) (t : Trace)
    → Held (n, g)
    → Held (use_handle (acquire calloc threads) (n, g) t).0
acquire-Held_at n g calloc threads t (v, e) =
    subst (λ m. Held (use_handle (acquire calloc threads) (m, g) t).0) e
      (acquire-Held g.runtime g.refcount calloc threads t v)

release-Held :
    (n : ℕ) (g : Process) (t : Trace) → Held (n, g) → Held (use_handle release (n, g) t).0
unfolding use_handle
release-Held zero g t h = h
release-Held (suc n) g t (v, e) =
    let s = step-IsCounted g.runtime g.refcount shutdown t v in
    (unfold step in s.0, unfold step in (s.1 ∙ omega (arith, e)))

-- After any history of createInstrumentAPI calls, each of which may fail to allocate or to make its
-- threads, and of destroyInstrumentAPI calls on handles that are still out, from a process in which
-- this holds: the reference count is the number of handles that are out, there is a runtime
-- exactly while one is out, and it is running.
pub use_handles-Held :
    (cs : List Use) (n : ℕ) (g : Process) (t : Trace)
    → Held (n, g)
    → Held (use_handles cs (n, g) t).0
unfolding use_handles
use_handles-Held [] n g t h = h
use_handles-Held (acquire calloc threads ∷ cs) n g t h =
    let r = use_handle (acquire calloc threads) (n, g) t in
    use_handles-Held cs r.0.0 r.0.1 r.1 (acquire-Held_at n g calloc threads t h)
use_handles-Held (release ∷ cs) n g t h =
    let r = use_handle release (n, g) t in
    use_handles-Held cs r.0.0 r.0.1 r.1 (release-Held n g t h)

-- If createInstrumentAPI fails while one other handle is out, and its null result is destroyed as
-- well, the runtime of that other handle is gone: no callback can be registered by it any more.
pub null_destroy_stops :
    (g : Process) (threads : Bool) (t : Trace) (i : Instrument) (c : CallbackType)
    (input : Option ℕ)
    → Held (1, g)
    → let r = create_instrument_api false threads g t in
      let g' = (destroy_instrument_api r.0.1 r.1).0 in
      (r.0.0 ≡ false)
      × (g'.refcount ≡ 0)
      × (g'.runtime ≡ none)
      × ((register_callback i c input g').0 ≡ error)
unfolding create_instrument_api destroy_instrument_api comms_runtime_shutdown register_callback
null_destroy_stops g threads t i c input (v, e) = (refl, rw e refl, rw e refl, rw e refl)
