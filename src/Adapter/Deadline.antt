-- ===== src/Adapter/Deadline.antt =====
-- The connection loops against the clock: no connect() after the deadline, no backoff that would
-- reach it, and a bound on the attempts and on the time slept.
use sensor_lib.Prelude.{
  ℕ, zero, suc, ◌+◌, ◌-◌, ◌*◌, ◌^◌, ◌≤◌, ◌<◌, ◌≡◌, refl, Bool, [], ◌∷◌, sub_ℕ, arith,
}
use sensor_lib.Os.{
  Os, Trace, T, Event, clock_read, configured, unblocked, connect_tried, slept, Outcome, succeeds,
  fails, total_sleep, connects,
}
use sensor_lib.Adapter.Attempt.{
  Attempt, Verdict, already_connected, retry_plain, retry_readdress, give_up, verdict, backoff,
  back_off, on_verdict, after_connect, remaining_time, max_retries, retry_loop,
}

backoff-le :
    (remaining k : ℕ) → (2 * backoff remaining k ≤ remaining) × (backoff remaining k ≤ 100 * 2 ^ k)
unfolding backoff
backoff-le remaining k = (omega arith, omega arith)

module _ (os : Os) (conn_timeout start : ℕ) where
  -- A connect() follows a look at the clock that found time left, and a sleep takes at most half
  -- of the time that the look before it found left.
  abbrev pub Fits : Event → Trace → Type 0
  Fits (connect_tried fd) (configured g ms ∷ unblocked h ∷ clock_read ∷ t) =
      os.clock_ms t - start < conn_timeout
  Fits (connect_tried fd) _ = ⊥
  Fits (slept ms) (clock_read ∷ t) = 2 * ms ≤ conn_timeout - (os.clock_ms t - start)
  Fits (slept ms) _ = ⊥
  Fits _ _ = Unit

  abbrev pub OnTime : Trace → Type 0
  OnTime [] = Unit {0}
  OnTime (e ∷ t) = Fits e t × OnTime t

  remaining_time_lem :
      (t : Trace)
      → remaining_time os conn_timeout start t
        ≡ (sub_ℕ conn_timeout (os.clock_ms t - start), clock_read ∷ t)
  unfolding remaining_time
  remaining_time_lem t = refl

  -- What the end of a pass, after connect(), does to the trace.
  abbrev pub Ends : ℕ → Trace → Trace → Type 0
  Ends k t t' =
      OnTime t' × (connects t' ≡ connects t) × (total_sleep t' ≤ total_sleep t + 100 * 2 ^ (k + 1))

  back_off-Ends : (k : ℕ) (t : Trace) → OnTime t → Ends k t (back_off os conn_timeout start k t).1
  unfolding back_off remaining_time
  back_off-Ends k t h = ground (arith, backoff-le (conn_timeout - (os.clock_ms t - start)) (k + 1))

  on_verdict-Ends :
      (b : Bool) (k : ℕ) (v : Verdict) (t : Trace)
      → OnTime t
      → Ends k t (on_verdict os conn_timeout start b k v t).1
  unfolding on_verdict
  on_verdict-Ends b k already_connected t h = (h, refl, omega arith)
  on_verdict-Ends b k retry_plain t h = back_off-Ends k t h
  on_verdict-Ends b k retry_readdress t h = back_off-Ends k t h
  on_verdict-Ends b k give_up t h = (h, refl, omega arith)

  pub after_connect-Ends :
      (b : Bool) (k : ℕ) (o : Outcome) (t : Trace)
      → OnTime t
      → Ends k t (after_connect os conn_timeout start b k o t).1
  unfolding after_connect
  after_connect-Ends b k (succeeds n) t h = (h, refl, omega arith)
  after_connect-Ends b k (fails e) t h = on_verdict-Ends b k (verdict e) t h

  -- What one pass does: at most one connect(), at most one backoff, all on time.
  abbrev pub PassFits : (ℕ → T Attempt) → Type 0
  PassFits pass =
      (k : ℕ) (t : Trace)
      → OnTime t
      → OnTime (pass k t).1
        × (connects (pass k t).1 ≤ connects t + 1)
        × (total_sleep (pass k t).1 ≤ total_sleep t + 100 * 2 ^ (k + 1))

  -- The most that `n` remaining passes can sleep.
  abbrev budget : ℕ → ℕ
  budget zero = 0
  budget (suc n) = 100 * 2 ^ (max_retries - suc n + 1) + budget n

  retry_loop-budget :
      (pass : ℕ → T Attempt) (n : ℕ) (t : Trace)
      → PassFits pass
      → OnTime t
      → OnTime (retry_loop pass n t).1
        × (connects (retry_loop pass n t).1 ≤ connects t + n)
        × (total_sleep (retry_loop pass n t).1 ≤ total_sleep t + budget n)
  unfolding retry_loop
  retry_loop-budget pass zero t fits h = (h, omega arith, omega arith)
  retry_loop-budget pass (suc n) t fits h = ground (
    arith,
    fits (max_retries - suc n) t h,
    retry_loop-budget pass n (pass (max_retries - suc n) t).1 fits,
  )

  -- A loop of MAX_RETRIES such passes.
  pub retry_loop-Fits :
      (pass : ℕ → T Attempt) (t : Trace)
      → PassFits pass
      → OnTime t
      → OnTime (retry_loop pass max_retries t).1
        × (connects (retry_loop pass max_retries t).1 ≤ connects t + 5)
        × (total_sleep (retry_loop pass max_retries t).1 ≤ total_sleep t + 6200)
  retry_loop-Fits pass t fits h = retry_loop-budget pass max_retries t fits h
