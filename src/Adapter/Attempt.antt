-- ===== src/Adapter/Attempt.antt =====
-- What the connection loops of the Wi-Fi and the Bluetooth adapter have in common: the remaining
-- time, the wait for a socket, the reading of errno, and the backoff.
use sensor_lib.CText.{wrap, signed}
use sensor_lib.Prelude.{
  ℕ, zero, suc, ◌+◌, ◌-◌, ◌*◌, ◌/◌, ◌^◌, Bool, true, false, Option, none, some, min, ℤ, pos, negsuc,
  is_pos, if◌then◌else◌, sub_ℕ,
}
use sensor_lib.Os.{
  Os, Errno, eisconn, econnrefused, ehostunreach, ehostdown, einval, Poll, writable, T, slept, done,
  emit, ◌>>=◌, ◌>>◌, clock, poll_out, Outcome, succeeds, fails,
}

-- How one pass of a loop ends: return from the function, go round again, or end the loop by its
-- condition.
pub data Attempt : Type 0 where
  leave : Bool → Attempt
  again : Attempt
  stop : Attempt

-- The cases of `switch (err)` after a failed connect.
pub data Verdict : Type 0 where
  already_connected retry_plain retry_readdress give_up : Verdict

unfoldable pub verdict : Errno → Verdict
verdict eisconn = already_connected
verdict econnrefused = retry_plain
verdict ehostunreach = retry_plain
verdict ehostdown = retry_plain
verdict einval = retry_readdress
verdict _ = give_up

-- `std::min(remaining_time / 2, milliseconds(100 * (1 << retry_count)))`, on a positive remaining
-- time
unfoldable pub backoff : ℕ → ℕ → ℕ
backoff remaining retry_count = min (remaining / 2) (100 * 2 ^ retry_count)

abbrev pub max_retries : ℕ
max_retries = 5

abbrev is_writable : Poll → Bool
is_writable writable = true
is_writable _ = false

-- static_cast<int> of a count of milliseconds
abbrev to_int : ℤ → ℤ
to_int z = signed 32 (wrap 32 z)

module _ (os : Os) where
  -- GetRemainingConnectionTime; the clock is read in milliseconds and is never before `start`
  unfoldable pub remaining_time : ℕ → ℕ → T ℤ
  remaining_time conn_timeout start = do now ← clock os; done (sub_ℕ conn_timeout (now - start))

  -- WaitForSocket
  unfoldable pub wait_for_socket : ℤ → ℤ → T Bool
  wait_for_socket fd timeout = do
    result ← poll_out os fd (to_int timeout)
    done (is_writable result)

abbrev magnitude : ℤ → ℕ
magnitude (pos n) = n
magnitude (negsuc n) = 0

module _ (os : Os) (conn_timeout start : ℕ) where
  -- `retry_count++`, the third look at the clock, and the backoff of one pass
  unfoldable pub back_off : ℕ → T Attempt
  unfolding remaining_time backoff
  back_off retry_count = do
    remaining ← remaining_time os conn_timeout start
    if is_pos remaining
        then (do emit (slept (backoff (magnitude remaining) (retry_count + 1))); done again)
        else done (leave false)

  -- The switch on errno. `when_connected` is what the loop makes of EISCONN. EINVAL sets the remote
  -- address again in ConnectToPeer, to the value that it has.
  unfoldable pub on_verdict : Bool → ℕ → Verdict → T Attempt
  unfolding back_off
  on_verdict when_connected retry_count already_connected = done (leave when_connected)
  on_verdict when_connected retry_count retry_plain = back_off retry_count
  on_verdict when_connected retry_count retry_readdress = back_off retry_count
  on_verdict when_connected retry_count give_up = done (leave false)

  -- What follows connect().
  unfoldable pub after_connect : Bool → ℕ → Outcome → T Attempt
  unfolding on_verdict verdict
  after_connect when_connected retry_count (succeeds n) = done (leave true)
  after_connect when_connected retry_count (fails e) =
      on_verdict when_connected retry_count (verdict e)

-- `while (retry_count < MAX_RETRIES)` over a pass that is given the retry count, with the passes
-- that are left. `none` says that the loop ended by its condition.
unfoldable pub retry_loop : (ℕ → T Attempt) → ℕ → T (Option Bool)
retry_loop pass zero t = (none, t)
retry_loop pass (suc left) t =
    let (a, t') = pass (max_retries - suc left) t in
    elim a [ leave b ↦ (some b, t') | again ↦ retry_loop pass left t' | stop ↦ (none, t') ]

-- A loop that ends by its condition has not connected.
abbrev pub connected_of : Option Bool → Bool
connected_of none = false
connected_of (some b) = b
