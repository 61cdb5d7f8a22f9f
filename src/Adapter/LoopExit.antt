-- ===== src/Adapter/LoopExit.antt =====
-- How the connection loops end: connected only right after a connect() that says so.
use sensor_lib.Prelude.{ℕ, zero, suc, ◌-◌, ◌≡◌, refl, ap, ◌∙◌, ◌≢◌, Bool, true, [], ◌∷◌, ℤ, arith}
use mathlib.Core.Bool.{false≢true}
use sensor_lib.Os.{
  Os, Trace, T, connect_tried, Outcome, succeeds, fails, Errno, eisconn, econnrefused, ehostunreach,
  ehostdown, einval,
}
use sensor_lib.Adapter.Attempt.{
  Attempt, leave, again, stop, Verdict, already_connected, retry_plain, retry_readdress, give_up,
  verdict, back_off, on_verdict, after_connect, remaining_time, max_retries, retry_loop,
  connected_of,
}

-- What connect() must have answered: success, or EISCONN where `with_eisconn` allows it.
abbrev pub Connects : Bool → Outcome → Type 0
Connects with_eisconn (succeeds n) = Unit {0}
Connects with_eisconn (fails e) = (with_eisconn ≡ true) × (e ≡ eisconn)

-- The newest call is a connect() on the descriptor that was answered so.
abbrev pub JustConnected : Os → Bool → ℤ → Trace → Type 0
JustConnected os with_eisconn fd [] = ⊥
JustConnected os with_eisconn fd (connect_tried g ∷ t) =
    (g ≡ fd) × Connects with_eisconn (os.connect t fd)
JustConnected os with_eisconn fd (_ ∷ t) = ⊥

module _ (os : Os) (conn_timeout start : ℕ) where
  back_off-leave : (k : ℕ) (t : Trace) → (back_off os conn_timeout start k t).0 ≢ leave true
  unfolding back_off remaining_time
  back_off-leave k t = λ h. ground arith

  on_verdict-leave :
      (b : Bool) (k : ℕ) (v : Verdict) (t : Trace)
      → (on_verdict os conn_timeout start b k v t).0 ≡ leave true
      → (b ≡ true) × (v ≡ already_connected) × ((on_verdict os conn_timeout start b k v t).1 ≡ t)
  unfolding on_verdict
  on_verdict-leave b k already_connected t h = (cc, refl, refl)
  on_verdict-leave b k retry_plain t h = absurd (back_off-leave k t h)
  on_verdict-leave b k retry_readdress t h = absurd (back_off-leave k t h)
  on_verdict-leave b k give_up t h = cc

  verdict-already : (e : Errno) → verdict e ≡ already_connected → e ≡ eisconn
  unfolding verdict
  verdict-already eisconn h = refl
  verdict-already econnrefused h = cc
  verdict-already ehostunreach h = cc
  verdict-already ehostdown h = cc
  verdict-already einval h = cc
  verdict-already _ h = cc

  pub after_connect-leave :
      (b : Bool) (k : ℕ) (o : Outcome) (t : Trace)
      → (after_connect os conn_timeout start b k o t).0 ≡ leave true
      → Connects b o × ((after_connect os conn_timeout start b k o t).1 ≡ t)
  unfolding after_connect
  after_connect-leave b k (succeeds n) t h = (tt, refl)
  after_connect-leave b k (fails e) t h =
      let (eb, ev, et) = on_verdict-leave b k (verdict e) t h in ((eb, verdict-already e ev), et)

  -- The pass after a connect() on `fd`.
  pub after_try-leave :
      (b : Bool) (k : ℕ) (fd : ℤ) (t : Trace)
      → (after_connect os conn_timeout start b k (os.connect t fd) (connect_tried fd ∷ t)).0
        ≡ leave true
      → JustConnected os b fd
          (after_connect os conn_timeout start b k (os.connect t fd) (connect_tried fd ∷ t)).1
  after_try-leave b k fd t h =
      let (c, e) = after_connect-leave b k (os.connect t fd) (connect_tried fd ∷ t) h in
      rw e (refl, c)

-- A loop of passes that leave connected only in states of `P` ends connected only in such a state.
pub retry_loop-leave :
    (P : Trace → Type 0) (pass : ℕ → T Attempt)
    → ((k : ℕ) (t : Trace) → (pass k t).0 ≡ leave true → P (pass k t).1)
    → (n : ℕ) (t : Trace) → connected_of (retry_loop pass n t).0 ≡ true
    → P (retry_loop pass n t).1
unfolding retry_loop
retry_loop-leave P pass h zero t e = cc
retry_loop-leave P pass h (suc n) t e =
    by_pass (pass (max_retries - suc n) t).0 refl
      (λ e'. retry_loop-leave P pass h n (pass (max_retries - suc n) t).1 e')
  where
    u : Trace
    u = (pass (max_retries - suc n) t).1

    by_pass :
        (a : Attempt)
        → (pass (max_retries - suc n) t).0 ≡ a
        → (connected_of (retry_loop pass n u).0 ≡ true → P (retry_loop pass n u).1)
        → P (retry_loop pass (suc n) t).1
    by_pass (leave b) ea rest =
        rw (ea, retry_loop) (h (max_retries - suc n) t (ea ∙ ap leave (rw (ea, retry_loop) at e)))
    by_pass again ea rest = rw (ea, retry_loop) (rest (rw (ea, retry_loop) at e))
    by_pass stop ea rest = absurd (false≢true (rw (ea, retry_loop) at e))
