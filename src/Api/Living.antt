-- ===== src/Api/Living.antt =====
-- Any sequence of calls of the socket API keeps the sockets alive.
use sensor_lib.Prelude.{ℕ, ◌≡◌, refl, Option, none, some, List, [], ◌∷◌, Text}
use sensor_lib.Api.Interface.{BaseAdapter, Api}
use sensor_lib.Api.Laws.{Laws}
use sensor_lib.Api.Calls.{
  bratislava_conn, bratislava_send, bratislava_recv, bratislava_conn_timeout,
  bratislava_recv_timeout, bratislava_disconnect,
}
use sensor_lib.Api.Destroy.{bratislava_destroy}
use sensor_lib.Api.Emptied.{IsLive}
use sensor_lib.Api.Touching.{Returns}
use sensor_lib.Api.Returning.{
  conn-Returns, send-Returns, recv-Returns, timeouts-Return, disconnect-Returns, destroy-Returns,
}

-- The calls on a socket, each with the socket's pointer
pub data Call : Type 0 where
  conn recv disconnect destroy : ℕ → Call
  send : ℕ → Text → Call
  conn_timeout recv_timeout : ℕ → ℕ → Call

-- The state that a call leaves, without its result
left : {A B : Type 0} → Option (B × Api A) → Option (Api A)
left none = none
left (some (x, s)) = some s

step : {A : Type 0} → BaseAdapter A → Call → Api A → Option (Api A)
unfolding left
step ops (conn b) s = left (bratislava_conn ops b s)
step ops (recv b) s = left (bratislava_recv ops b s)
step ops (disconnect b) s = left (bratislava_disconnect ops b s)
step ops (destroy b) s = left (bratislava_destroy ops b s)
step ops (send b buf) s = left (bratislava_send ops b buf s)
step ops (conn_timeout b ms) s = left (bratislava_conn_timeout ops b ms s)
step ops (recv_timeout b ms) s = left (bratislava_recv_timeout ops b ms s)

unfoldable pub run : {A : Type 0} → BaseAdapter A → List Call → Api A → Option (Api A)
unfolding step
run ops [] s = some s
run ops (c ∷ cs) s = elim (step ops c s) [ none ↦ none | some t ↦ run ops cs t ]

left-IsLive :
    {A B : Type 0} {o : Option (B × Api A)} → Returns o → (t : Api A) × (left o ≡ some t) × IsLive t
unfolding left
left-IsLive r = (r.after, rw (r.runs) refl, r.live)

step-IsLive :
    {A : Type 0} {ops : BaseAdapter A}
    → Laws ops
    → (c : Call) (s : Api A) → IsLive s
    → (t : Api A) × (step ops c s ≡ some t) × IsLive t
unfolding step
step-IsLive laws (conn b) s v = left-IsLive (conn-Returns laws b s v)
step-IsLive laws (recv b) s v = left-IsLive (recv-Returns laws b s v)
step-IsLive laws (disconnect b) s v = left-IsLive (disconnect-Returns laws b s v)
step-IsLive laws (destroy b) s v = left-IsLive (destroy-Returns laws b s v)
step-IsLive laws (send b buf) s v = left-IsLive (send-Returns laws b s v buf)
step-IsLive laws (conn_timeout b ms) s v = left-IsLive (timeouts-Return laws b s v ms).0
step-IsLive laws (recv_timeout b ms) s v = left-IsLive (timeouts-Return laws b s v ms).1

-- Over an adapter that keeps the laws of BaseAdapter, from a state whose registry is valid and whose
-- listed sockets are listed once, not null, and have a config and an object, any sequence of
-- connecting, sending, receiving, setting timeouts, disconnecting and destroying, on any pointers,
-- destroyed, foreign and null ones too, reads no freed memory, returns, and leaves such a state.
pub run-IsLive :
    {A : Type 0} {ops : BaseAdapter A}
    → Laws ops
    → (cs : List Call) (s : Api A) → IsLive s
    → (t : Api A) × (run ops cs s ≡ some t) × IsLive t
unfolding run
run-IsLive laws [] s v = (s, refl, v)
run-IsLive laws (c ∷ cs) s v =
    let (t, e, live) = step-IsLive laws c s v in rw (run, e) (run-IsLive laws cs t live)
