-- ===== src/Instrument/Sessions.antt =====
-- Whole uses of the library: handles, actions, callbacks and the work of the runtime's threads, one
-- after the other.
pub mod Calls
pub mod Settling
use sensor_lib.Prelude.{ℕ, Bool, Option, none, some, List, [], ◌∷◌}
use sensor_lib.Types.{Instrument, CallbackType}
use sensor_lib.Os.{Trace, T}
use sensor_lib.Comms.World.{World}
use sensor_lib.Comms.Runtime.{Runtime}
use sensor_lib.Comms.Scan.{scan_once}
use sensor_lib.Comms.Servers.{udp_server_loop, bluetooth_server_loop}
use sensor_lib.Comms.Lifecycle.{Process}
use sensor_lib.Instrument.State.{Kernel}
use sensor_lib.Instrument.Action.{
  Action, Request, Reply, instrument_action, register_callback, unregister_callback,
  create_instrument_api, destroy_instrument_api,
}

-- What the user and the threads of the runtime do: the first with whether calloc and the threads
-- succeed, the servers for a number of rounds.
pub data Call : Type 0 where
  create : Bool → Bool → Call
  destroy : Call
  act : Action → Request → Call
  register unregister : Instrument → CallbackType → Option ℕ → Call
  discovery_thread : Call
  udp_thread bluetooth_thread : ℕ → Call

-- discovery_loop between two waits, if there is a runtime
unfoldable scan_at : World → Option Runtime → Process → T Process
scan_at w none g t = (g, t)
scan_at w (some rt) g t = let (rt', u) = scan_once w rt t in (record g { runtime = some rt' }, u)

unfoldable replied_process : Reply × Trace → Option (Process × Trace)
replied_process (none, t) = none
replied_process (some (a, g), t) = some (g, t)

-- A call; `none` is an action that does not return.
unfoldable pub step : Kernel → Call → Process → Trace → Option (Process × Trace)
unfolding scan_at replied_process
step k (create calloc threads) g t =
    let (r, u) = create_instrument_api calloc threads g t in some (r.1, u)
step k destroy g t = some (destroy_instrument_api g t)
step k (act a r) g t = replied_process (instrument_action k a r g t)
step k (register i c input) g t = some ((register_callback i c input g).1, t)
step k (unregister i c input) g t = some ((unregister_callback i c input g).1, t)
step k discovery_thread g t = some (scan_at k.world g.runtime g t)
step k (udp_thread n) g t = some (g, (udp_server_loop k.world n t).1)
step k (bluetooth_thread n) g t = some (g, (bluetooth_server_loop k.world n t).1)

unfoldable and_run :
    (Process → Trace → Option (Process × Trace))
    → Option (Process × Trace)
    → Option (Process × Trace)
and_run rest none = none
and_run rest (some (g, t)) = rest g t

unfoldable pub session : Kernel → List Call → Process → Trace → Option (Process × Trace)
unfolding step and_run
session k [] g t = some (g, t)
session k (c ∷ cs) g t = and_run (session k cs) (step k c g t)
