-- ===== src/Instrument/Sessions/Settling.antt =====
-- Any use of the library returns, and keeps one owner for every open descriptor.
use sensor_lib.Prelude.{false, ◌≡◌, refl, Option, none, some, List, [], ◌∷◌, Text}
use sensor_lib.Os.{Trace}
use sensor_lib.Comms.World.{FreshSockets}
use sensor_lib.Comms.Serving.{FreshClients}
use sensor_lib.Comms.Lifecycle.{Process}
use sensor_lib.Instrument.State.{Kernel, Answer}
use sensor_lib.Instrument.Action.{Reply, instrument_action}
use sensor_lib.Instrument.Sessions.{
  Call, create, destroy, act, register, unregister, discovery_thread, udp_thread, bluetooth_thread,
  replied_process, step, and_run, session,
}
use sensor_lib.Instrument.Returning.{Acknowledges, instrument_action-Returned}
use sensor_lib.Instrument.Sessions.Calls.{Settled, SettledAfter, step-Settled}

replied-Returned :
    (r : Reply) (t : Trace) (a : Answer) (g : Process)
    → r ≡ some (a, g)
    → replied_process (r, t) ≡ some (g, t)
unfolding replied_process
replied-Returned r t a g e = rw e refl

step-Returned :
    (k : Kernel)
    → k.gps_endless ≡ false
    → ((t : Trace) (name : Text) → Acknowledges (k.netlink t name))
    → (c : Call) (g : Process) (t : Trace) → (x : Process × Trace) × (step k c g t ≡ some x)
unfolding step
step-Returned k ends acknowledged (create calloc threads) g t = (_, refl)
step-Returned k ends acknowledged destroy g t = (_, refl)
step-Returned k ends acknowledged (act a r) g t =
    let x = instrument_action k a r g t in
    let (answer, g', e, has_len) = instrument_action-Returned k ends acknowledged a r g t in
    (_, replied-Returned x.0 x.1 answer g' e)
step-Returned k ends acknowledged (register i c input) g t = (_, refl)
step-Returned k ends acknowledged (unregister i c input) g t = (_, refl)
step-Returned k ends acknowledged discovery_thread g t = (_, refl)
step-Returned k ends acknowledged (udp_thread n) g t = (_, refl)
step-Returned k ends acknowledged (bluetooth_thread n) g t = (_, refl)

and_run-Settled :
    (rest : Process → Trace → Option (Process × Trace)) (o : Option (Process × Trace))
    → (x : Process × Trace) × (o ≡ some x)
    → ((g : Process) (t : Trace)
        → Settled g.runtime t
        → (g' : Process) × (t' : Trace) × (rest g t ≡ some (g', t')) × Settled g'.runtime t')
    → SettledAfter o
    → (g' : Process) × (t' : Trace) × (and_run rest o ≡ some (g', t')) × Settled g'.runtime t'
unfolding and_run
and_run-Settled rest none e ih h = absurd (cc (e.1))
and_run-Settled rest (some (g, t)) e ih h = ih g t h

-- Suppose that socket() and accept() return no descriptor that is open, that the stream of gpsd ends,
-- that the kernel acknowledges every scan of the Wi-Fi interface at last and reports signals in the
-- range of an int16_t, that /sys/class/net can be listed and the Bluetooth scanner returns. Suppose
-- that every open descriptor is that of exactly one link of the runtime, no two links of which have
-- the same key, or that none is open if there is no runtime; only descriptors count that socket()
-- and accept() gave, not those that the scanners and their libraries open. Then any sequence of
-- calls that create and destroy handles, perform actions of any kind, register and unregister
-- callbacks, and of rounds of the runtime's three threads, returns, and the same holds of the open
-- descriptors after it.
pub session-Settled :
    (k : Kernel)
    → FreshSockets k.world
    → FreshClients k.world
    → k.gps_endless ≡ false
    → ((t : Trace) (name : Text) → Acknowledges (k.netlink t name))
    → (cs : List Call) (g : Process) (t : Trace) → Settled g.runtime t
    → (g' : Process) × (t' : Trace) × (session k cs g t ≡ some (g', t')) × Settled g'.runtime t'
unfolding session
session-Settled k fresh clients ends acknowledged [] g t h = (g, t, refl, h)
session-Settled k fresh clients ends acknowledged (c ∷ cs) g t h =
    and_run-Settled (session k cs) (step k c g t) (step-Returned k ends acknowledged c g t)
      (session-Settled k fresh clients ends acknowledged cs) (step-Settled k fresh clients c g t h)
