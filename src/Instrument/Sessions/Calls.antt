-- ===== src/Instrument/Sessions/Calls.antt =====
-- Every call of a session keeps one owner for every open descriptor.
use sensor_lib.Prelude.{
  ℕ, ◌-◌, ◌≡◌, refl, ◌∙◌, Bool, true, false, inl, inr, Option, none, some, List, [], ◌∷◌, arith,
  Text, ◌==◌, Bool-cases,
}
use sensor_lib.Types.{
  Instrument, bluetooth, wifi, comms, CallbackType, Status, success, error, not_supported,
}
use sensor_lib.Os.{Trace, ran}
use sensor_lib.Comms.Candidates.{member}
use sensor_lib.Comms.World.{World, opened, FreshSockets}
use sensor_lib.Comms.Runtime.{Runtime, new_runtime}
use sensor_lib.Comms.Runtime
use sensor_lib.Comms.Scan.{discover_links}
use sensor_lib.Comms.Ownership.{Owned}
use sensor_lib.Comms.Scanning.{scan_once-Owned}
use sensor_lib.Comms.Stopping.{stop-Stops}
use sensor_lib.Comms.Serving.{FreshClients, servers_close}
use sensor_lib.Comms.Lifecycle.{
  Process, run_commands, bluetooth_commands, start, stop, initialize_runtime, keep_started,
  comms_runtime_initialize, comms_runtime_shutdown, stop_some, comms_runtime_discover_links,
  comms_runtime_register_callback, comms_runtime_unregister_callback,
}
use sensor_lib.Instrument.State.{Kernel}
use sensor_lib.Instrument.Action.{
  Action, bluetooth_links, wifi_links, comms_links, Request, Reply, instrument_action, dispatch,
  with_len, links_reply, discover_links_action, register_callback, unregister_callback, created,
  create_instrument_api, destroy_instrument_api,
}
use sensor_lib.Instrument.Descriptors.{Leaves, action-Quiet}
use sensor_lib.Instrument.Sessions.{
  Call, create, destroy, act, register, unregister, discovery_thread, udp_thread, bluetooth_thread,
  scan_at, replied_process, step,
}

-- Every open descriptor has one owner, a link of the runtime; without a runtime none is open.
abbrev pub Settled : Option Runtime → Trace → Type 0
Settled none t = (fd : ℕ) → opened fd t ≡ 0
Settled (some rt) t = Owned rt [] t

abbrev pub SettledAfter : Option (Process × Trace) → Type 0
SettledAfter none = Unit
SettledAfter (some (g, t)) = Settled g.runtime t

Settled-same :
    (o : Option Runtime) (t u : Trace)
    → ((fd : ℕ) → opened fd u ≡ opened fd t)
    → Settled o t
    → Settled o u
Settled-same none t u e h = λ fd. e fd ∙ h fd
Settled-same (some rt) t u e h = record { owned = λ fd. e fd ∙ h.owned fd; keyed = h.keyed }

run_commands-opened :
    (cs : List Text) (t : Trace) (fd : ℕ) → opened fd (run_commands cs t).1 ≡ opened fd t
unfolding run_commands
run_commands-opened [] t fd = refl
run_commands-opened (c ∷ cs) t fd = run_commands-opened cs (ran c ∷ t) fd

initialize-Settled :
    (o : Option Runtime) (n : ℕ) (threads : Bool) (t : Trace)
    → Settled o t
    → let r = comms_runtime_initialize true threads (record { runtime = o; refcount = n }) t in
      Settled r.0.1.runtime r.1
unfolding comms_runtime_initialize initialize_runtime start keep_started member
initialize-Settled (some rt) n threads t h = h
initialize-Settled none n true t h = record {
  owned = λ fd. omega (arith, run_commands-opened bluetooth_commands t fd, h fd);
  keyed = λ key. refl;
}
initialize-Settled none n false t h =
    unfold stop in λ fd. run_commands-opened bluetooth_commands t fd ∙ h fd

created-process : (s : Status) (g : Process) → (created (s, g)).1 ≡ g
unfolding created
created-process success g = refl
created-process error g = refl
created-process not_supported g = refl

create-Settled :
    (calloc threads : Bool) (g : Process) (t : Trace)
    → Settled g.runtime t
    → let r = create_instrument_api calloc threads g t in Settled r.0.1.runtime r.1
unfolding create_instrument_api
create-Settled false threads g t h = h
create-Settled true threads g t h =
    let r = comms_runtime_initialize true threads g t in
    rw (created-process r.0.0 r.0.1) (initialize-Settled g.runtime g.refcount threads t h)

destroy-Settled :
    (o : Option Runtime) (n : ℕ) (t : Trace)
    → Settled o t
    → let r = destroy_instrument_api (record { runtime = o; refcount = n }) t in
      Settled r.0.runtime r.1
unfolding destroy_instrument_api comms_runtime_shutdown
destroy-Settled o n t h = elim (Bool-cases (n == 0)) [
  | inl unused ↦ rw unused h
  | inr used ↦ elim (Bool-cases (n - 1 == 0)) [
    | inl last ↦ rw (used, last) (stopped o h)
    | inr more ↦ rw (used, more) h
  ]
]
  where
    stopped : (o : Option Runtime) → Settled o t → (fd : ℕ) → opened fd (stop_some o t).1 ≡ 0
    stopped none h fd = h fd
    stopped (some rt) h fd = (stop-Stops rt t h).all_closed fd

discover-Settled :
    (w : World) (fresh : FreshSockets w) (i : Instrument) (out len : Bool) (o : Option Runtime)
    (n : ℕ) (t : Trace)
    → Settled o t
    → let r = comms_runtime_discover_links w i out len (record { runtime = o; refcount = n }) t in
      Settled r.0.1.runtime r.1
unfolding comms_runtime_discover_links discover_links
discover-Settled w fresh i out len none n t h = h
discover-Settled w fresh i true true (some rt) n t h = scan_once-Owned w fresh rt t h
discover-Settled w fresh i true false (some rt) n t h = h
discover-Settled w fresh i false true (some rt) n t h = h
discover-Settled w fresh i false false (some rt) n t h = h

Action-discrete : Discrete Action
Action-discrete = hlevel

replied-Settled :
    (g : Process) (r : Reply) (t u : Trace)
    → ((fd : ℕ) → opened fd u ≡ opened fd t)
    → Leaves g r
    → Settled g.runtime t
    → SettledAfter (replied_process (r, u))
unfolding replied_process
replied-Settled g none t u same leaves h = tt
replied-Settled g (some (a, g')) t u same leaves h = rw leaves (Settled-same g.runtime t u same h)

module _ (k : Kernel) (fresh : FreshSockets k.world) where
  links-Settled :
      (i : Instrument) (r : Request) (g : Process) (t : Trace)
      → Settled g.runtime t
      → let x = discover_links_action k i r g t in
        SettledAfter (replied_process (with_len r.has_len x.0, x.1))
  unfolding replied_process discover_links_action with_len links_reply
  links-Settled i r g t h =
      discover-Settled k.world fresh i r.has_output r.has_len g.runtime g.refcount t h

  act-Settled :
      (a : Action) (r : Request) (g : Process) (t : Trace)
      → Settled g.runtime t
      → SettledAfter (replied_process (instrument_action k a r g t))
  act-Settled a r g t h = elim (Action-discrete a bluetooth_links) [
    | yes e ↦ rw e (unfold instrument_action in unfold dispatch in links-Settled bluetooth r g t h)
    | no not_bluetooth ↦ elim (Action-discrete a wifi_links) [
      | yes e ↦ rw e (unfold instrument_action in unfold dispatch in links-Settled wifi r g t h)
      | no not_wifi ↦ elim (Action-discrete a comms_links) [
        | yes e ↦ rw e (unfold instrument_action in unfold dispatch in links-Settled comms r g t h)
        | no not_comms ↦
            let x = instrument_action k a r g t in
            let quiet = action-Quiet k fresh a r g t not_bluetooth not_wifi not_comms in
            replied-Settled g x.0 t x.1 quiet.0 quiet.1 h
      ]
    ]
  ]

  register-Settled :
      (i : Instrument) (c : CallbackType) (input : Option ℕ) (o : Option Runtime) (n : ℕ)
      (t : Trace)
      → Settled o t
      → let g : Process = record { runtime = o; refcount = n } in
        Settled (register_callback i c input g).1.runtime t
        × Settled (unregister_callback i c input g).1.runtime t
  unfolding register_callback unregister_callback comms_runtime_register_callback
      comms_runtime_unregister_callback Runtime.register_callback Runtime.unregister_callback
  register-Settled i c input none n t h = (h, h)
  register-Settled i c none (some rt) n t h = (h, record { owned = h.owned; keyed = h.keyed })
  register-Settled i c (some p) (some rt) n t h =
      (record { owned = h.owned; keyed = h.keyed }, record { owned = h.owned; keyed = h.keyed })

  scan-Settled :
      (o : Option Runtime) (n : ℕ) (t : Trace)
      → Settled o t
      → let r = scan_at k.world o (record { runtime = o; refcount = n }) t in
        Settled r.0.runtime r.1
  unfolding scan_at
  scan-Settled none n t h = h
  scan-Settled (some rt) n t h = scan_once-Owned k.world fresh rt t h

  module _ (clients : FreshClients k.world) where
    pub step-Settled :
        (c : Call) (g : Process) (t : Trace) → Settled g.runtime t → SettledAfter (step k c g t)
    unfolding step
    step-Settled (create calloc threads) g t h = create-Settled calloc threads g t h
    step-Settled destroy g t h = destroy-Settled g.runtime g.refcount t h
    step-Settled (act a r) g t h = act-Settled a r g t h
    step-Settled (register i c input) g t h =
        (register-Settled i c input g.runtime g.refcount t h).0
    step-Settled (unregister i c input) g t h =
        (register-Settled i c input g.runtime g.refcount t h).1
    step-Settled discovery_thread g t h = scan-Settled g.runtime g.refcount t h
    step-Settled (udp_thread n) g t h =
        Settled-same g.runtime t _ (servers_close k.world n t fresh clients).0 h
    step-Settled (bluetooth_thread n) g t h =
        Settled-same g.runtime t _ (servers_close k.world n t fresh clients).1 h
