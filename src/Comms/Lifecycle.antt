-- ===== src/Comms/Lifecycle.antt =====
-- start() and stop() of CommsRuntime, and the reference count around the one runtime of the
-- process: comms_runtime.cpp.
use sensor_lib.Prelude.{
  ℕ, suc, ◌-◌, Bool, true, false, Option, none, some, List, [], ◌∷◌, Text, bytes, ◌==◌,
  if◌then◌else◌,
}
use sensor_lib.Types.{Instrument, CallbackType, Status, success, error, LinkInfo, copy_string}
use sensor_lib.Os.{T, done, ◌>>=◌, ◌>>◌, ran, link_gone}
use sensor_lib.Comms.World.{World}
use sensor_lib.Comms.Runtime.{
  ActiveLink, Runtime, new_runtime, register_callback, unregister_callback,
}
use sensor_lib.Comms.Scan.{close_valid, call, Discovery, discover_links}

-- The commands that configure_bluetooth_accept_incoming_connections runs
abbrev pub bluetooth_commands : List Text
bluetooth_commands =
    bytes "rfkill unblock bluetooth >/dev/null 2>&1"
    ∷ bytes "btmgmt power on >/dev/null 2>&1"
    ∷ bytes "btmgmt connectable on >/dev/null 2>&1"
    ∷ bytes "btmgmt bondable on >/dev/null 2>&1"
    ∷ bytes "btmgmt pairable on >/dev/null 2>&1"
    ∷ bytes "btmgmt ssp on >/dev/null 2>&1"
    ∷ bytes
        "printf 'power on\\ndiscoverable on\\npairable on\\nquit\\n' | bluetoothctl >/dev/null 2>&1"
    ∷ []

unfoldable pub run_commands : List Text → T (Unit {0})
run_commands [] t = (tt, t)
run_commands (c ∷ cs) t = run_commands cs (ran c ∷ t)

-- The BratislavaLinkInfo that stop() makes of a link
unfoldable pub drop_info : ActiveLink → LinkInfo
drop_info a = record {
  link_id = copy_string 20 a.link.link_id;
  dev_id = copy_string 256 a.link.dev_id;
  latency = 0;
  throughput = 0;
  message_loss = 0;
  link_type = a.link.link_type;
}

unfoldable pub close_all : List ActiveLink → T (Unit {0})
unfolding close_valid
close_all [] t = (tt, t)
close_all (a ∷ links) t = close_all links ((close_valid a.link.socket_fd t).1)

unfoldable pub call_all : ℕ → List ActiveLink → T (Unit {0})
unfolding call drop_info
call_all p [] t = (tt, t)
call_all p (a ∷ links) t = call_all p links ((call p (link_gone p (drop_info a)) t).1)

-- stop, once the threads have ended
unfoldable pub stop : Runtime → T Runtime
unfolding close_all call_all
stop rt = do
  close_all rt.active_links
  call_all rt.callbacks.link_dropped rt.active_links
  done (record rt { running = false; active_links = []; active_link_keys = [] })

-- start, given whether the threads can be made
unfoldable pub start : Bool → Runtime → T (Status × Runtime)
unfolding run_commands stop
start threads rt = if rt.running then done (success, rt) else (do
  run_commands bluetooth_commands
  if threads
      then done (success, record rt { running = true })
      else (do rt' ← stop rt; done (error, rt')))

-- g_runtime and g_runtime_refcount
pub record Process : Type 0 where
  pub runtime : Option Runtime
  pub refcount : ℕ

unfoldable pub keep_started : Process → Status × Runtime → Status × Process
keep_started g (success, rt) = (success, record { runtime = some rt; refcount = suc g.refcount })
keep_started g (s, rt) = (s, record g { runtime = none })

unfoldable pub initialize_runtime : Bool → Option Runtime → Process → T (Status × Process)
unfolding start keep_started
initialize_runtime threads (some rt) g = done (success, record g { refcount = suc g.refcount })
initialize_runtime threads none g = do
  result ← start threads new_runtime
  done (keep_started g result)

-- comms_runtime_initialize; the flag says whether the configuration is not null
unfoldable pub comms_runtime_initialize : Bool → Bool → Process → T (Status × Process)
unfolding initialize_runtime
comms_runtime_initialize false threads g = done (error, g)
comms_runtime_initialize true threads g = initialize_runtime threads g.runtime g

unfoldable pub stop_some : Option Runtime → T (Unit {0})
unfolding stop
stop_some none = done tt
stop_some (some rt) = do stop rt; done tt

-- comms_runtime_shutdown
unfoldable pub comms_runtime_shutdown : Process → T Process
unfolding stop_some
comms_runtime_shutdown g =
    if g.refcount == 0
    then done g
    else if g.refcount - 1 == 0
    then (do stop_some g.runtime; done (record { runtime = none; refcount = 0 }))
    else done (record g { refcount = g.refcount - 1 })

keep_runtime {ℓ} : {A : Type ℓ} → Process → A × Runtime → A × Process
keep_runtime g (a, rt) = (a, record g { runtime = some rt })

register_at : Option Runtime → Instrument → CallbackType → Option ℕ → Process → Status × Process
unfolding keep_runtime
register_at none i c input g = (error, g)
register_at (some rt) i c input g = keep_runtime g (register_callback i c input rt)

-- comms_runtime_register_callback
unfoldable pub comms_runtime_register_callback :
    Instrument → CallbackType → Option ℕ → Process → Status × Process
unfolding register_at
comms_runtime_register_callback i c input g = register_at g.runtime i c input g

unregister_at : Option Runtime → Instrument → CallbackType → Option ℕ → Process → Status × Process
unfolding keep_runtime
unregister_at none i c input g = (error, g)
unregister_at (some rt) i c input g = keep_runtime g (unregister_callback i c input rt)

-- comms_runtime_unregister_callback
unfoldable pub comms_runtime_unregister_callback :
    Instrument → CallbackType → Option ℕ → Process → Status × Process
unfolding unregister_at
comms_runtime_unregister_callback i c input g = unregister_at g.runtime i c input g

discover_at : Option Runtime → World → Instrument → Bool → Bool → Process → T (Discovery × Process)
unfolding discover_links keep_runtime
discover_at none w i out len g = done (record { status = error; links = []; output_len = none }, g)
discover_at (some rt) w i out len g = do
  result ← discover_links w i out len rt
  done (keep_runtime g result)

-- comms_runtime_discover_links
unfoldable pub comms_runtime_discover_links :
    World → Instrument → Bool → Bool → Process → T (Discovery × Process)
unfolding discover_at
comms_runtime_discover_links w i out len g = discover_at g.runtime w i out len g
