-- ===== src/Comms/Stopping.antt =====
-- What stop() of the comms runtime leaves behind.
use sensor_lib.Prelude.{ℕ, ◌-◌, ◌≡◌, refl, ◌∙◌, false, List, [], ◌∷◌, ℤ, ◌==◌, if◌then◌else◌, arith}
use sensor_lib.Types.{LinkInfo, copy_string}
use sensor_lib.Os.{Trace, link_gone}
use sensor_lib.Comms.World.{opened}
use sensor_lib.Comms.Runtime.{ActiveLink, Runtime}
use sensor_lib.Comms.Scan.{close_valid, call}
use sensor_lib.Comms.Lifecycle.{drop_info, close_all, call_all, stop}
use sensor_lib.Comms.Ownership.{holders, Owned, close_valid-opened, call-opened}

close_all-opened :
    (fd : ℕ) (links : List ActiveLink) (t : Trace)
    → opened fd ((close_all links t).1) ≡ opened fd t - holders fd links
unfolding close_all
close_all-opened fd [] t = omega arith
close_all-opened fd (a ∷ links) t = omega (
  arith,
  close_all-opened fd links ((close_valid a.link.socket_fd t).1),
  close_valid-opened fd a.link.socket_fd t,
)

call_all-opened :
    (fd p : ℕ) (links : List ActiveLink) (t : Trace)
    → opened fd ((call_all p links t).1) ≡ opened fd t
unfolding call_all
call_all-opened fd p [] t = refl
call_all-opened fd p (a ∷ links) t =
    call_all-opened fd p links ((call p (link_gone p (drop_info a)) t).1)
    ∙ call-opened fd p (link_gone p (drop_info a)) t refl

-- The drop notices in a trace, newest first, with their callback.
abbrev pub notices : Trace → List (ℕ × LinkInfo)
notices [] = []
notices (link_gone p info ∷ t) = (p, info) ∷ notices t
notices (e ∷ t) = notices t

close_all-notices :
    (links : List ActiveLink) (t : Trace) → notices ((close_all links t).1) ≡ notices t
unfolding close_all close_valid
close_all-notices [] t = refl
close_all-notices (a ∷ links) t =
    close_all-notices links ((close_valid a.link.socket_fd t).1)
    ∙ close_valid-notices a.link.socket_fd
  where
    close_valid-notices : (z : ℤ) → notices ((close_valid z t).1) ≡ notices t
    close_valid-notices z = ground arith

-- What the drop callback is to learn of a link: its id and its device's, in the sizes that
-- BratislavaLinkInfo has for them, and its type.
abbrev pub gone_info : ActiveLink → LinkInfo
gone_info a = record {
  link_id = copy_string 20 a.link.link_id;
  dev_id = copy_string 256 a.link.dev_id;
  latency = 0;
  throughput = 0;
  message_loss = 0;
  link_type = a.link.link_type;
}

drop_info-gone : (a : ActiveLink) → drop_info a ≡ gone_info a
unfolding drop_info
drop_info-gone a = refl

-- The notices of links, the last one first.
abbrev pub notices_of : ℕ → List ActiveLink → List (ℕ × LinkInfo) → List (ℕ × LinkInfo)
notices_of p [] before = before
notices_of p (a ∷ links) before = notices_of p links ((p, gone_info a) ∷ before)

call_all-notices :
    (p : ℕ) (links : List ActiveLink) (t : Trace)
    → notices ((call_all p links t).1)
      ≡ (if p == 0 then notices t else notices_of p links (notices t))
unfolding call_all call
call_all-notices p [] t = ground arith
call_all-notices p (a ∷ links) t =
    ground
      (arith, drop_info-gone a, call_all-notices p links ((call p (link_gone p (drop_info a)) t).1))

-- What stop() promises of a runtime whose descriptors are owned and that no thread uses.
pub record Stops (rt : Runtime) (t : Trace) (result : Runtime × Trace) : Type 0 where
  pub running : result.0.running ≡ false
  pub links : result.0.active_links ≡ []
  pub keys : result.0.active_link_keys ≡ []
  pub callbacks : result.0.callbacks ≡ rt.callbacks
  pub all_closed : (fd : ℕ) → opened fd result.1 ≡ 0
  pub notified : notices result.1 ≡ (
      if rt.callbacks.link_dropped == 0
      then notices t
      else notices_of rt.callbacks.link_dropped rt.active_links (notices t))

-- If every open descriptor is owned by a link of the runtime, stop() leaves no link, no key and no
-- descriptor open, and if there is a drop callback, calls it once for every link, in the
-- order of the links, with the link's id, its device's id and its type; without one it calls none.
pub stop-Stops : (rt : Runtime) (t : Trace) → Owned rt [] t → Stops rt t (stop rt t)
unfolding stop
stop-Stops rt t v = record {
  running = refl;
  links = refl;
  keys = refl;
  callbacks = refl;
  all_closed = λ fd. omega (
    arith,
    v.owned fd,
    close_all-opened fd rt.active_links t,
    call_all-opened fd rt.callbacks.link_dropped rt.active_links (close_all rt.active_links t).1,
  );
  notified = ground (
    arith,
    close_all-notices rt.active_links t,
    call_all-notices rt.callbacks.link_dropped rt.active_links (close_all rt.active_links t).1,
  );
}
