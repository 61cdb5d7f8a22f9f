-- ===== src/Comms/Finding.antt =====
-- What discover_links reports.
use sensor_lib.Prelude.{
  ℕ, zero, suc, ◌+◌, ◌≡◌, refl, ap, Bool, true, false, none, some, List, [], ◌∷◌, ◌++◌,
  if◌then◌else◌, take, length, length-append, arith,
}
use sensor_lib.Types.{
  Link, Instrument, bluetooth, cellular, gps, wifi, comms, simulation, success, error,
  not_supported,
}
use sensor_lib.Os.{Trace}
use sensor_lib.Comms.World.{World}
use sensor_lib.Comms.Runtime.{ActiveLink, Runtime}
use sensor_lib.Comms.Scan.{
  skip, pick, choose, collect, Discovery, discover_links, scan_once, max_links,
}

-- Whether an instrument asks for a link of another instrument.
abbrev pub wants : Instrument → Instrument → Bool
wants comms i = true
wants bluetooth bluetooth = true
wants wifi wifi = true
wants _ i = false

abbrev pub wanted : Instrument → List ActiveLink → List Link
wanted i [] = []
wanted i (a ∷ links) = if wants i a.link.instrument then a.link ∷ wanted i links else wanted i links

abbrev pub is_supported : Instrument → Bool
is_supported comms = true
is_supported bluetooth = true
is_supported wifi = true
is_supported _ = false

-- The report on the links of the runtime.
abbrev pub report : Instrument → List ActiveLink → Discovery
report i [] = record { status = success; links = []; output_len = some 0 }
report i (a ∷ links) =
    if is_supported i
    then record {
      status = success;
      links = take max_links (wanted i (a ∷ links));
      output_len = some (length (take max_links (wanted i (a ∷ links))));
    }
    else record { status = not_supported; links = []; output_len = none }

abbrev listed : List Link → Discovery
listed out = record { status = success; links = out; output_len = some (length out) }

choose-wants :
    (i j : Instrument) → is_supported i ≡ true → choose i j ≡ (if wants i j then pick else skip)
unfolding choose
choose-wants comms j s = refl
choose-wants bluetooth bluetooth s = refl
choose-wants bluetooth cellular s = refl
choose-wants bluetooth gps s = refl
choose-wants bluetooth wifi s = refl
choose-wants bluetooth comms s = refl
choose-wants bluetooth simulation s = refl
choose-wants wifi bluetooth s = refl
choose-wants wifi cellular s = refl
choose-wants wifi gps s = refl
choose-wants wifi wifi s = refl
choose-wants wifi comms s = refl
choose-wants wifi simulation s = refl
choose-wants cellular j s = cc
choose-wants gps j s = cc
choose-wants simulation j s = cc

append-nil : (xs : List Link) → xs ++ [] ≡ xs
append-nil [] = refl
append-nil (x ∷ xs) = ap (λ ys. x ∷ ys) (append-nil xs)

append-snoc : (xs : List Link) (x : Link) (ys : List Link) → (xs ++ x ∷ []) ++ ys ≡ xs ++ x ∷ ys
append-snoc [] x ys = refl
append-snoc (y ∷ xs) x ys = ap (λ zs. y ∷ zs) (append-snoc xs x ys)

take-nil : (n : ℕ) → take {A = Link} n [] ≡ []
take-nil zero = refl
take-nil (suc n) = refl

-- With `out` in the array and room for `n` more links.
collect-listed :
    (i : Instrument) (links : List ActiveLink) (out : List Link) (n : ℕ)
    → is_supported i ≡ true
    → length out + n ≡ max_links
    → collect i links out ≡ listed (out ++ take n (wanted i links))
unfolding collect
collect-listed i [] out n s room = ground (arith, take-nil n, append-nil out)
collect-listed i (a ∷ links) out zero s room = ground (
  arith,
  choose-wants i a.link.instrument s,
  room,
  append-nil out,
  collect-listed i links out zero s room,
)
collect-listed i (a ∷ links) out (suc n) s room = ground (
  arith,
  choose-wants i a.link.instrument s,
  room,
  append-snoc out a.link (take n (wanted i links)),
  collect-listed i links out (suc n) s room,
  collect-listed i links (out ++ a.link ∷ []) n s,
  length-append out (a.link ∷ []),
)

collect-report : (i : Instrument) (links : List ActiveLink) → collect i links [] ≡ report i links
unfolding collect choose
collect-report i [] = refl
collect-report comms (a ∷ links) = collect-listed comms (a ∷ links) [] max_links refl refl
collect-report bluetooth (a ∷ links) = collect-listed bluetooth (a ∷ links) [] max_links refl refl
collect-report wifi (a ∷ links) = collect-listed wifi (a ∷ links) [] max_links refl refl
collect-report cellular (a ∷ links) = refl
collect-report gps (a ∷ links) = refl
collect-report simulation (a ∷ links) = refl

-- discover_links with output pointers scans once and reports the first 20 of the links that are of
-- the wanted instrument, with their number, if the instrument is Comms, Bluetooth or Wi-Fi. For
-- other instruments it reports NOT_SUPPORTED without a number if there is a link, and success with
-- no links if there is none. With a null pointer it is an error and does not scan.
pub discover_links_lem :
    (w : World) (i : Instrument) (rt : Runtime) (t : Trace)
    → let after = scan_once w rt t in
      (discover_links w i true true rt t ≡ ((report i after.0.active_links, after.0), after.1))
      × ((len : Bool)
          → discover_links w i false len rt t
            ≡ ((record { status = error; links = []; output_len = none }, rt), t))
      × (discover_links w i true false rt t
          ≡ ((record { status = error; links = []; output_len = none }, rt), t))
unfolding discover_links
discover_links_lem w i rt t =
    let after = scan_once w rt t in
    (ap (λ r. ((r, after.0), after.1)) (collect-report i after.0.active_links), λ len. refl, refl)
