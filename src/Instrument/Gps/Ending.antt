-- ===== src/Instrument/Gps/Ending.antt =====
-- gps_get_position returns where the stream of gpsd ends.
use sensor_lib.Instrument.Gps.{
  Verdict, fix, waiting, endless, at_end, unless_fix, consider, gps_parse_tpv, gps_parse_poll,
  go_on, on_received, split_lines, received, gps_rounds, gps_receive, gps_sent, gps_connected,
  gps_query, gps_get_position, gps_answer, buffer_size, total_length, gpsd_watch_cmd,
}
use sensor_lib.Prelude.{
  inl, inr, Bool-cases, List, [], ◌∷◌, ◌++◌, ◌+◌, ◌-◌, zero, suc, ℤ, pos, negsuc, ltb, length,
  bytes, ℕ, ◌≡◌, refl, Bool, true, false, Option, none, some, Text,
}
use sensor_lib.Types.{error}
use sensor_lib.Os.{
  Trace, T, Outcome, succeeds, fails, econnrefused, recv_tried, sent, configured, connect_tried,
  socket_made,
}
use sensor_lib.Instrument.State.{Kernel, Position, failure, with_descriptor, with_socket}

abbrev pub Returned : {A : Type 0} → Option A → Type 0
Returned {A} o = (a : A) × (o ≡ some a)

IsEnded : Verdict → Type 0
IsEnded (fix p) = Unit
IsEnded (waiting st) = Unit
IsEnded endless = ⊥

unless_fix-IsEnded : (o : Option Position) (v : Verdict) → IsEnded v → IsEnded (unless_fix o v)
unfolding unless_fix IsEnded
unless_fix-IsEnded none v h = h
unless_fix-IsEnded (some p) v h = tt

consider-IsEnded :
    (k : Kernel) (now : ℤ) (ls : List Text) (st : Position × Bool) → IsEnded (consider k now ls st)
unfolding consider IsEnded
consider-IsEnded k now [] st = tt
consider-IsEnded k now (l ∷ ls) st =
    unless_fix-IsEnded (gps_parse_tpv k now l) (consider k now ls (gps_parse_poll k l st))
      (consider-IsEnded k now ls (gps_parse_poll k l st))

go_on-IsEnded :
    (v : Verdict) (next : Position × Bool → T Verdict) (t : Trace)
    → IsEnded v
    → ((st : Position × Bool) → IsEnded (next st t).0)
    → IsEnded (go_on v next t).0
unfolding go_on IsEnded
go_on-IsEnded (fix p) next t e h = tt
go_on-IsEnded (waiting st) next t e h = h st
go_on-IsEnded endless next t e h = e

gps_answer-Returned : (v : Verdict) → IsEnded v → Returned (gps_answer v)
unfolding gps_answer IsEnded
gps_answer-Returned (fix p) e = (_, refl)
gps_answer-Returned (waiting (p, true)) e = (_, refl)
gps_answer-Returned (waiting (p, false)) e = (_, refl)
gps_answer-Returned endless e = absurd e

module _ (k : Kernel) (ends : k.gps_endless ≡ false) where
  at_end-IsEnded : (st : Position × Bool) → IsEnded (at_end k st)
  unfolding at_end IsEnded
  at_end-IsEnded st = rw ends tt

  on_received-IsEnded :
      (buffer : Text) (st : Position × Bool) (next : Text → List Text → Position × Bool → T Verdict)
      (o : Option (Text × List Text)) (t : Trace)
      → ((b : Text) (s : List Text) (st' : Position × Bool) → IsEnded (next b s st' t).0)
      → IsEnded (on_received k buffer st next o t).0
  unfolding on_received
  on_received-IsEnded buffer st next none t h = at_end-IsEnded st
  on_received-IsEnded buffer st next (some (got, stream)) t h =
      let r = split_lines (buffer ++ got) in
      go_on-IsEnded (consider k (k.time t) r.0 st) (next r.1 stream) t
        (consider-IsEnded k (k.time t) r.0 st) (h r.1 stream)

  gps_rounds-IsEnded :
      (fd n : ℕ) (buffer : Text) (stream : List Text) (st : Position × Bool) (t : Trace)
      → IsEnded (gps_rounds k fd n buffer stream st t).0
  unfolding gps_rounds IsEnded
  gps_rounds-IsEnded fd zero buffer stream st t = tt
  gps_rounds-IsEnded fd (suc n) buffer stream st t =
      elim (Bool-cases (ltb (length buffer + 1) buffer_size)) [
        | inl room ↦ rw room (
            on_received-IsEnded buffer st (gps_rounds k fd n)
              (received (buffer_size - length buffer - 1) stream) (recv_tried (pos fd) ∷ t)
              (λ b s st'. gps_rounds-IsEnded fd n b s st' (recv_tried (pos fd) ∷ t)))
        | inr full ↦ rw full tt
      ]

  gps_sent-Returned : (fd : ℕ) (o : Outcome) (t : Trace) → Returned (gps_sent k fd o t).0
  unfolding gps_sent gps_receive
  gps_sent-Returned fd (fails e) t = (_, refl)
  gps_sent-Returned fd (succeeds n) t =
      gps_answer-Returned _
        (gps_rounds-IsEnded fd (suc (total_length (k.gps_stream t))) [] (k.gps_stream t) _ t)

  gps_connected-Returned : (fd : ℕ) (o : Outcome) (t : Trace) → Returned (gps_connected k fd o t).0
  unfolding gps_connected
  gps_connected-Returned fd (fails econnrefused) t = (_, refl)
  gps_connected-Returned fd (fails _) t = (_, refl)
  gps_connected-Returned fd (succeeds n) t =
      gps_sent-Returned fd (k.world.os.send t (pos fd) gpsd_watch_cmd)
        (sent (pos fd) gpsd_watch_cmd ∷ t)

  gps_query-Returned : (fd : ℕ) (t : Trace) → Returned (gps_query k fd t).0
  unfolding gps_query
  gps_query-Returned fd t =
      let u = configured (pos fd) (pos 2500) ∷ configured (pos fd) (pos 2500) ∷ t in
      elim (Bool-cases (k.world.is_ip (bytes "127.0.0.1"))) [
        | inl ip ↦
            rw ip (
              gps_connected-Returned fd (k.world.os.connect u (pos fd))
                (connect_tried (pos fd) ∷ u))
        | inr other ↦ rw other (_, refl)
      ]

  with_descriptor-Returned :
      (z : ℤ) (t : Trace) → Returned (with_descriptor (some (failure error)) (gps_query k) z t).0
  unfolding with_descriptor
  with_descriptor-Returned (negsuc n) t = (_, refl)
  with_descriptor-Returned (pos fd) t = gps_query-Returned fd t

  pub gps_get_position-Returned :
      (out len : Bool) (t : Trace) → Returned (gps_get_position k out len t).0
  unfolding gps_get_position with_socket
  gps_get_position-Returned true true t =
      with_descriptor-Returned (k.world.os.socket t) (socket_made (k.world.os.socket t) ∷ t)
  gps_get_position-Returned true false t = (_, refl)
  gps_get_position-Returned false true t = (_, refl)
  gps_get_position-Returned false false t = (_, refl)
