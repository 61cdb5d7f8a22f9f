-- ===== src/Instrument/Descriptors/GpsQuiet.antt =====
-- gps_get_position closes what it opens.
use sensor_lib.Prelude.{
  ℕ, zero, suc, ◌+◌, ◌-◌, refl, Bool, ◌&&◌, Option, none, some, List, [], ◌∷◌, ◌++◌, Text, bytes,
  pos, ltb, length,
}
use sensor_lib.Types.{error}
use sensor_lib.Os.{
  T, done, Outcome, succeeds, fails, econnrefused, recv_tried, sent, configured, connect_tried,
}
use sensor_lib.Comms.World.{FreshSockets}
use sensor_lib.Instrument.State.{Position, Kernel, failure}
use sensor_lib.Instrument.Gps.{
  Verdict, fix, waiting, endless, go_on, on_received, gps_rounds, gps_receive, gps_sent,
  gps_connected, gps_query, gps_get_position, received, consider, split_lines, total_length,
  gpsd_watch_cmd,
}
use sensor_lib.Instrument.Descriptors.Quiet.{Quiet, if-opened, with_socket-Quiet}

module _ (k : Kernel) (fresh : FreshSockets k.world) where
  go_on-Quiet :
      (v : Verdict) (next : Position × Bool → T Verdict)
      → ((st : Position × Bool) → Quiet (next st))
      → Quiet (go_on v next)
  unfolding go_on
  go_on-Quiet (fix p) next h t x = refl
  go_on-Quiet endless next h t x = refl
  go_on-Quiet (waiting st) next h t x = h st t x

  on_received-Quiet :
      (buffer : Text) (st : Position × Bool) (next : Text → List Text → Position × Bool → T Verdict)
      (o : Option (Text × List Text))
      → ((b : Text) (s : List Text) (st' : Position × Bool) → Quiet (next b s st'))
      → Quiet (on_received k buffer st next o)
  unfolding on_received
  on_received-Quiet buffer st next none h t x = refl
  on_received-Quiet buffer st next (some (got, stream)) h t x =
      let r = split_lines (buffer ++ got) in
      go_on-Quiet (consider k (k.time t) r.0 st) (next r.1 stream) (h r.1 stream) t x

  gps_rounds-Quiet :
      (fd n : ℕ) (buffer : Text) (stream : List Text) (st : Position × Bool)
      → Quiet (gps_rounds k fd n buffer stream st)
  unfolding gps_rounds
  gps_rounds-Quiet fd zero buffer stream st t x = refl
  gps_rounds-Quiet fd (suc n) buffer stream st t x =
      if-opened (ltb (length buffer + 1) 4096) _ (done (waiting st)) t x _
        (on_received-Quiet buffer st (gps_rounds k fd n)
          (received (4096 - length buffer - 1) stream) (gps_rounds-Quiet fd n)
          (recv_tried (pos fd) ∷ t) x)
        refl

  gps_receive-Quiet : (fd : ℕ) → Quiet (gps_receive k fd)
  unfolding gps_receive
  gps_receive-Quiet fd t x =
      gps_rounds-Quiet fd (suc (total_length (k.gps_stream t))) [] (k.gps_stream t) _ t x

  gps_sent-Quiet : (fd : ℕ) (o : Outcome) → Quiet (gps_sent k fd o)
  unfolding gps_sent
  gps_sent-Quiet fd (fails e) t x = refl
  gps_sent-Quiet fd (succeeds n) t x = gps_receive-Quiet fd t x

  gps_connected-Quiet : (fd : ℕ) (o : Outcome) → Quiet (gps_connected k fd o)
  unfolding gps_connected
  gps_connected-Quiet fd (fails econnrefused) t x = refl
  gps_connected-Quiet fd (fails _) t x = refl
  gps_connected-Quiet fd (succeeds n) t x =
      gps_sent-Quiet fd (k.world.os.send t (pos fd) gpsd_watch_cmd)
        (sent (pos fd) gpsd_watch_cmd ∷ t) x

  gps_query-Quiet : (fd : ℕ) → Quiet (gps_query k fd)
  unfolding gps_query
  gps_query-Quiet fd t x =
      let u = configured (pos fd) (pos 2500) ∷ configured (pos fd) (pos 2500) ∷ t in
      if-opened (k.world.is_ip (bytes "127.0.0.1")) _ (done (some (failure error))) u x _
        (gps_connected-Quiet fd (k.world.os.connect u (pos fd)) (connect_tried (pos fd) ∷ u) x) refl

  pub gps_get_position-Quiet : (out len : Bool) → Quiet (gps_get_position k out len)
  unfolding gps_get_position
  gps_get_position-Quiet out len t x =
      if-opened (out && len) _ (done (some (failure error))) t x _
        (with_socket-Quiet k fresh _ _ gps_query-Quiet t x) refl
