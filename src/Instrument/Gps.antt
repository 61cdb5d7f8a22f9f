-- ===== src/Instrument/Gps.antt =====
-- The GPS daemon in instrument_api.c: its reports, and gps_get_position.
pub mod Lines
pub mod Stream
pub mod Ending
use sensor_lib.Prelude.{
  ℕ, zero, suc, ◌+◌, ◌-◌, Bool, true, false, ◌&&◌, Option, none, some, List, [], ◌∷◌, ◌++◌, Text,
  bytes, ℤ, pos, is_pos, ◌==◌, ltb, if◌then◌else◌, length, take, drop,
}
use sensor_lib.Types.{success, error, not_supported}
use sensor_lib.Os.{
  Outcome, succeeds, fails, econnrefused, T, done, ◌>>=◌, ◌>>◌, emit, configured, recv_tried,
  try_connect, try_send,
}
use sensor_lib.CText.{find}
use sensor_lib.Instrument.State.{Position, Kernel, Answer, failure, position, with_socket}
use sensor_lib.Instrument.Json.{json_parse_int, json_parse_number, json_parse_string}

abbrev pub has {ℓ} : {A : Type ℓ} → Option A → Bool
has none = false
has (some a) = true

abbrev pub or_else {ℓ} : {A : Type ℓ} → Option A → A → A
or_else none d = d
or_else (some a) d = a

-- The altitude: "altHAE", or else "alt", or else 0
unfoldable pub altitude : Kernel → Text → ℕ
unfolding json_parse_number
altitude k line =
    or_else (json_parse_number k.strtold line (bytes "altHAE"))
      (or_else (json_parse_number k.strtold line (bytes "alt")) 0)

-- parse_gps_time on the string that json_parse_string reads, if it reads one
unfoldable pub time_of : Kernel → Option Text → ℤ → ℤ
time_of k none now = now
time_of k (some s) now = or_else (k.read_time s) now

-- The fields of a TPV report
unfoldable pub tpv_position : Kernel → ℤ → Text → Position
unfolding json_parse_int json_parse_number json_parse_string altitude time_of
tpv_position k now line = record {
  lat = or_else (json_parse_number k.strtold line (bytes "lat")) 0;
  lon = or_else (json_parse_number k.strtold line (bytes "lon")) 0;
  alt = altitude k line;
  timestamp = time_of k (json_parse_string 64 line (bytes "time")) now;
  mode = or_else (json_parse_int line (bytes "mode")) (pos 0);
}

unfoldable pub is_tpv : Text → Bool
unfolding find
is_tpv line = has (find (bytes "\"class\":\"TPV\"") line)

unfoldable pub is_poll : Text → Bool
unfolding find
is_poll line = has (find (bytes "\"class\":\"POLL\"") line)

-- gps_parse_tpv at the time `now`: the position, which it sets whole, or none for false
unfoldable pub gps_parse_tpv : Kernel → ℤ → Text → Option Position
unfolding is_tpv tpv_position
gps_parse_tpv k now line = if is_tpv line then some (tpv_position k now line) else none

unfoldable pub poll_position : Kernel → Text → Position → Position
unfolding json_parse_int json_parse_string time_of
poll_position k line p = record p {
  timestamp = time_of k (json_parse_string 64 line (bytes "time")) p.timestamp;
  mode = if is_pos (or_else (json_parse_int line (bytes "active")) (pos 0)) then pos 1 else pos 0;
}

-- gps_parse_poll: the position and `saw_poll` after it
unfoldable pub gps_parse_poll : Kernel → Text → Position × Bool → Position × Bool
unfolding is_poll poll_position
gps_parse_poll k line (p, saw) = if is_poll line then (poll_position k line p, true) else (p, saw)

-- The lines of the buffer that end with a newline, and the rest. strchr stops at a zero byte.
unfoldable pub with_first : ℕ → List Text × Text → List Text × Text
with_first c ([], rest) = ([], c ∷ rest)
with_first c (l ∷ ls, rest) = ((c ∷ l) ∷ ls, rest)

unfoldable pub split_lines : Text → List Text × Text
unfolding with_first
split_lines [] = ([], [])
split_lines (c ∷ s) =
    let r = split_lines s in
    if c == b'\n' then ([] ∷ r.0, r.1) else if c == 0 then ([], c ∷ s) else with_first c r

-- A fix ends the query; else it waits for more, with the position and `saw_poll` so far. An endless
-- query reads for ever.
pub data Verdict : Type 0 where
  fix : Position → Verdict
  waiting : Position × Bool → Verdict
  endless : Verdict

unfoldable pub unless_fix : Option Position → Verdict → Verdict
unless_fix (some p) later = fix p
unless_fix none later = later

-- The loop over the lines of the buffer
unfoldable pub consider : Kernel → ℤ → List Text → Position × Bool → Verdict
unfolding unless_fix gps_parse_tpv gps_parse_poll
consider k now [] st = waiting st
consider k now (l ∷ ls) st =
    let later = consider k now ls (gps_parse_poll k l st) in
    unless_fix (gps_parse_tpv k now l) later

-- recv of `room` bytes at most: an empty piece is the end of the stream, and what does not fit stays
unfoldable pub put_back : Text → List Text → List Text
put_back [] stream = stream
put_back (c ∷ s) stream = (c ∷ s) ∷ stream

unfoldable pub received : ℕ → List Text → Option (Text × List Text)
unfolding put_back
received room [] = none
received room ([] ∷ stream) = none
received room ((c ∷ s) ∷ stream) = some (take room (c ∷ s), put_back (drop room (c ∷ s)) stream)

abbrev pub buffer_size : ℕ
buffer_size = 4096

-- The next round, unless there is a fix
unfoldable pub go_on : Verdict → (Position × Bool → T Verdict) → T Verdict
go_on (fix p) next = done (fix p)
go_on (waiting st) next = next st
go_on endless next = done endless

-- Where the pieces end
unfoldable pub at_end : Kernel → Position × Bool → Verdict
at_end k st = if k.gps_endless then endless else waiting st

unfoldable pub on_received :
    Kernel
    → Text
    → Position × Bool
    → (Text → List Text → Position × Bool → T Verdict)
    → Option (Text × List Text)
    → T Verdict
unfolding go_on consider split_lines at_end
on_received k buffer st next none t = (at_end k st, t)
on_received k buffer st next (some (got, stream)) t =
    let (lines, rest) = split_lines (buffer ++ got) in
    go_on (consider k (k.time t) lines st) (next rest stream) t

-- The receive loop with the rounds that are left, the unfinished line in the buffer, and the stream
unfoldable pub gps_rounds : Kernel → ℕ → ℕ → Text → List Text → Position × Bool → T Verdict
unfolding on_received received
gps_rounds k fd zero buffer stream st = done (waiting st)
gps_rounds k fd (suc n) buffer stream st =
    if ltb (length buffer + 1) buffer_size
    then (do
      emit (recv_tried (pos fd))
      on_received k buffer st (gps_rounds k fd n)
          (received (buffer_size - length buffer - 1) stream))
    else done (waiting st)

abbrev pub total_length : List Text → ℕ
total_length [] = 0
total_length (s ∷ stream) = length s + total_length stream

-- `none` is a query that does not return.
unfoldable pub gps_answer : Verdict → Option Answer
gps_answer endless = none
gps_answer (fix p) = some (record { status = success; output = position p; output_len = some 1 })
gps_answer (waiting (p, true)) =
    some (record { status = success; output = position p; output_len = some 1 })
gps_answer (waiting (p, false)) =
    some (record { status = error; output = position p; output_len = some 1 })

-- From the memset on. A round reads a byte at least, so there are enough rounds.
unfoldable pub gps_receive : Kernel → ℕ → T (Option Answer)
unfolding gps_rounds gps_answer
gps_receive k fd t =
    (do
      v ←
          gps_rounds k fd (suc (total_length (k.gps_stream t))) [] (k.gps_stream t)
            (record { lat = 0; lon = 0; alt = 0; timestamp = k.time t; mode = pos 0 }, false)
      done (gps_answer v))
      t

abbrev pub gpsd_watch_cmd : Text
gpsd_watch_cmd = bytes "?WATCH={\"enable\":true,\"json\":true};\n?POLL;\n"

unfoldable pub gps_sent : Kernel → ℕ → Outcome → T (Option Answer)
unfolding gps_receive
gps_sent k fd (fails e) = done (some (failure error))
gps_sent k fd (succeeds n) = gps_receive k fd

unfoldable pub gps_connected : Kernel → ℕ → Outcome → T (Option Answer)
unfolding gps_sent
gps_connected k fd (fails econnrefused) = done (some (failure not_supported))
gps_connected k fd (fails e) = done (some (failure error))
gps_connected k fd (succeeds n) = do
  o ← try_send k.world.os (pos fd) gpsd_watch_cmd
  gps_sent k fd o

-- The body of gps_get_position; the timeouts are 2500 ms
unfoldable pub gps_query : Kernel → ℕ → T (Option Answer)
unfolding gps_connected
gps_query k fd = do
  emit (configured (pos fd) (pos 2500))
  emit (configured (pos fd) (pos 2500))
  if k.world.is_ip (bytes "127.0.0.1")
      then (do o ← try_connect k.world.os (pos fd); gps_connected k fd o)
      else done (some (failure error))

-- gps_get_position; the flags say whether the output pointers are not null
unfoldable pub gps_get_position : Kernel → Bool → Bool → T (Option Answer)
unfolding gps_query with_socket
gps_get_position k out len =
    if out && len
    then with_socket k (some (failure error)) (gps_query k)
    else done (some (failure error))
