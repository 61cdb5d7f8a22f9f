-- ===== src/Instrument/Gps/Stream.antt =====
-- The receive loop of gps_get_position against the lines of the whole stream.
use sensor_lib.Prelude.{
  ℕ, zero, suc, ◌+◌, ◌-◌, ◌<◌, ◌≡◌, refl, ◌∙◌, ap, sym, subst, Bool, true, false, inl, inr, Option,
  none, some, List, [], ◌∷◌, ◌++◌, arith, Text, ℤ, pos, ltb, if◌then◌else◌, length, length-drop,
  take, drop, Bool-cases,
}
use mathlib.Core.List.{append_assoc, append-nil}
use sensor_lib.Os.{Trace, recv_tried}
use sensor_lib.Instrument.State.{Position, Kernel}
use sensor_lib.Instrument.Gps.{
  is_tpv, tpv_position, split_lines, Verdict, fix, waiting, endless, at_end, unless_fix,
  gps_parse_tpv, gps_parse_poll, consider, put_back, received, go_on, on_received, gps_rounds,
  total_length, gps_answer, gps_receive,
}
use sensor_lib.Instrument.Gps.Lines.{
  Fits, resumed, split_lines-append, split_lines-rest, open-Fits, Fits-resumed,
}

-- What recv can hand out of a stream: all up to the first empty piece, which is its end.
abbrev pub text_of : List Text → Text
text_of [] = []
text_of ([] ∷ stream) = []
text_of ((c ∷ s) ∷ stream) = (c ∷ s) ++ text_of stream

take-append-drop : (n : ℕ) (s : Text) → take n s ++ drop n s ≡ s
take-append-drop zero s = refl
take-append-drop (suc n) [] = refl
take-append-drop (suc n) (c ∷ s) = ap (◌∷◌ c) (take-append-drop n s)

text_of-put_back :
    (s : Text) (stream : List Text) → text_of (put_back s stream) ≡ s ++ text_of stream
unfolding put_back
text_of-put_back [] stream = refl
text_of-put_back (c ∷ s) stream = refl

total-put_back :
    (s : Text) (stream : List Text)
    → total_length (put_back s stream) ≡ length s + total_length stream
unfolding put_back
total-put_back [] stream = omega arith
total-put_back (c ∷ s) stream = refl

-- No byte is lost or made up by splitting a piece, and a byte at least is read.
received_text :
    (room : ℕ) (c : ℕ) (s : Text) (stream : List Text)
    → take room (c ∷ s) ++ text_of (put_back (drop room (c ∷ s)) stream)
      ≡ text_of ((c ∷ s) ∷ stream)
received_text room c s stream =
    ap (λ u. take room (c ∷ s) ++ u) (text_of-put_back (drop room (c ∷ s)) stream)
    ∙ (sym (append_assoc (take room (c ∷ s)) (drop room (c ∷ s)) (text_of stream))
        ∙ ap (λ u. u ++ text_of stream) (take-append-drop room (c ∷ s)))

pub received_less :
    (room : ℕ) (c : ℕ) (s : Text) (stream : List Text)
    → 0 < room
    → total_length (put_back (drop room (c ∷ s)) stream) < total_length ((c ∷ s) ∷ stream)
received_less room c s stream h =
    omega (arith, total-put_back (drop room (c ∷ s)) stream, length-drop {0} room (c ∷ s))

-- The verdict on some lines, and then on more
abbrev and_then : Verdict → (Position × Bool → Verdict) → Verdict
and_then (fix p) f = fix p
and_then (waiting st) f = f st
and_then endless f = endless

and_then-and_then :
    (v : Verdict) (f g : Position × Bool → Verdict)
    → and_then v (λ st. and_then (f st) g) ≡ and_then (and_then v f) g
and_then-and_then (fix p) f g = refl
and_then-and_then (waiting st) f g = refl
and_then-and_then endless f g = refl

unless_fix-and_then :
    (o : Option Position) (v : Verdict) (f : Position × Bool → Verdict)
    → unless_fix o (and_then v f) ≡ and_then (unless_fix o v) f
unfolding unless_fix
unless_fix-and_then none v f = refl
unless_fix-and_then (some p) v f = refl

consider-append :
    (k : Kernel) (now : ℤ) (xs ys : List Text) (st : Position × Bool)
    → consider k now (xs ++ ys) st ≡ and_then (consider k now xs st) (consider k now ys)
unfolding consider
consider-append k now [] ys st = refl
consider-append k now (l ∷ xs) ys st =
    ap (unless_fix (gps_parse_tpv k now l)) (consider-append k now xs ys (gps_parse_poll k l st))
    ∙ unless_fix-and_then (gps_parse_tpv k now l) (consider k now xs (gps_parse_poll k l st))
        (consider k now ys)

-- The position before the first report, and that no POLL report has come
abbrev pub start : ℤ → Position × Bool
start now = (record { lat = 0; lon = 0; alt = 0; timestamp = now; mode = pos 0 }, false)

nil_unfinished : split_lines [] ≡ ([], [])
unfolding split_lines
nil_unfinished = refl

go_on-and_then :
    (v : Verdict) (next : Position × Bool → Trace → Verdict × Trace)
    (spec : Position × Bool → Verdict) (t : Trace)
    → ((st : Position × Bool) → (next st t).0 ≡ spec st)
    → (go_on v next t).0 ≡ and_then v spec
unfolding go_on
go_on-and_then (fix p) next spec t h = refl
go_on-and_then (waiting st) next spec t h = h st
go_on-and_then endless next spec t h = refl

has_room : (n : ℕ) → n < 4095 → (ltb (n + 1) 4096 ≡ true) × (0 < 4096 - n - 1)
has_room n h = (ground arith, omega arith)

module _ (k : Kernel) (fd : ℕ) (now : ℤ) (same_time : (t : Trace) → k.time t ≡ now) where
  consider-open :
      (buffer : Text) (st : Position × Bool)
      → split_lines buffer ≡ ([], buffer)
      → at_end k st ≡ and_then (consider k now (split_lines (buffer ++ [])).0 st) (at_end k)
  unfolding consider
  consider-open buffer st e = rw (append-nil, e) refl

  -- One piece is read, and the loop goes on as `next`.
  on_received-consider :
      (buffer got : Text) (stream : List Text) (more : Text) (st : Position × Bool) (t : Trace)
      (next : Text → List Text → Position × Bool → Trace → Verdict × Trace)
      → ((st' : Position × Bool)
          → (next (split_lines (buffer ++ got)).1 stream st' t).0
            ≡ and_then
                (consider k now (split_lines ((split_lines (buffer ++ got)).1 ++ more)).0 st')
                (at_end k))
      → (on_received k buffer st next (some (got, stream)) t).0
        ≡ and_then (consider k now (split_lines ((buffer ++ got) ++ more)).0 st) (at_end k)
  unfolding on_received
  on_received-consider buffer got stream more st t next h =
      let r = split_lines (buffer ++ got) in
      rw (same_time t) (
        go_on-and_then (consider k now r.0 st) (next r.1 stream)
          (λ st'. and_then (consider k now (split_lines (r.1 ++ more)).0 st') (at_end k)) t h
        ∙ (and_then-and_then (consider k now r.0 st) (consider k now (split_lines (r.1 ++ more)).0)
              (at_end k)
            ∙ ap (λ v. and_then v (at_end k))
                (sym (consider-append k now r.0 (split_lines (r.1 ++ more)).0 st)
                  ∙ ap (λ (u : List Text × Text). consider k now u.0 st)
                      (sym (split_lines-append (buffer ++ got) more)))))

  rounds-consider :
      (n : ℕ) (buffer : Text) (stream : List Text) (st : Position × Bool) (t : Trace)
      → total_length stream < n
      → split_lines buffer ≡ ([], buffer)
      → Fits (split_lines (buffer ++ text_of stream))
      → (gps_rounds k fd n buffer stream st t).0
        ≡ and_then (consider k now (split_lines (buffer ++ text_of stream)).0 st) (at_end k)
  unfolding gps_rounds received
  rounds-consider zero buffer stream st t less unfinished fits = absurd (omega arith)
  rounds-consider (suc n) buffer [] st t less unfinished fits =
      rw ((has_room (length buffer) (open-Fits buffer [] (ap (λ r. r.0) unfinished) fits)).0)
        (unfold on_received in consider-open buffer st unfinished)
  rounds-consider (suc n) buffer ([] ∷ stream) st t less unfinished fits =
      rw ((has_room (length buffer) (open-Fits buffer [] (ap (λ r. r.0) unfinished) fits)).0)
        (unfold on_received in consider-open buffer st unfinished)
  rounds-consider (suc n) buffer ((c ∷ s) ∷ stream) st t less unfinished fits =
      let room = 4096 - length buffer - 1 in
      let got = take room (c ∷ s) in
      let left = put_back (drop room (c ∷ s)) stream in
      let h = has_room (length buffer) (open-Fits buffer _ (ap (λ r. r.0) unfinished) fits) in
      let fewer : total_length left < n = omega (arith, received_less room c s stream h.1, less) in
      let whole : (buffer ++ got) ++ text_of left ≡ buffer ++ text_of ((c ∷ s) ∷ stream) =
        append_assoc buffer got (text_of left)
        ∙ ap (λ u. buffer ++ u) (received_text room c s stream) in
      let split_fits : Fits (resumed (split_lines (buffer ++ got)) (text_of left)) =
        subst Fits (split_lines-append (buffer ++ got) (text_of left)) (rw whole fits) in
      rw (h.0) (
        on_received-consider buffer got left (text_of left) st (recv_tried (pos fd) ∷ t)
          (gps_rounds k fd n)
          (λ st'.
            rounds-consider n (split_lines (buffer ++ got)).1 left st' (recv_tried (pos fd) ∷ t)
              fewer (split_lines-rest (buffer ++ got))
              (Fits-resumed (split_lines (buffer ++ got)) (text_of left) split_fits))
        ∙ ap (λ u. and_then (consider k now (split_lines u).0 st) (at_end k)) whole)

-- What the lines say: the first TPV report counts, or else all POLL reports in order.
abbrev pub first_tpv : List Text → Option Text
first_tpv [] = none
first_tpv (l ∷ ls) = if is_tpv l then some l else first_tpv ls

abbrev pub polled : Kernel → List Text → Position × Bool → Position × Bool
polled k [] st = st
polled k (l ∷ ls) st = polled k ls (gps_parse_poll k l st)

abbrev pub said : Kernel → ℤ → List Text → Option Text → Verdict
said k now ls none = at_end k (polled k ls (start now))
said k now ls (some l) = fix (tpv_position k now l)

said_from : Kernel → ℤ → List Text → Position × Bool → Option Text → Verdict
said_from k now ls st none = waiting (polled k ls st)
said_from k now ls st (some l) = fix (tpv_position k now l)

consider-said_from :
    (k : Kernel) (now : ℤ) (ls : List Text) (st : Position × Bool)
    → consider k now ls st ≡ said_from k now ls st (first_tpv ls)
unfolding consider said_from unless_fix gps_parse_tpv
consider-said_from k now [] st = refl
consider-said_from k now (l ∷ ls) st = elim (Bool-cases (is_tpv l)) [
  | inl found ↦ rw found
  | inr other ↦
      rw other
        (consider-said_from k now ls (gps_parse_poll k l st) ∙ skip k now l ls st (first_tpv ls))
]
  where
    skip :
        (k : Kernel) (now : ℤ) (l : Text) (ls : List Text) (st : Position × Bool) (o : Option Text)
        → said_from k now ls (gps_parse_poll k l st) o ≡ said_from k now (l ∷ ls) st o
    skip k now l ls st none = refl
    skip k now l ls st (some m) = refl

ended :
    (k : Kernel) (now : ℤ) (ls : List Text) (o : Option Text)
    → and_then (said_from k now ls (start now) o) (at_end k) ≡ said k now ls o
unfolding said_from
ended k now ls none = refl
ended k now ls (some l) = refl

-- While the clock shows the same second, the receive loop answers by the complete lines of all that
-- gpsd sends, in whatever pieces they arrive, if each of them and the unfinished rest is shorter
-- than 4095 bytes: by the position of the first TPV report, if there is one, and else, if the stream
-- ends, by what all POLL reports leave of the first position, as an error if there are none. Without
-- a TPV report in an endless stream it does not return.
pub gps_receive-said :
    (k : Kernel) (fd : ℕ) (now : ℤ) (t : Trace)
    → ((u : Trace) → k.time u ≡ now)
    → Fits (split_lines (text_of (k.gps_stream t)))
    → let lines = (split_lines (text_of (k.gps_stream t))).0 in
      (gps_receive k fd t).0 ≡ gps_answer (said k now lines (first_tpv lines))
unfolding gps_receive
gps_receive-said k fd now t same_time fits = rw (same_time t) (
    ap gps_answer (
      rounds-consider k fd now same_time (suc (total_length (k.gps_stream t))) [] (k.gps_stream t)
        (start now) t (omega arith) nil_unfinished fits
      ∙ ap (λ v. and_then v (at_end k))
          (consider-said_from k now (split_lines (text_of (k.gps_stream t))).0 (start now))
      ∙ ended k now (split_lines (text_of (k.gps_stream t))).0
          (first_tpv (split_lines (text_of (k.gps_stream t))).0)))
