-- ===== src/Comms/Replies.antt =====
-- The client side of a handshake accepts what the server side answers, and names its links shortly.
use sensor_lib.Prelude.{
  ℕ, zero, suc, ◌+◌, ◌≤◌, ◌≡◌, refl, ap, true, false, [], ◌∷◌, ◌++◌, Text, ◌==◌, ==_refl, min,
  if◌then◌else◌, take, length, length-take, length-append, arith,
}
use sensor_lib.Types.{c_str, copy_string}
use sensor_lib.Os.{Trace, succeeds}
use sensor_lib.Comms.Strings.{
  starts_with, reply_prefix, starts_with_reply_prefix, compact, make_link_id,
}
use sensor_lib.Comms.World.{World}
use sensor_lib.Comms.Handshake.{received, is_reply}
use sensor_lib.Comms.Servers.{udp_reply, interface_of}
use sensor_lib.Comms.Candidates.{local_interface_mac}

-- A prefix without zero bytes is still there in the C string of what was received.
abbrev NoZero : Text → Type 0
NoZero [] = Unit
NoZero (c ∷ p) = ((c == 0) ≡ false) × NoZero p

starts_with-c_str :
    (p s : Text) (n : ℕ) → NoZero p → length p ≤ n → starts_with p (c_str (take n (p ++ s))) ≡ true
unfolding starts_with c_str
starts_with-c_str [] s n h le = refl
starts_with-c_str (c ∷ p) s zero h le = ground arith
starts_with-c_str (c ∷ p) s (suc n) h le =
    ground (arith, h.0, ==_refl c, starts_with-c_str p s n h.1)

prefix-NoZero : NoZero reply_prefix
prefix-NoZero = (
  refl,
  (
    refl,
    (
      refl,
      (
        refl,
        (
          refl,
          (
            refl,
            (refl, (refl, (refl, (refl, (refl, (refl, (refl, (refl, (refl, (refl, tt)))))))))),
          ),
        ),
      ),
    ),
  ),
)

-- A client that receives at least the 16 bytes of the prefix of the UDP server's reply, in any
-- state of the server's files and for any interface, takes it for a reply.
pub reply-IsReply :
    (w : World) (t : Trace) (n : ℕ)
    → 16 ≤ n
    → is_reply (received (succeeds n) (udp_reply w t)) ≡ true
unfolding is_reply received udp_reply starts_with_reply_prefix
reply-IsReply w t zero le = ground arith
reply-IsReply w t (suc n) le =
    starts_with-c_str reply_prefix
      (local_interface_mac (w.files t) (interface_of w (w.packet_interface t))) (suc n)
      prefix-NoZero le

-- `c` is not in the string.
abbrev pub Without : ℕ → Text → Type 0
Without c [] = Unit
Without c (d ∷ s) = ((d == c) ≡ false) × Without c s

compact-Without : (s : Text) → Without b':' (compact s)
unfolding compact
compact-Without [] = tt
compact-Without (c ∷ s) =
    elim (c == b':')
        as (λ b. (c == b':') ≡ b → Without b':' (if b then compact s else c ∷ compact s)) [
          | true ↦ λ e. compact-Without s
          | false ↦ λ e. (e, compact-Without s)
        ]
      refl

take-all : (n : ℕ) (s : Text) → length s ≤ n → take n s ≡ s
take-all zero [] h = refl
take-all zero (c ∷ s) h = ground arith
take-all (suc n) [] h = refl
take-all (suc n) (c ∷ s) h = ap (λ r. c ∷ r) (take-all n s (omega arith))

c_str_le : (s : Text) → length (c_str s) ≤ length s
unfolding c_str
c_str_le [] = omega arith
c_str_le (c ∷ s) = ground (arith, c_str_le s)

starts_with-take : (n : ℕ) (s : Text) → starts_with (take n s) s ≡ true
unfolding starts_with
starts_with-take zero s = refl
starts_with-take (suc n) [] = refl
starts_with-take (suc n) (c ∷ s) = ground (arith, ==_refl c, starts_with-take n s)

-- The id that make_link_id makes is the start of the prefix followed by the MAC address without its
-- colons, 19 characters of it or all if there are fewer, and that part of it has no colon; so
-- copy_string puts all of it, up to a zero byte, in the 20 bytes of `linkID`.
make_link_id_fits :
    (prefix mac : Text)
    → (starts_with (make_link_id prefix mac) (prefix ++ compact mac) ≡ true)
      × (length (make_link_id prefix mac) ≡ min 19 (length prefix + length (compact mac)))
      × Without b':' (compact mac)
      × (copy_string 20 (make_link_id prefix mac) ≡ c_str (make_link_id prefix mac))
unfolding make_link_id copy_string
make_link_id_fits prefix mac = (
  starts_with-take 19 (prefix ++ compact mac),
  omega (arith, length-take 19 (prefix ++ compact mac), length-append prefix (compact mac)),
  compact-Without mac,
  take-all 19 (c_str (take 19 (prefix ++ compact mac))) (
      omega (
        arith,
        length-take 19 (prefix ++ compact mac),
        c_str_le (take 19 (prefix ++ compact mac)),
      )),
)
