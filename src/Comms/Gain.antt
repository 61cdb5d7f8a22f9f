-- ===== src/Comms/Gain.antt =====
-- What a handshake of the comms runtime leaves open.
use sensor_lib.Prelude.{
  ℕ, ◌+◌, ◌≡◌, refl, sym, ◌∙◌, ap, Bool, true, false, Option, none, some, ◌∷◌, Text, ℤ, pos, negsuc,
  if◌then◌else◌, arith,
}
use sensor_lib.Types.{BluetoothDevice}
use sensor_lib.Os.{
  Os, Outcome, succeeds, fails, Trace, done, socket_made, configured, connect_tried, sent,
  recv_tried,
}
use sensor_lib.Comms.Strings.{hello_payload}
use sensor_lib.Comms.Candidates.{Candidate}
use sensor_lib.Comms.World.{World, opened, FreshSockets}
use sensor_lib.Comms.Runtime.{ActiveLink}
use sensor_lib.Comms.Handshake.{
  refuse, is_reply, received, recv_buffer, await_reply, after_send, after_connect, greet,
  with_socket, wifi_key, bluetooth_key, attempt_wifi_handshake, attempt_bluetooth_handshake,
}
use sensor_lib.Comms.Ownership.{is_fd, holds}

-- From trace `t`, a handshake for `key` either makes a link with that key, whose descriptor it has
-- opened, or leaves no descriptor open that was not.
abbrev pub Gained : Text → Trace → Option ActiveLink × Trace → Type 0
Gained key t (none, t') = (fd : ℕ) → opened fd t' ≡ opened fd t
Gained key t (some a, t') = (a.key ≡ key) × ((fd : ℕ) → opened fd t' ≡ opened fd t + holds fd a)

-- The handshake's descriptor `f` is open on top of what `t` has open.
abbrev Holding : ℕ → Trace → Trace → Type 0
Holding f t u = (fd : ℕ) → opened fd u ≡ opened fd t + is_fd fd (pos f)

module _ (os : Os) (f : ℕ) (key : Text) (t : Trace) (new : opened f t ≡ 0) where
  refuse-Gained : (u : Trace) → Holding f t u → Gained key t (refuse os (pos f) u)
  unfolding refuse
  refuse-Gained u h fd = ground (arith, h fd, new)

  module _ (a : ActiveLink) (is_key : a.key ≡ key) (has_fd : a.link.socket_fd ≡ pos f) where
    keep-Gained : (u : Trace) → Holding f t u → Gained key t (some a, u)
    keep-Gained u h = (is_key, λ fd. h fd ∙ ap (λ z. opened fd t + is_fd fd z) (sym has_fd))

    await_reply-Gained : (u : Trace) → Holding f t u → Gained key t (await_reply os (pos f) a u)
    unfolding await_reply recv_buffer
    await_reply-Gained u h =
        elim (is_reply (received (os.recv u (pos f)) (os.recv_bytes u (pos f))))
          as (λ b.
            Gained key t
              ((if b then done (some a) else refuse os (pos f)) (recv_tried (pos f) ∷ u))) [
                | true ↦ keep-Gained (recv_tried (pos f) ∷ u) h
                | false ↦ refuse-Gained (recv_tried (pos f) ∷ u) h
              ]

    after_send-Gained :
        (o : Outcome) (u : Trace) → Holding f t u → Gained key t (after_send os (pos f) a o u)
    unfolding after_send
    after_send-Gained (succeeds n) u h = await_reply-Gained u h
    after_send-Gained (fails e) u h = refuse-Gained u h

    after_connect-Gained :
        (o : Outcome) (u : Trace) → Holding f t u → Gained key t (after_connect os (pos f) a o u)
    unfolding after_connect
    after_connect-Gained (succeeds n) u h =
        after_send-Gained (os.send u (pos f) hello_payload) (sent (pos f) hello_payload ∷ u) h
    after_connect-Gained (fails e) u h = refuse-Gained u h

    greet-Gained :
        (addressed : Bool) (u : Trace)
        → Holding f t u
        → Gained key t (greet os (pos f) addressed a u)
    unfolding greet
    greet-Gained false u h = refuse-Gained u h
    greet-Gained true u h =
        after_connect-Gained (os.connect u (pos f)) (connect_tried (pos f) ∷ u) h

with_socket-Gained :
    (os : Os) (z : ℤ) (addressed : Bool) (a : ActiveLink) (key : Text) (t : Trace)
    → ((fd : ℕ) → z ≡ pos fd → opened fd t ≡ 0)
    → a.key ≡ key
    → a.link.socket_fd ≡ z
    → Gained key t (with_socket os z addressed a (socket_made z ∷ t))
unfolding with_socket
with_socket-Gained os (negsuc n) addressed a key t fresh is_key has_fd = λ fd. refl
with_socket-Gained os (pos f) addressed a key t fresh is_key has_fd =
    greet-Gained os f key t (fresh f refl) a is_key has_fd addressed
      (configured (pos f) (pos 3000) ∷ socket_made (pos f) ∷ t) (λ fd. ground (arith, fresh f refl))

-- If socket() returns no descriptor that is open, both handshakes, however their calls turn out,
-- either return a link with the key of the device and a descriptor that they have opened, or close
-- what they opened; no other descriptor is opened or closed.
pub handshakes_gain :
    (w : World)
    → FreshSockets w
    → (t : Trace)
    → ((c : Candidate) → Gained (wifi_key c.device.mac_address) t (attempt_wifi_handshake w c t))
      × ((d : BluetoothDevice)
          → Gained (bluetooth_key d.mac_address) t (attempt_bluetooth_handshake w d t))
unfolding attempt_wifi_handshake attempt_bluetooth_handshake
handshakes_gain w fresh t = (
  λ c. with_socket-Gained w.os (w.os.socket t) (w.is_ip c.ip_address) _ _ t (fresh t) refl refl,
  λ d. with_socket-Gained w.os (w.os.socket t) (w.is_mac d.mac_address) _ _ t (fresh t) refl refl,
)
