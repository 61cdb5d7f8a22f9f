-- ===== src/Comms/Serving.antt =====
-- The server loops close what they open, and answer in the form that the clients ask for.
use sensor_lib.Prelude.{ℕ, zero, suc, ◌≡◌, refl, ◌∙◌, ◌∷◌, ℤ, pos, negsuc, arith}
use sensor_lib.Os.{
  T, Outcome, succeeds, fails, Trace, socket_made, bound, listening, accepted, accept_tried, closed,
  configured, sent, recv_tried,
}
use sensor_lib.Comms.World.{World, opened, FreshSockets}
use sensor_lib.Comms.Servers.{
  udp_reply, udp_next, bluetooth_next, udp_rounds, udp_bound, udp_serve, udp_server_loop,
  serve_client, reply_to, bluetooth_rounds, bluetooth_listening, bluetooth_bound, bluetooth_serve,
  bluetooth_server_loop,
}

-- accept() fails, or its descriptor is not open already.
abbrev pub FreshClients : World → Type 0
FreshClients w = (t : Trace) (fd : ℤ) (n : ℕ) → w.os.accept t fd ≡ succeeds n → opened n t ≡ 0

abbrev pub SameOpen : Trace → Trace → Type 0
SameOpen t u = (fd : ℕ) → opened fd u ≡ opened fd t

udp_next-SameOpen :
    (w : World) (z : ℤ) (rest : T (Unit {0})) (o : Outcome) (t : Trace)
    → ((u : Trace) → SameOpen u ((rest u).1))
    → SameOpen t ((udp_next w z rest o t).1)
unfolding udp_next
udp_next-SameOpen w z rest (succeeds n) t h = h (sent z (udp_reply w t) ∷ t)
udp_next-SameOpen w z rest (fails e) t h = λ fd. ground (arith, h t fd)

udp_rounds-SameOpen :
    (w : World) (z : ℤ) (rounds : ℕ) (t : Trace) → SameOpen t ((udp_rounds w z rounds t).1)
unfolding udp_rounds
udp_rounds-SameOpen w z zero t = λ fd. refl
udp_rounds-SameOpen w z (suc rounds) t =
    udp_next-SameOpen w z (udp_rounds w z rounds) (w.os.recv t z) (recv_tried z ∷ t)
      (udp_rounds-SameOpen w z rounds)

reply_to-SameOpen : (w : World) (z : ℤ) (o : Outcome) (t : Trace) → SameOpen t (reply_to w z o t)
unfolding reply_to
reply_to-SameOpen w z (succeeds zero) t = λ fd. refl
reply_to-SameOpen w z (succeeds (suc n)) t = λ fd. refl
reply_to-SameOpen w z (fails e) t = λ fd. refl

serve_client-SameOpen :
    (w : World) (n : ℕ) (t : Trace)
    → opened n t ≡ 0
    → SameOpen t (serve_client w (pos n) (accepted (pos n) ∷ t))
unfolding serve_client
serve_client-SameOpen w n t new = λ fd.
    let u = configured (pos n) (pos 3000) ∷ accepted (pos n) ∷ t in
    ground
      (arith, new, reply_to-SameOpen w (pos n) (w.os.recv u (pos n)) (recv_tried (pos n) ∷ u) fd)

bluetooth_next-SameOpen :
    (w : World) (z : ℤ) (rest : T (Unit {0})) (o : Outcome) (t : Trace)
    → ((n : ℕ) → o ≡ succeeds n → opened n t ≡ 0)
    → ((u : Trace) → SameOpen u ((rest u).1))
    → SameOpen t ((bluetooth_next w z rest o t).1)
unfolding bluetooth_next
bluetooth_next-SameOpen w z rest (succeeds n) t new h = λ fd.
    h (serve_client w (pos n) (accepted (pos n) ∷ t)) fd
    ∙ serve_client-SameOpen w n t (new n refl) fd
bluetooth_next-SameOpen w z rest (fails e) t new h = λ fd. ground (arith, h (accept_tried z ∷ t) fd)

bluetooth_rounds-SameOpen :
    (w : World) (z : ℤ) (rounds : ℕ) (t : Trace)
    → FreshClients w
    → SameOpen t ((bluetooth_rounds w z rounds t).1)
unfolding bluetooth_rounds
bluetooth_rounds-SameOpen w z zero t clients = λ fd. refl
bluetooth_rounds-SameOpen w z (suc rounds) t clients =
    bluetooth_next-SameOpen w z (bluetooth_rounds w z rounds) (w.os.accept t z) t (clients t z)
      (λ u. bluetooth_rounds-SameOpen w z rounds u clients)

-- Closing a socket that was opened on top of `t`
close-SameOpen :
    (f : ℕ) (t u v : Trace)
    → opened f t ≡ 0
    → SameOpen (socket_made (pos f) ∷ t) u
    → SameOpen u v
    → SameOpen t (closed (pos f) ∷ v)
close-SameOpen f t u v new h g = λ fd. ground (arith, new, h fd, g fd)

udp_serve-SameOpen :
    (w : World) (rounds : ℕ) (z : ℤ) (t : Trace)
    → ((f : ℕ) → z ≡ pos f → opened f t ≡ 0)
    → SameOpen t ((udp_serve w rounds z (socket_made z ∷ t)).1)
unfolding udp_serve udp_bound
udp_serve-SameOpen w rounds (negsuc n) t fresh = λ fd. refl
udp_serve-SameOpen w rounds (pos f) t fresh = on_bind (w.os.bind s (pos f))
  where
    s : Trace
    s = socket_made (pos f) ∷ t

    on_bind : (o : Outcome) → SameOpen t ((udp_bound w (pos f) rounds o (bound (pos f) ∷ s)).1)
    on_bind (fails e) =
        close-SameOpen f t s (bound (pos f) ∷ s) (fresh f refl) (λ fd. refl) (λ fd. refl)
    on_bind (succeeds n) =
        let u = configured (pos f) (pos 500) ∷ bound (pos f) ∷ s in
        close-SameOpen f t u ((udp_rounds w (pos f) rounds u).1) (fresh f refl) (λ fd. refl)
          (udp_rounds-SameOpen w (pos f) rounds u)

bluetooth_serve-SameOpen :
    (w : World) (rounds : ℕ) (z : ℤ) (t : Trace)
    → FreshClients w
    → ((f : ℕ) → z ≡ pos f → opened f t ≡ 0)
    → SameOpen t ((bluetooth_serve w rounds z (socket_made z ∷ t)).1)
unfolding bluetooth_serve bluetooth_bound bluetooth_listening
bluetooth_serve-SameOpen w rounds (negsuc n) t clients fresh = λ fd. refl
bluetooth_serve-SameOpen w rounds (pos f) t clients fresh = on_bind (w.os.bind s (pos f))
  where
    s : Trace
    s = socket_made (pos f) ∷ t

    b : Trace
    b = bound (pos f) ∷ s

    on_listen :
        (o : Outcome)
        → SameOpen t ((bluetooth_listening w (pos f) rounds o (listening (pos f) ∷ b)).1)
    on_listen (fails e) =
        close-SameOpen f t s (listening (pos f) ∷ b) (fresh f refl) (λ fd. refl) (λ fd. refl)
    on_listen (succeeds n) =
        let u = configured (pos f) (pos 500) ∷ listening (pos f) ∷ b in
        close-SameOpen f t u ((bluetooth_rounds w (pos f) rounds u).1) (fresh f refl) (λ fd. refl)
          (bluetooth_rounds-SameOpen w (pos f) rounds u clients)

    on_bind : (o : Outcome) → SameOpen t ((bluetooth_bound w (pos f) rounds o b).1)
    on_bind (fails e) = close-SameOpen f t s b (fresh f refl) (λ fd. refl) (λ fd. refl)
    on_bind (succeeds n) = on_listen (w.os.listen b (pos f))

-- If socket() and accept() return no descriptor that is open, both servers, for any number of
-- rounds and whatever their calls return, end with exactly the descriptors open that were open
-- when they began.
pub servers_close :
    (w : World) (rounds : ℕ) (t : Trace)
    → FreshSockets w
    → FreshClients w
    → SameOpen t ((udp_server_loop w rounds t).1)
      × SameOpen t ((bluetooth_server_loop w rounds t).1)
unfolding udp_server_loop bluetooth_server_loop
servers_close w rounds t fresh clients = (
  udp_serve-SameOpen w rounds (w.os.socket t) t (fresh t),
  bluetooth_serve-SameOpen w rounds (w.os.socket t) t clients (fresh t),
)
