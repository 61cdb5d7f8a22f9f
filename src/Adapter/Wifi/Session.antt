-- ===== src/Adapter/Wifi/Session.antt =====
-- conn() and disconn() of the Wi-Fi adapter, and the connected flag in the registry.
use sensor_lib.Prelude.{
  ap, Option, Text, none, ◌⊎◌, ℕ, ◌≡◌, refl, ◌∙◌, inl, inr, Bool, true, false, some, ◌∷◌, ℤ, pos,
  minus_one, is_neg, eq_ℤ, ◌==◌, if◌then◌else◌, Bool-cases, arith,
}
use sensor_lib.Types.{WifiDeviceType, wifi_unknown, wifi_adapter, wifi_router}
use sensor_lib.Os.{Os, Trace, clock_read, closed, socket_made}
use sensor_lib.Registry.State.{Registry, M, ◌>>=◌}
use sensor_lib.Registry.Config.{is_connected_of_socket}
use sensor_lib.Registry.Valid.{IsValid}
use sensor_lib.Registry.Connection.{Known, answer, connect-Sets}
use sensor_lib.Registry.Total.{
  Known-of, get_remote_port-Answers, get_local_port-Answers, add_local_port-Quiet, Quiet,
}
use sensor_lib.Adapter.Wifi.State.{
  WifiAdapter, Network, setup_local_addr, setup_remote_addr, configure_for_comms, access_point_ip,
  disconn, with_remote_port, deref, deref_found, remote_addr, asked_local_ip, get_access_point_ip,
}
use sensor_lib.Adapter.Wifi.Request.{
  send_connection_request, exchange, request_from, request_found, request_loop, parses_gateway,
}
use sensor_lib.Adapter.Wifi.Peer.{connect_to_peer, listen_for_peer}
use sensor_lib.Adapter.Wifi.Conn.{
  ConnResult, or_fault, finish, serve, after_request, join, conn_as, conn,
}

-- What conn() promises of the registry: it runs, its result says whether the adapter is connected,
-- and exactly then the socket's flag is set; no other socket's flag changes, and no socket is
-- listed, removed or given another config.
pub record Conns (bsock : ℕ) (r : Registry) (m : M ConnResult) : Type 0 where
  pub result : ConnResult
  pub after : Registry
  pub runs : m r ≡ some (result, after)
  pub valid : IsValid after
  pub sockets : after.sockets ≡ r.sockets
  pub mapped : (t : ℕ) → after.sock_to_config t ≡ r.sock_to_config t
  pub value : result.value ≡ (if result.adapter.connected then pos 0 else minus_one)
  pub flags :
      (t : ℕ)
      → answer (is_connected_of_socket t after) ≡ (
          if result.adapter.connected
          then (if t == bsock then some true else answer (is_connected_of_socket t r))
          else answer (is_connected_of_socket t r))

-- NetworkManager's client can be made, and it gives a local address.
pub record HasDevice (net : Network) : Type 0 where
  pub client : (t : Trace) → net.has_client t ≡ true
  pub address : (t : Trace) → (ip : Text) × (net.local_ip t ≡ some ip)

-- What SendConnectionRequest leaves of an adapter; a granted one has a gateway.
record Requests (a : WifiAdapter) (x : (WifiAdapter × Bool) × Trace) : Type 0 where
  connected : x.0.0.connected ≡ a.connected
  device : x.0.0.device_type ≡ a.device_type
  gateway : (x.0.1 ≡ false) ⊎ ((g : Text) × (x.0.0.gateway ≡ some g))

module _ (os : Os) (net : Network) (known : HasDevice net) (bsock : ℕ) where
  finish-Conns :
      {r : Registry} (a : WifiAdapter) (t : Trace)
      → IsValid r
      → Known r bsock
      → Conns bsock r (finish os net bsock (a, t))
  unfolding finish
  finish-Conns {r} a t v k = elim (Bool-cases a.connected) [
    | inl yes_connected ↦
        let s = connect-Sets v k in
        record {
          result = record { value = pos 0; adapter = a; trace = (configure_for_comms os a t).1 };
          after = s.after;
          runs = ground (arith, yes_connected, s.runs);
          valid = s.valid;
          sockets = s.sockets;
          mapped = s.mapped;
          value = rw yes_connected;
          flags = λ u. rw yes_connected (s.reads u);
        }
    | inr not_connected ↦ record {
      result = record { value = minus_one; adapter = a; trace = t };
      after = r;
      runs = ground (arith, not_connected);
      valid = v;
      sockets = refl;
      mapped = λ u. refl;
      value = rw not_connected;
      flags = λ u. rw not_connected;
    }
  ]

  -- A quiet step before a session.
  Conns-after :
      {r r' : Registry} (m m' : M ConnResult)
      → Quiet r r'
      → m r ≡ m' r'
      → Conns bsock r' m'
      → Conns bsock r m
  Conns-after m m' q e c = record {
    result = c.result;
    after = c.after;
    runs = e ∙ c.runs;
    valid = c.valid;
    sockets = c.sockets ∙ q.sockets;
    mapped = λ t. c.mapped t ∙ q.mapped t;
    value = c.value;
    flags = λ t. ground (arith, c.flags t, q.flags t);
  }

  Quiet-refl : {r : Registry} → IsValid r → Quiet r r
  Quiet-refl v = record { valid = v; sockets = refl; mapped = λ t. refl; flags = λ t. refl }

  remote_addr-router :
      (a : WifiAdapter) (t : Trace) → remote_addr net wifi_router a t ≡ some (with_remote_port a)
  unfolding remote_addr asked_local_ip deref deref_found
  remote_addr-router a t =
      let client : asked_local_ip net t ≡ some (net.local_ip t) = rw (known.client t) refl in
      ap (λ o. deref_found o (with_remote_port a)) client
      ∙ ap (λ o. deref o (with_remote_port a)) (known.address t).1

  setup-router :
      (a : WifiAdapter) (t : Trace)
      → a.device_type ≡ wifi_router
      → setup_remote_addr net a t ≡ some (with_remote_port a)
  unfolding setup_remote_addr
  setup-router a t e = ap (λ d. remote_addr net d a t) e ∙ remote_addr-router a t

  remote_addr-adapter :
      (a : WifiAdapter) (t : Trace) (g : Text)
      → a.gateway ≡ some g
      → remote_addr net wifi_adapter a t ≡ some (with_remote_port a)
  unfolding remote_addr deref
  remote_addr-adapter a t g e = ap (λ o. deref o (with_remote_port a)) e

  setup-adapter :
      (a : WifiAdapter) (t : Trace) (g : Text)
      → a.device_type ≡ wifi_adapter
      → a.gateway ≡ some g
      → setup_remote_addr net a t ≡ some (with_remote_port a)
  unfolding setup_remote_addr
  setup-adapter a t g e h = ap (λ d. remote_addr net d a t) e ∙ remote_addr-adapter a t g h

  serve-Conns :
      {r : Registry} (start : ℕ) (a : WifiAdapter) (t : Trace)
      → a.device_type ≡ wifi_router
      → IsValid r
      → Known r bsock
      → Conns bsock r (serve os net bsock start a t)
  unfolding serve or_fault setup_local_addr
  serve-Conns {r} start a t e v k =
      let (port, ep) = get_remote_port-Answers v a.peer_mac in
      let (local, el) = get_local_port-Answers v a.peer_mac in
      let b = setup_local_addr local (record a { remote_port = port }) in
      let (c, u) = listen_for_peer os start (with_remote_port b) t in
      Conns-after _ (finish os net bsock (c, u)) (Quiet-refl v)
        (rw (ep, ◌>>=◌) (rw (el, ◌>>=◌) (rw (setup-router b t e, ◌>>=◌) refl)))
        (finish-Conns c u v k)

  exchange-Requests :
      (a : WifiAdapter) (t : Trace) (g : Text) → a.gateway ≡ some g → Requests a (exchange os a t)
  unfolding exchange
  exchange-Requests a t g e = record {
    connected = ground arith;
    device = ground arith;
    gateway = inr (g, ground (arith, e));
  }

  refused-Requests : (a : WifiAdapter) (t : Trace) → Requests a ((a, false), t)
  refused-Requests a t = record { connected = refl; device = refl; gateway = inl refl }

  parses-some : (o : Option Text) → parses_gateway os net o ≡ true → (g : Text) × (o ≡ some g)
  unfolding parses_gateway
  parses-some none e = absurd (cc e)
  parses-some (some g) e = (g, refl)

  request-Requests :
      (start : ℕ) (a : WifiAdapter) (status : ℤ) (t : Trace)
      → Requests a (request_from os net start (a, status) t)
  unfolding request_from
  request-Requests start a status t = elim (Bool-cases (is_neg status)) [
    | inl negative ↦ rw negative (refused-Requests a t)
    | inr other ↦ elim (Bool-cases (parses_gateway os net a.gateway)) [
      | inr bad ↦ rw (other, bad) (refused-Requests a t)
      | inl good ↦
          let x = request_loop os a.conn_timeout start a.sockfd_request t in
          let (g, e) = parses-some a.gateway good in
          elim (Bool-cases x.0) [
            | inr off ↦ rw (other, good, off) (refused-Requests a x.1)
            | inl on ↦ rw (other, good, on) (exchange-Requests a x.1 g e)
          ]
    ]
  ]

  gateway-Same :
      (a : WifiAdapter) (t : Trace)
      → ((access_point_ip net a t).0.connected ≡ a.connected)
        × ((access_point_ip net a t).0.device_type ≡ a.device_type)
  unfolding access_point_ip
  gateway-Same a t = (ground arith, ground arith)

  sent-Requests :
      (start : ℕ) (a : WifiAdapter) (t : Trace)
      → Requests a (request_from os net start (access_point_ip net a t) t)
  sent-Requests start a t =
      let found = access_point_ip net a t in
      let r = request-Requests start found.0 found.1 t in
      record {
        connected = r.connected ∙ (gateway-Same a t).0;
        device = r.device ∙ (gateway-Same a t).1;
        gateway = r.gateway;
      }

  send-runs :
      (start : ℕ) (a : WifiAdapter) (t : Trace)
      → send_connection_request os net start a t
        ≡ some (request_from os net start (access_point_ip net a t) t)
  unfolding send_connection_request get_access_point_ip request_found
  send-runs start a t =
      let client : get_access_point_ip net a t ≡ some (access_point_ip net a t) =
        rw (known.client t) refl in
      ap (request_found os net start t) client

  after-Conns :
      {r : Registry} (start : ℕ) (a : WifiAdapter) (x : (WifiAdapter × Bool) × Trace)
      → Requests a x
      → a.connected ≡ false
      → a.device_type ≡ wifi_adapter
      → IsValid r
      → Known r bsock
      → Conns bsock r (after_request os net bsock start x)
  unfolding after_request or_fault
  after-Conns {r} start a ((b, true), t) s off device v k = elim (s.gateway) [
    | inl refused ↦ absurd (cc refused)
    | inr (g, e) ↦
        let (c, u) = connect_to_peer os start (with_remote_port b) t in
        Conns-after _ (finish os net bsock (c, u)) (Quiet-refl v)
          (rw (setup-adapter b t g (s.device ∙ device) e, ◌>>=◌) refl) (finish-Conns c u v k)
  ]
  after-Conns {r} start a ((b, false), t) s off device v k =
      let unconnected = s.connected ∙ off in
      record {
        result = record { value = minus_one; adapter = b; trace = t };
        after = r;
        runs = refl;
        valid = v;
        sockets = refl;
        mapped = λ u. refl;
        value = rw unconnected;
        flags = λ u. rw unconnected;
      }

  setup-Same :
      (port : ℤ) (a : WifiAdapter)
      → ((setup_local_addr port a).connected ≡ a.connected)
        × ((setup_local_addr port a).device_type ≡ a.device_type)
  unfolding setup_local_addr
  setup-Same port a = (refl, refl)

  join-Conns :
      {r : Registry} (start : ℕ) (a : WifiAdapter) (t : Trace)
      → a.connected ≡ false
      → a.device_type ≡ wifi_adapter
      → IsValid r
      → Known r bsock
      → Conns bsock r (join os net bsock start a t)
  unfolding join or_fault
  join-Conns {r} start a t off device v k =
      let (b, r1, e, q) = add_local_port-Quiet a.peer_mac v in
      let (local, el) = get_local_port-Answers q.valid a.peer_mac in
      let listed = Known-of q.valid (q.mapped bsock ∙ k.points) in
      let asked = setup_local_addr local a in
      let sent = request_from os net start (access_point_ip net asked t) t in
      Conns-after _ (after_request os net bsock start sent) q
        (rw (e, ◌>>=◌) (rw (el, ◌>>=◌) (rw (send-runs start asked t, ◌>>=◌) refl)))
        (after-Conns start asked sent (sent-Requests start asked t) ((setup-Same local a).0 ∙ off)
          ((setup-Same local a).1 ∙ device) q.valid listed)

  conn_as-Conns :
      {r : Registry} (d : WifiDeviceType) (start : ℕ) (a : WifiAdapter) (t : Trace)
      → a.device_type ≡ d
      → a.connected ≡ false
      → IsValid r
      → Known r bsock
      → Conns bsock r (conn_as os net bsock d start a t)
  unfolding conn_as
  conn_as-Conns wifi_router start a t e off v k = serve-Conns start a t e v k
  conn_as-Conns wifi_adapter start a t e off v k = join-Conns start a t off e v k
  conn_as-Conns wifi_unknown start a t e off v k = finish-Conns a t v k

-- Where NetworkManager's client can be made and gives a local address whenever it is asked, on a
-- valid registry that knows the socket, conn() of the Wi-Fi adapter reads no null pointer and
-- returns: 0 if the adapter is connected and -1 if not. It keeps the registry valid, sets the
-- socket's connected flag exactly if the adapter is connected, and changes no other socket's flag,
-- and neither the list of sockets nor which config a socket has.
pub conn-Conns :
    {r : Registry} (os : Os) (net : Network) (bsock : ℕ) (a : WifiAdapter) (t : Trace)
    → HasDevice net
    → IsValid r
    → Known r bsock
    → Conns bsock r (conn os net bsock a t)
unfolding conn
conn-Conns os net bsock a t device v k =
    conn_as-Conns os net device bsock a.device_type (os.clock_ms t) (record a { connected = false })
      (clock_read ∷ t) refl refl v k

-- disconn() leaves the adapter unconnected, closes the old socket if there is one, makes a new one,
-- and returns -1 exactly if the new descriptor is -1.
disconn_lem :
    (os : Os) (a : WifiAdapter) (t : Trace)
    → let closing = if is_neg a.sockfd then t else closed a.sockfd ∷ t in
      let fd = os.socket closing in
      disconn os a t ≡ (
        (
          record a { connected = false; sockfd = fd },
          if eq_ℤ fd minus_one then minus_one else pos 0,
        ),
        socket_made fd ∷ closing,
      )
unfolding disconn
disconn_lem os a t = ground arith
