-- ===== src/Api/Returning.antt =====
-- Every call on a socket returns, and keeps the sockets alive.
use sensor_lib.Prelude.{
  sym, ℕ, refl, ◌∙◌, inl, inr, some, Text, ℤ, pos, minus_one, if◌then◌else◌, Bool-cases,
}
use sensor_lib.Os.{eidrm}
use sensor_lib.Registry.Config.{is_connected_of_socket, disconnect_of_socket}
use sensor_lib.Registry.Total.{Known-of}
use sensor_lib.Registry.Connection.{is_connected-Known, disconnect-Sets}
use sensor_lib.Api.Interface.{BaseAdapter, Api, S}
use sensor_lib.Api.Laws.{Laws}
use sensor_lib.Api.Calls.{
  asked, with_sock, failed, adapter_send, adapter_recv, adapter_conn, put_adapter, put_silently,
  bratislava_conn, bratislava_send, bratislava_recv, bratislava_conn_timeout,
  bratislava_recv_timeout, bratislava_disconnect,
}
use sensor_lib.Api.Connecting.{bratislava_conn-Connected}
use sensor_lib.Api.Destroy.{bratislava_destroy, destroy_interrupted}
use sensor_lib.Api.Destroyed.{destroy-Destroys}
use sensor_lib.Api.Emptied.{IsLive, Destroys-IsLive}
use sensor_lib.Api.Touching.{
  Touches-IsLive, Returns, pinned-Returns, pinned-known, failed-Returns, returned-Returns,
  put-Returns,
}

module _ {A : Type 0} {ops : BaseAdapter A} (laws : Laws ops) (b : ℕ) (s : Api A)
    (v : IsLive s) where
  pub conn-Returns : Returns (bratislava_conn ops b s)
  unfolding bratislava_conn
  conn-Returns =
      let call : S A ℤ = λ s.
        asked (is_connected_of_socket b s.registry) (λ t. some (pos 0, t)) (adapter_conn ops b) s in
      pinned-Returns b minus_one call s v (λ listed.
        let l = v.lives b listed in
        let known = Known-of v.valid l.points in
        let c =
          bratislava_conn-Connected laws b l.object s l.nonzero listed v.valid known l.holds in
        record {
          value = if c.linked then pos 0 else minus_one;
          after = c.after;
          runs = sym (pinned-known b minus_one call s l.nonzero listed) ∙ c.runs;
          live = Touches-IsLive {b = b} {s = s} v (record {
            valid = c.valid;
            sockets = c.sockets;
            mapped = c.mapped;
            object = record l.object { adapter = c.adapter };
            socks = c.socks;
          });
        })

  pub send-Returns : (buf : Text) → Returns (bratislava_send ops b buf s)
  unfolding bratislava_send asked adapter_send with_sock
  send-Returns buf =
      pinned-Returns b minus_one
        (λ s.
          asked (is_connected_of_socket b s.registry) (adapter_send ops b buf)
            (failed minus_one eidrm) s)
        s v
        (λ listed.
          let l = v.lives b listed in
          let known = Known-of v.valid l.points in
          elim (Bool-cases known.config.connected) [
            | inl on ↦
                rw (is_connected-Known v.valid known, on, l.holds)
                  (returned-Returns b l.object _ v
                    (laws.sends b l.object.adapter buf s.errno s.registry v.valid known))
            | inr off ↦
                rw (is_connected-Known v.valid known, off) (failed-Returns minus_one eidrm s v)
          ])

  pub recv-Returns : Returns (bratislava_recv ops b s)
  unfolding bratislava_recv asked adapter_recv with_sock
  recv-Returns =
      pinned-Returns b minus_one
        (λ s.
          asked (is_connected_of_socket b s.registry) (adapter_recv ops b) (failed minus_one eidrm)
            s)
        s v
        (λ listed.
          let l = v.lives b listed in
          let known = Known-of v.valid l.points in
          elim (Bool-cases known.config.connected) [
            | inl on ↦
                rw (is_connected-Known v.valid known, on, l.holds)
                  (returned-Returns b l.object _ v
                    (laws.receives b l.object.adapter s.errno s.registry v.valid known))
            | inr off ↦
                rw (is_connected-Known v.valid known, off) (failed-Returns minus_one eidrm s v)
          ])

  pub timeouts-Return :
      (ms : ℕ)
      → Returns (bratislava_conn_timeout ops b ms s) × Returns (bratislava_recv_timeout ops b ms s)
  unfolding bratislava_conn_timeout bratislava_recv_timeout with_sock put_adapter
  timeouts-Return ms = (
    pinned-Returns b minus_one
        (λ s.
          with_sock (s.socks b)
            (λ k s'. put_adapter ops b k (ops.set_conn_timeout ms k.adapter s'.errno) s') s)
        s v
        (λ listed.
          let l = v.lives b listed in
          let x = ops.set_conn_timeout ms l.object.adapter s.errno in
          rw (l.holds) (record {
            value = x.0;
            after = _;
            runs = refl;
            live = put-Returns b l.object s.registry x.2 x.1 v v.valid refl (λ c. refl);
          })),
    pinned-Returns b minus_one
        (λ s.
          with_sock (s.socks b)
            (λ k s'. put_adapter ops b k (ops.set_recv_timeout ms k.adapter s'.errno) s') s)
        s v
        (λ listed.
          let l = v.lives b listed in
          let x = ops.set_recv_timeout ms l.object.adapter s.errno in
          rw (l.holds) (record {
            value = x.0;
            after = _;
            runs = refl;
            live = put-Returns b l.object s.registry x.2 x.1 v v.valid refl (λ c. refl);
          })),
  )

  pub disconnect-Returns : Returns (bratislava_disconnect ops b s)
  unfolding bratislava_disconnect asked with_sock put_silently
  disconnect-Returns =
      pinned-Returns b tt
        (λ s.
          asked (disconnect_of_socket b s.registry)
            (λ t.
              with_sock (t.socks b)
                (λ k t'. put_silently ops b k (ops.disconn k.adapter t'.errno) t') t)
            (failed tt eidrm) s)
        s v
        (λ listed.
          let l = v.lives b listed in
          let d = disconnect-Sets v.valid (Known-of v.valid l.points) in
          let x = ops.disconn l.object.adapter s.errno in
          rw (d.runs, l.holds)
            (record {
              value = tt;
              after = _;
              runs = refl;
              live = put-Returns b l.object d.after x.2 x.1 v d.valid d.sockets d.mapped;
            }))

  pub destroy-Returns : Returns (bratislava_destroy ops b s)
  unfolding bratislava_destroy
  destroy-Returns =
      let call : S A (Unit {0}) = λ s. with_sock (s.socks b) (destroy_interrupted ops b) s in
      pinned-Returns b tt call s v (λ listed.
        let l = v.lives b listed in
        let known = Known-of v.valid l.points in
        let d =
          destroy-Destroys ops b s l.object v.valid v.distinct l.nonzero listed known l.holds in
        record {
          value = tt;
          after = d.after;
          runs = sym (pinned-known b tt call s l.nonzero listed) ∙ d.runs;
          live = Destroys-IsLive ops b v d;
        })
