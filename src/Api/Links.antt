-- ===== src/Api/Links.antt =====
-- bratislavaLinkSend, bratislavaLinkRecv and bratislavaGetLinkInfo of BratislavaSocket.cc.
use sensor_lib.Prelude.{ℕ, Option, none, some, Text, ℤ, pos, minus_one, ◌==◌, eq_ℤ, if◌then◌else◌}
use sensor_lib.Types.{Link, LinkInfo, copy_string}
use sensor_lib.Os.{einval}
use sensor_lib.Api.Interface.{BaseAdapter, Api, S, with_errno}
use sensor_lib.Api.Calls.{
  pinned, failed, bratislava_socket, bratislava_conn, adapter_send, adapter_recv,
}

-- Go on with a call's result and state
unfoldable pub then_do : {A B C : Type 0} → Option (B × Api A) → (B → S A C) → Option (C × Api A)
then_do none f = none
then_do (some (b, s)) f = f b s

module _ {A : Type 0} (ops : BaseAdapter A) where
  -- After bratislavaConn: only 0 goes on
  unfoldable pub when_connected : ℕ → S A ℤ → ℤ → S A ℤ
  unfolding failed pinned
  when_connected b call value =
      if eq_ℤ value (pos 0) then pinned b minus_one call else failed minus_one einval

  -- After bratislavaSocket: connect, then the call
  unfoldable pub on_socket : (ℕ → S A ℤ) → ℕ → S A ℤ
  unfolding failed then_do when_connected bratislava_conn
  on_socket call b s =
      if b == 0
      then failed minus_one einval s
      else then_do (bratislava_conn ops b s) (when_connected b (call b))

  -- bratislavaLinkSend
  unfoldable pub bratislava_link_send : Link → Text → S A ℤ
  unfolding then_do on_socket bratislava_socket adapter_send
  bratislava_link_send link buf s =
      then_do (bratislava_socket ops link s) (on_socket (λ b. adapter_send ops b buf))

  -- bratislavaLinkRecv
  unfoldable pub bratislava_link_recv : Link → S A ℤ
  unfolding then_do on_socket bratislava_socket adapter_recv
  bratislava_link_recv link s =
      then_do (bratislava_socket ops link s) (on_socket (adapter_recv ops))

-- bratislavaGetLinkInfo. For a null link the result is not initialised, which `none` stands for.
unfoldable pub bratislava_get_link_info : {A : Type 0} → Option Link → S A (Option LinkInfo)
unfolding copy_string
bratislava_get_link_info none s = some (none, with_errno einval s)
bratislava_get_link_info (some link) s = some (
  some (record {
    link_id = copy_string 20 link.link_id;
    dev_id = copy_string 256 link.dev_id;
    latency = link.latency;
    throughput = link.throughput;
    message_loss = link.message_loss;
    link_type = link.link_type;
  }),
  s,
)
