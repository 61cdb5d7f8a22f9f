-- ===== src/Api/Destroy.antt =====
-- bratislavaDestroy of BratislavaSocket.cc, and Cleanup of BratislavaSocketRegistry.cc, which calls
-- it for every socket.
use sensor_lib.Prelude.{
  Option, ◌==◌, ℕ, zero, suc, none, some, List, [], ◌∷◌, if◌then◌else◌, put, length,
}
use sensor_lib.Os.{eidrm}
use sensor_lib.Registry.Socket.{remove, exists_socket}
use sensor_lib.Api.Interface.{Api, BaseAdapter, Sock, S, with_errno}
use sensor_lib.Api.Calls.{with_sock, asked, failed, pinned}

module _ {A : Type 0} (ops : BaseAdapter A) where
  -- `delete` of the adapter and the socket, after Remove
  unfoldable pub release : ℕ → S A (Unit {0})
  unfolding with_sock
  release b s =
      with_sock (s.socks b)
        (λ k s'.
          some
            (tt, record s' { errno = ops.delete k.adapter s'.errno; socks = put s'.socks b none }))
        s

  -- From the second lock on
  unfoldable pub destroy_locked : ℕ → S A (Unit {0})
  unfolding asked failed release
  destroy_locked b s =
      if exists_socket b s.registry
      then asked (remove b s.registry) (release b) (failed tt eidrm) s
      else some (tt, with_errno eidrm s)

  -- interrupt(), and then the rest
  unfoldable pub destroy_interrupted : ℕ → Sock A → S A (Unit {0})
  unfolding destroy_locked
  destroy_interrupted b k s =
      let (errno, a) = ops.interrupt k.adapter s.errno in
      destroy_locked b
        (record s { errno = errno; socks = put s.socks b (some (record k { adapter = a })) })

  -- bratislavaDestroy
  unfoldable pub bratislava_destroy : ℕ → S A (Unit {0})
  unfolding pinned with_sock destroy_interrupted
  bratislava_destroy b = pinned b tt (λ s. with_sock (s.socks b) (destroy_interrupted b) s)

  unfoldable pub last_socket : List ℕ → ℕ
  last_socket [] = 0
  last_socket (b ∷ []) = b
  last_socket (b ∷ c ∷ bs) = last_socket (c ∷ bs)

  -- Go on with the state after a destroy
  unfoldable pub after_destroy :
      Option (Unit {0} × Api A) → S A (Unit {0}) → Option (Unit {0} × Api A)
  after_destroy none rest = none
  after_destroy (some (u, t)) rest = rest t

  -- Cleanup, with the rounds that are left; as many as there are sockets are enough if every destroy
  -- removes one. `none` also says that the rounds have run out.
  unfoldable pub cleanup_rounds : ℕ → S A (Unit {0})
  unfolding last_socket after_destroy
  cleanup_rounds zero s = if length s.registry.sockets == 0 then some (tt, s) else none
  cleanup_rounds (suc rounds) s =
      if length s.registry.sockets == 0
      then some (tt, s)
      else after_destroy (bratislava_destroy (last_socket s.registry.sockets) s)
          (cleanup_rounds rounds)

  -- Cleanup
  unfoldable pub cleanup : S A (Unit {0})
  unfolding cleanup_rounds
  cleanup s = cleanup_rounds (length s.registry.sockets) s
