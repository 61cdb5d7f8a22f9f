-- ===== src/Api/Twice.antt =====
-- bratislavaSocket for one link, twice.
use sensor_lib.Prelude.{
  ◌+◌, ◌≡◌, refl, ◌≢◌, ◌∙◌, ap, true, false, none, some, Text, put_text_ne, put, arith,
}
use sensor_lib.Types.{Link, wifi}
use sensor_lib.Registry.State.{Registry}
use sensor_lib.Registry.Config.{get_device_id, get_config}
use sensor_lib.Registry.Socket.{add, exists}
use sensor_lib.Registry.Valid.{IsValid}
use sensor_lib.Registry.Membership.{added, add_lem}
use sensor_lib.Registry.Sharing.{both, add_second}
use sensor_lib.Api.Interface.{BaseAdapter, Api}
use sensor_lib.Api.Calls.{bratislava_socket, create_socket, asked, is_supported, added_socket}

-- An id without a config has no socket.
no_config-exists :
    (id : Text) (r : Registry) → r.device_id_to_config id ≡ none → exists id r ≡ some (false, r)
unfolding exists get_config
no_config-exists id r e = ground (arith, e)

module _ {A : Type 0} (ops : BaseAdapter A) where
  -- For such an id a Wi-Fi link gets a new socket.
  made_new :
      (l : Link) (s : Api A) (r : Registry)
      → l.instrument ≡ wifi
      → s.registry.device_id_to_config l.link_id ≡ none
      → add s.next_sock l s.registry ≡ some (tt, r)
      → bratislava_socket ops l s
        ≡ some (
          s.next_sock,
          record s {
            registry = r;
            errno = (ops.make s.next_sock l s.errno).0;
            socks =
                put s.socks s.next_sock
                  (some (record { link = l; adapter = (ops.make s.next_sock l s.errno).1 }));
            next_sock = s.next_sock + 1;
          },
        )
  unfolding bratislava_socket create_socket asked is_supported added_socket
  made_new l s r w e a =
      let supported : is_supported ops l.instrument ≡ true = ap (is_supported ops) w in
      rw (no_config-exists l.link_id s.registry e, supported, a)

  -- On a valid registry, for a Wi-Fi link whose id is not its device's id, where neither id has a
  -- config and the next two socket pointers are not null and without a config, two calls of
  -- bratislavaSocket with the link return two different sockets, and both end with one config: the
  -- socket that a link has is looked up by the link's id, and kept by its device's.
  pub second_socket_is_new :
      (l : Link) (s : Api A)
      → IsValid s.registry
      → s.next_sock ≢ 0
      → s.registry.sock_to_config s.next_sock ≡ none
      → s.registry.sock_to_config (s.next_sock + 1) ≡ none
      → s.registry.device_id_to_config (get_device_id l) ≡ none
      → s.registry.device_id_to_config l.link_id ≡ none
      → get_device_id l ≢ l.link_id
      → l.instrument ≡ wifi
      → (s1 s2 : Api A) × (bratislava_socket ops l s ≡ some (s.next_sock, s1))
        × (bratislava_socket ops l s1 ≡ some (s.next_sock + 1, s2))
        × (s2.registry.sock_to_config s.next_sock ≡ some s.registry.next_config)
        × (s2.registry.sock_to_config (s.next_sock + 1) ≡ some s.registry.next_config)
  unfolding both
  second_socket_is_new l s v ne new_s new_t new_device new_id other w =
      let n = s.next_sock in
      let s1 : Api A = record s {
        registry = added s.registry n l;
        errno = (ops.make n l s.errno).0;
        socks = put s.socks n (some (record { link = l; adapter = (ops.make n l s.errno).1 }));
        next_sock = n + 1;
      } in
      let t_ne : n + 1 ≢ 0 = λ h. omega (arith, h) in
      let ne_t : n ≢ n + 1 = λ h. omega (arith, h) in
      (
        s1,
        _,
        made_new l s (added s.registry n l) w new_id (add_lem n l v ne new_s new_device),
        made_new l s1 _ w
            (put_text_ne s.registry.device_id_to_config (get_device_id l) l.link_id _ other
              ∙ new_id)
            (add_second n (n + 1) l l v ne t_ne ne_t new_s new_t new_device refl),
        ground arith,
        ground arith,
      )
