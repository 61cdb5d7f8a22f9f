-- ===== src/Registry/Sharing.antt =====
-- Two sockets for one device: both point to one config, and Remove of the first frees it.
use sensor_lib.Prelude.{
  ℕ, ◌+◌, ◌≡◌, ◌≢◌, true, false, none, some, [], ◌∷◌, ◌++◌, Text, put, put_text, text_eq_refl,
  arith,
}
use sensor_lib.Types.{Link}
use sensor_lib.Registry.State.{Registry, ◌>>◌, new_config}
use sensor_lib.Registry.Config.{
  get_device_id, get_config_of_socket, remove_config, disconnect_of_socket,
}
use sensor_lib.Registry.Port.{release_local_port_of_socket}
use sensor_lib.Registry.Socket.{erase_first, add, remove, exists_socket}
use sensor_lib.Registry.SocketList.{contains-push, contains-erase_ne}
use sensor_lib.Registry.Membership.{added, add_lem}
use sensor_lib.Registry.Valid.{IsValid}

module _ {r : Registry} (s t : ℕ) (l m : Link) (v : IsValid r) (s_ne : s ≢ 0) (t_ne : t ≢ 0)
    (ne : s ≢ t) (new_s : r.sock_to_config s ≡ none) (new_t : r.sock_to_config t ≡ none)
    (new_device : r.device_id_to_config (get_device_id l) ≡ none)
    (same : get_device_id m ≡ get_device_id l) where
  unfoldable pub d : Text
  d = get_device_id l

  -- The config that both sockets share, at the address that the first Add allocated.
  unfoldable pub both : Registry
  both = record r {
    configs =
        put (put r.configs r.next_config (some (record new_config { socket = s; device_id = d })))
          r.next_config (some (record new_config { socket = t; device_id = d }));
    next_config = r.next_config + 1;
    sock_to_config = put (put r.sock_to_config s (some r.next_config)) t (some r.next_config);
    device_id_to_config = put_text r.device_id_to_config d (some r.next_config);
    sockets = (r.sockets ++ (s ∷ [])) ++ (t ∷ []);
  }

  pub add_second : add t m (added r s l) ≡ some (tt, both)
  unfolding add both d
  add_second = ground (arith, same, text_eq_refl (get_device_id l), new_t)

  -- Remove of the first socket, step by step.
  cleared : Registry
  cleared = record both {
    configs =
        put
          (put both.configs r.next_config (some (record new_config { socket = t; device_id = d })))
          r.next_config none;
    device_id_to_config = put_text both.device_id_to_config d none;
    sock_to_config = put both.sock_to_config s none;
  }

  release_first : release_local_port_of_socket s both ≡ some (false, both)
  unfolding release_local_port_of_socket both
  release_first = ground arith

  disconnect_first :
      disconnect_of_socket s both
      ≡ some (
        true,
        record both {
          configs =
              put both.configs r.next_config
                (some (record new_config { socket = t; device_id = d }));
        },
      )
  unfolding disconnect_of_socket both
  disconnect_first = ground arith

  remove_config_first :
      remove_config s (record both {
        configs =
            put both.configs r.next_config (some (record new_config { socket = t; device_id = d }));
      })
      ≡ some (tt, cleared)
  unfolding remove_config both cleared
  remove_config_first = ground arith

  -- On a valid registry, registering two different sockets, not null and without a config, for one
  -- device without a config, and removing the first one leaves the second one listed, and any use of
  -- its config a fault: the two shared one config, and it is freed.
  pub shared_config_dangles :
      (after : Registry) × ((do add s l; add t m; remove s) r ≡ some (true, after))
      × (exists_socket t after ≡ true)
      × (get_config_of_socket t after ≡ none)
  unfolding remove exists_socket get_config_of_socket both cleared
  shared_config_dangles = (
    record cleared { sockets = erase_first s both.sockets },
    ground (
      arith,
      add_lem s l v s_ne new_s new_device,
      add_second,
      release_first,
      disconnect_first,
      remove_config_first,
      contains-push s s r.sockets,
      contains-push s t (r.sockets ++ (s ∷ [])),
    ),
    ground (arith, contains-erase_ne t s both.sockets, contains-push t t (r.sockets ++ (s ∷ []))),
    ground arith,
  )
