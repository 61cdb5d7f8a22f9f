-- ===== src/Registry/Membership.antt =====
-- Add on a valid registry.
use sensor_lib.Prelude.{
  ℕ, ◌+◌, ◌≡◌, ap, ◌≢◌, inl, inr, true, false, none, some, [], ◌∷◌, ◌++◌, Text, put, put_text, ◌==◌,
  if◌then◌else◌, Bool-cases, Option-cases, text_eq_refl, text_eq-cases, arith,
}
use sensor_lib.Types.{Link}
use sensor_lib.Registry.State.{SocketConfig, Registry, new_config}
use sensor_lib.Registry.Config.{get_device_id, get_config_of_socket, get_config}
use sensor_lib.Registry.Socket.{add, exists_socket}
use sensor_lib.Registry.SocketList.{Distinct, contains-push, Distinct-push}
use sensor_lib.Registry.Valid.{IsValid, SockEntry, IdEntry, Owned}

-- The registry after Add of a socket whose device has no config yet.
abbrev pub added : Registry → ℕ → Link → Registry
added r s l = record r {
  configs =
      put r.configs r.next_config
        (some (record new_config { socket = s; device_id = get_device_id l }));
  next_config = r.next_config + 1;
  sock_to_config = put r.sock_to_config s (some r.next_config);
  device_id_to_config = put_text r.device_id_to_config (get_device_id l) (some r.next_config);
  sockets = r.sockets ++ (s ∷ []);
}

module _ {r : Registry} (s : ℕ) (l : Link) (v : IsValid r) (ne : s ≢ 0)
    (new_socket : r.sock_to_config s ≡ none)
    (new_device : r.device_id_to_config (get_device_id l) ≡ none) where
  pub add_lem : add s l r ≡ some (tt, added r s l)
  unfolding add
  add_lem = ground (arith, new_device)

  fresh : r.configs r.next_config ≡ none
  fresh = elim (Option-cases (r.configs r.next_config)) [
    | inl e ↦ e
    | inr (c, e) ↦ absurd (omega (arith, (v.owned r.next_config c e).0))
  ]

  added-by_sock : (t p : ℕ) → (added r s l).sock_to_config t ≡ some p → SockEntry (added r s l) t p
  added-by_sock t p h = elim (Bool-cases (s == t)) [
    | inl hit ↦ (
      ground arith,
      (record new_config { socket = s; device_id = get_device_id l }, ground arith, ground arith),
    )
    | inr miss ↦
        let old = v.by_sock t p (rw miss at h) in
        let (c, ec, es) = old.1 in (old.0, (c, ground (arith, v.owned p c ec, ec), es))
  ]

  added-by_id :
      (d : Text) (p : ℕ) → (added r s l).device_id_to_config d ≡ some p → IdEntry (added r s l) d p
  added-by_id d p h = elim (text_eq-cases (get_device_id l) d) [
    | inl (hit, e) ↦
        (record new_config { socket = s; device_id = get_device_id l }, ground (arith, hit), e)
    | inr (miss, _) ↦
        let (c, ec, ed) = v.by_id d p (rw miss at h) in (c, ground (arith, v.owned p c ec, ec), ed)
  ]

  added-Owned :
      (p : ℕ) (c : SocketConfig) → (added r s l).configs p ≡ some c → Owned (added r s l) p c
  added-Owned p c h = elim (Bool-cases (r.next_config == p)) [
    | inl hit ↦ ground (arith, text_eq_refl (get_device_id l))
    | inr miss ↦
        let ec : r.configs p ≡ some c = rw miss at h in
        let o = v.owned p c ec in
        elim (text_eq-cases (get_device_id l) c.device_id) [
          | inl (_, e) ↦ absurd (ground (arith, o.1, new_device, ap r.device_id_to_config e))
          | inr (miss_id, _) ↦ (
            omega (arith, o.0),
            rw miss_id o.1,
            λ has. elim (Bool-cases (s == c.socket)) [
              | inl same ↦ absurd (ground (arith, o.2 has, new_socket))
              | inr other ↦ rw other (o.2 has)
            ],
          )
        ]
  ]

  pub added-IsValid : IsValid (added r s l)
  added-IsValid = record { by_sock = added-by_sock; by_id = added-by_id; owned = added-Owned }

-- What Add promises.
pub record Adds (r : Registry) (s : ℕ) (l : Link) : Type 0 where
  pub after : Registry
  pub runs : add s l r ≡ some (tt, after)
  pub valid : IsValid after
  pub distinct : Distinct after.sockets
  pub listed : (t : ℕ) → exists_socket t after ≡ (if t == s then true else exists_socket t r)
  pub config :
      get_config_of_socket s after
      ≡ some (some (record new_config { socket = s; device_id = get_device_id l }), after)
  pub same_config :
      get_config (get_device_id l) after
      ≡ some (some (record new_config { socket = s; device_id = get_device_id l }), after)

-- On a valid registry whose socket list has no repetition, Add of a socket that is not null, not
-- yet listed and without a config, for a device without a config, keeps both invariants, lists
-- exactly this socket in addition, and gives the socket and its device id one fresh config.
pub add-Adds :
    {r : Registry} (s : ℕ) (l : Link)
    → IsValid r
    → Distinct r.sockets
    → s ≢ 0
    → exists_socket s r ≡ false
    → r.sock_to_config s ≡ none
    → r.device_id_to_config (get_device_id l) ≡ none
    → Adds r s l
unfolding exists_socket get_config_of_socket get_config
add-Adds {r} s l v d ne e ns nd = record {
  after = added r s l;
  runs = add_lem s l v ne ns nd;
  valid = added-IsValid s l v ne ns nd;
  distinct = Distinct-push s r.sockets e d;
  listed = λ t. contains-push t s r.sockets;
  config = ground arith;
  same_config = ground (arith, text_eq_refl (get_device_id l));
}
