-- ===== src/Api/Touching.antt =====
-- Calls that change one socket's object, or none.
use sensor_lib.Prelude.{
  ℕ, ◌≡◌, refl, ◌∙◌, ◌≢◌, inl, inr, true, false, Option, some, ℤ, ◌==◌, if◌then◌else◌, Bool-cases,
  arith, put,
}
use sensor_lib.Os.{Errno, einval, eidrm}
use sensor_lib.Registry.State.{Registry}
use sensor_lib.Registry.Socket.{exists_socket}
use sensor_lib.Registry.Valid.{IsValid}
use sensor_lib.Api.Interface.{Sock, Api, S}
use sensor_lib.Api.Laws.{Reads}
use sensor_lib.Api.Calls.{pinned, returned, failed}
use sensor_lib.Api.Connecting.{put_lem}
use sensor_lib.Api.Emptied.{IsLive}

-- A change of one socket's object, with what the registry must keep
pub record Touches {A : Type 0} (b : ℕ) (s s' : Api A) : Type 0 where
  pub valid : IsValid s'.registry
  pub sockets : s'.registry.sockets ≡ s.registry.sockets
  pub mapped : (c : ℕ) → s'.registry.sock_to_config c ≡ s.registry.sock_to_config c
  pub object : Sock A
  pub socks : (c : ℕ) → s'.socks c ≡ (if c == b then some object else s.socks c)

pub Touches-IsLive : {A : Type 0} {b : ℕ} {s s' : Api A} → IsLive s → Touches b s s' → IsLive s'
unfolding exists_socket
Touches-IsLive {b = b} {s} {s'} v x = record {
  valid = x.valid;
  distinct = rw (x.sockets) (v.distinct);
  lives = λ c e.
      let l = v.lives c (rw⁻¹ (x.sockets) e) in
      elim (Bool-cases (c == b)) [
        | inl own ↦ record {
          nonzero = l.nonzero;
          address = l.address;
          points = x.mapped c ∙ l.points;
          object = x.object;
          holds = ground (arith, x.socks c, own);
        }
        | inr other ↦ record {
          nonzero = l.nonzero;
          address = l.address;
          points = x.mapped c ∙ l.points;
          object = l.object;
          holds = ground (arith, x.socks c, other, l.holds);
        }
      ];
}

-- A call returns, and the sockets live on.
pub record Returns {A B : Type 0} (o : Option (B × Api A)) : Type 0 where
  pub value : B
  pub after : Api A
  pub runs : o ≡ some (value, after)
  pub live : IsLive after

pub failed-Returns :
    {A B : Type 0} (failure : B) (e : Errno) (s : Api A) → IsLive s → Returns (failed failure e s)
unfolding failed
failed-Returns failure e s v = record {
  value = failure;
  after = record s { errno = e };
  runs = refl;
  live = record {
    valid = v.valid;
    distinct = v.distinct;
    lives = λ b h.
        let l = v.lives b h in
        record {
          nonzero = l.nonzero;
          address = l.address;
          points = l.points;
          object = l.object;
          holds = l.holds;
        };
  };
}

pub pinned-Returns :
    {A B : Type 0} (b : ℕ) (failure : B) (call : S A B) (s : Api A)
    → IsLive s
    → (exists_socket b s.registry ≡ true → Returns (call s))
    → Returns (pinned b failure call s)
unfolding pinned
pinned-Returns b failure call s v known = elim (Bool-cases (b == 0)) [
  | inl null ↦ rw null (unfold failed in failed-Returns failure einval s v)
  | inr other ↦ elim (Bool-cases (exists_socket b s.registry)) [
    | inl listed ↦ rw (other, listed) (known listed)
    | inr gone ↦ rw (other, gone) (unfold failed in failed-Returns failure eidrm s v)
  ]
]

pub pinned-known :
    {A B : Type 0} (b : ℕ) (failure : B) (call : S A B) (s : Api A)
    → b ≢ 0
    → exists_socket b s.registry ≡ true
    → pinned b failure call s ≡ call s
unfolding pinned
pinned-known b failure call s nonzero listed =
    let other : (b == 0) ≡ false = ground (arith, nonzero) in rw (other, listed) refl

pub returned-Returns :
    {A : Type 0} {s : Api A} (b : ℕ) (k : Sock A) (o : Option ((ℤ × Errno × A) × Registry))
    → IsLive s
    → Reads s.registry o
    → Returns (returned b k s o)
unfolding returned
returned-Returns {s = s} b k o v (value, errno, adapter, e) = record {
  value = value;
  after = record s { errno = errno; socks = put s.socks b (some (record k { adapter = adapter })) };
  runs = rw e refl;
  live = Touches-IsLive {b = b} {s = s} v (record {
    valid = v.valid;
    sockets = refl;
    mapped = λ c. refl;
    object = record k { adapter = adapter };
    socks = put_lem s.socks b (some (record k { adapter = adapter }));
  });
}

pub put-Returns :
    {A : Type 0} {s : Api A} (b : ℕ) (k : Sock A) (r : Registry) (a : A) (errno : Errno)
    → IsLive s
    → IsValid r
    → r.sockets ≡ s.registry.sockets
    → ((c : ℕ) → r.sock_to_config c ≡ s.registry.sock_to_config c)
    → IsLive (record s {
      registry = r;
      errno = errno;
      socks = put s.socks b (some (record k { adapter = a }));
    })
put-Returns {s = s} b k r a errno v valid sockets mapped =
    Touches-IsLive {b = b} {s = s} v (record {
      valid = valid;
      sockets = sockets;
      mapped = mapped;
      object = record k { adapter = a };
      socks = put_lem s.socks b (some (record k { adapter = a }));
    })
