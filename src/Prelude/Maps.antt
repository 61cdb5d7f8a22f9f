-- ===== src/Prelude/Maps.antt =====
-- A map from keys to optional values as a function, and its update at one key.
use Prim.Native.Nat.{ℕ}
use mathlib.Core.Path.{◌≡◌}
use mathlib.Core.Logic.{◌≢◌}
use sensor_lib.Prelude.Tests.{◌==◌, if◌then◌else◌}
use sensor_lib.Prelude.Strings.{Text, text_eq, text_eq_refl, text_eq-ne}

module _ {ℓ} {V : Type ℓ} where
  -- keyed by a pointer or a number
  abbrev pub put : (ℕ → V) → ℕ → V → ℕ → V
  put m k v j = if k == j then v else m j

  -- keyed by a string
  abbrev pub put_text : (Text → V) → Text → V → Text → V
  put_text m k v j = if text_eq k j then v else m j

  pub put_text_self : (m : Text → V) (k : Text) (v : V) → put_text m k v k ≡ v
  put_text_self m k v = rw (text_eq_refl k)

  pub put_text_ne : (m : Text → V) (k j : Text) (v : V) → k ≢ j → put_text m k v j ≡ m j
  put_text_ne m k j v n = rw (text_eq-ne k j n)
