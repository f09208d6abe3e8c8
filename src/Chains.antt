-- ===== src/Chains.antt =====
-- What the result of a chain of fallible steps says of the steps.
use fio_ssd.Prelude.{◌≡◌, refl, Option, none, some}
use fio_ssd.RandMap.{◌>>=◌}

-- A chain that gives a result gave one before.
pub bind_some {ℓ κ} :
    {A : Type ℓ} {B : Type κ} (o : Option A) (k : A → Option B) (y : B)
    → (o >>= k) ≡ some y
    → (x : A) × (o ≡ some x) × (k x ≡ some y)
bind_some none k y e = absurd (cc e)
bind_some (some x) k y e = (x, refl, e)

pub some_eq {ℓ} : {A : Type ℓ} {a b : A} → some a ≡ some b → a ≡ b
some_eq e = cc e
