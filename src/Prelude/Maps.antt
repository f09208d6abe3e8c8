-- ===== src/Prelude/Maps.antt =====
-- Functions from numbers as memories and tables, changed at one place; a list without one number.
use Prim.Native.Nat.{ℕ}
use mathlib.Core.Path.{◌≡◌, refl, sym}
use mathlib.Core.Logic.{◌≢◌}
use mathlib.Core.List.{List, [], ◌∷◌}
use fio_ssd.Prelude.Tests.{◌==◌, ==_iff, ==_iff_ne, if◌then◌else◌}

-- `f[i] = a`
abbrev pub update {ℓ} : {A : Type ℓ} → (ℕ → A) → ℕ → A → (ℕ → A)
update f i a j = if i == j then a else f j

abbrev pub remove : ℕ → List ℕ → List ℕ
remove a [] = []
remove a (x ∷ xs) = if a == x then remove a xs else x ∷ remove a xs

pub update_self {ℓ} : {A : Type ℓ} (f : ℕ → A) (i : ℕ) (a : A) → update f i a i ≡ a
update_self f i a = rw ((==_iff i i).1 refl) refl

pub update_other {ℓ} : {A : Type ℓ} (f : ℕ → A) (i j : ℕ) (a : A) → j ≢ i → update f i a j ≡ f j
update_other f i j a ne = rw ((==_iff_ne i j).1 (λ e. ne (sym e))) refl
