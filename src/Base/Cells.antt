-- ===== src/Base/Cells.antt =====
-- Arrays of two.
use Prim.Native.Nat.{ℕ}
use linux_interface_test.Base.Tests.{◌==◌, if◌then◌else◌}

-- An array of two.
pub record Two {ℓ} (A : Type ℓ) : Type ℓ where
  pub first : A
  pub second : A

abbrev pub cell {ℓ} : {A : Type ℓ} → Two A → ℕ → A
cell t i = if i == 0 then t.first else t.second

abbrev pub put {ℓ} : {A : Type ℓ} → Two A → ℕ → A → Two A
put t i a = if i == 0 then record t { first = a } else record t { second = a }
