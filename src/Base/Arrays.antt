-- ===== src/Base/Arrays.antt =====
-- A C array, or a region of memory, as a function of the index. A write past the end of an object
-- is a write of the cell behind it.
use Prim.Native.Nat.{ℕ}
use mathlib.Core.Path.{◌≡◌}
use mathlib.Core.Logic.{◌≢◌}
use native.Mathlib.Omega.{arith}
use jslk.Base.Tests.{◌==◌, if◌then◌else◌}

module _ {ℓ} {A : Type ℓ} where
  abbrev pub write : (ℕ → A) → ℕ → A → ℕ → A
  write f i v j = if j == i then v else f j

  pub write_self : (f : ℕ → A) (i : ℕ) (v : A) → write f i v i ≡ v
  write_self f i v = ground arith

  pub write_ne : (f : ℕ → A) (i j : ℕ) (v : A) → j ≢ i → write f i v j ≡ f j
  write_ne f i j v h = ground arith
