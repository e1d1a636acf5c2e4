-- ===== src/Base/Memory.antt =====
-- Memory as bytes by address, and the 32-bit little-endian words in it.
use Prim.Native.Nat.{ℕ, ◌+◌, ◌*◌, ◌/◌, ◌%◌, ◌^◌, ◌≤◌, ◌<◌}
use mathlib.Core.Path.{refl, ◌≡◌}
use mathlib.Core.Logic.{◌≢◌, ◌⊎◌}
use native.Mathlib.Omega.{arith}
use jslk.Base.Tests.{◌==◌, if◌then◌else◌}

abbrev pub Memory : Type 0
Memory = ℕ → ℕ

unfoldable pub load32 : Memory → ℕ → ℕ
load32 m a = m a + 256 * m (a + 1) + 65536 * m (a + 2) + 16777216 * m (a + 3)

unfoldable pub store8 : Memory → ℕ → ℕ → Memory
store8 m a v j = if j == a then v else m j

unfoldable pub store32 : Memory → ℕ → ℕ → Memory
store32 m a v j =
    if j == a
    then v % 256
    else if j == a + 1
    then v / 256 % 256
    else if j == a + 2
    then v / 65536 % 256
    else if j == a + 3
    then v / 16777216 % 256
    else m j

-- Two objects of `n` and `k` bytes at `a` and `b` do not overlap.
abbrev pub Apart : (a n b k : ℕ) → Type 0
Apart a n b k = (a + n ≤ b) ⊎ (b + k ≤ a)

pub store32_outside : (m : Memory) (a v j : ℕ) → Apart a 4 j 1 → store32 m a v j ≡ m j
unfolding store32
store32_outside m a v j h = ground arith

pub load32-store32_self : (m : Memory) (a v : ℕ) → v < 2 ^ 32 → load32 (store32 m a v) a ≡ v
unfolding load32 store32
load32-store32_self m a v h = ground arith

pub load32-store32-Apart :
    (m : Memory) (a v b : ℕ) → Apart a 4 b 4 → load32 (store32 m a v) b ≡ load32 m b
unfolding load32
load32-store32-Apart m a v b h = omega (
  arith,
  store32_outside m a v b (omega arith),
  store32_outside m a v (b + 1) (omega arith),
  store32_outside m a v (b + 2) (omega arith),
  store32_outside m a v (b + 3) (omega arith),
)

pub load32-store8-Apart :
    (m : Memory) (a v b : ℕ) → Apart a 1 b 4 → load32 (store8 m a v) b ≡ load32 m b
unfolding load32 store8
load32-store8-Apart m a v b h = ground arith

pub store8_self : (m : Memory) (a v : ℕ) → store8 m a v a ≡ v
unfolding store8
store8_self m a v = ground arith

pub store8_outside : (m : Memory) (a v j : ℕ) → j ≢ a → store8 m a v j ≡ m j
unfolding store8
store8_outside m a v j h = ground arith

-- A word whose four bytes are as before is as before.
pub load32_same :
    (m m' : Memory) (a : ℕ) → ((j : ℕ) → a ≤ j → j < a + 4 → m' j ≡ m j) → load32 m' a ≡ load32 m a
unfolding load32
load32_same m m' a same =
    rw
      (
        same a (omega arith) (omega arith),
        same (a + 1) (omega arith) (omega arith),
        same (a + 2) (omega arith) (omega arith),
        same (a + 3) (omega arith) (omega arith),
      )
      refl
