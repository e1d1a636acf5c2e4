-- ===== src/Base/Bits.antt =====
-- Binary digits of native numbers, and the laws of `&`, `|` and `~` in terms of them.
use Prim.Native.Nat.{
  ℕ, zero, suc, ◌+◌, ◌-◌, ◌*◌, ◌/◌, ◌%◌, ◌^◌, ◌≤◌, ◌<◌, min, max, bit_and, bit_or, digits,
  bit_and-bitwise, bit_or-bitwise,
}
use mathlib.Core.Path.{◌≡◌, refl, sym, ap, ap₂, ◌∙◌}
use mathlib.Core.Logic.{◌≢◌}
use native.Mathlib.Nat.{
  two-pow-succ, one-le-pow, mod-lt, mod-eq_of_lt, div-add-mod, div-div-eq-div-mul,
  mul-add-mod_self_left,
}
use native.Mathlib.Omega.{arith}

-- `bit a j` is digit `j` of `a`, lowest first.
unfoldable pub bit : ℕ → ℕ → ℕ
bit a zero = a % 2
bit a (suc j) = bit (a / 2) j

pub bit-le-one : (a j : ℕ) → bit a j ≤ 1
unfolding bit
bit-le-one a zero = omega arith
bit-le-one a (suc j) = bit-le-one (a / 2) j

-- The count of digits that the native recursion is given may be any that is large enough.
enough_digits :
    (z : ℕ → ℕ) (f : ℕ → ℕ → ℕ) (a n m b : ℕ) → a ≤ n → a ≤ m → digits z f n a b ≡ digits z f m a b
enough_digits z f zero zero zero b p q = refl
enough_digits z f zero zero (suc m) b p q = refl
enough_digits z f zero (suc n) zero b p q = refl
enough_digits z f zero (suc n) (suc m) b p q = refl
enough_digits z f (suc a) zero m b p q = absurd (omega arith)
enough_digits z f (suc a) (suc n) zero b p q = absurd (omega arith)
enough_digits z f (suc a) (suc n) (suc m) b p q =
    ap (λ (t : ℕ). t * 2 + f (suc a % 2) (b % 2))
      (enough_digits z f (suc a / 2) n m (b / 2) (omega arith) (omega arith))

bit_or_step : (a b : ℕ) → bit_or a b ≡ bit_or (a / 2) (b / 2) * 2 + max (a % 2) (b % 2)
bit_or_step zero b = omega (arith, bit_or-bitwise zero b, bit_or-bitwise (zero / 2) (b / 2))
bit_or_step (suc a) b = omega (
  arith,
  bit_or-bitwise (suc a) b,
  bit_or-bitwise (suc a / 2) (b / 2),
  enough_digits (λ y. y) max (suc a / 2) a (suc a / 2) (b / 2) (omega arith) (omega arith),
)

bit_and_step : (a b : ℕ) → bit_and a b ≡ bit_and (a / 2) (b / 2) * 2 + min (a % 2) (b % 2)
bit_and_step zero b = omega (arith, bit_and-bitwise zero b, bit_and-bitwise (zero / 2) (b / 2))
bit_and_step (suc a) b = omega (
  arith,
  bit_and-bitwise (suc a) b,
  bit_and-bitwise (suc a / 2) (b / 2),
  enough_digits (λ y. 0) min (suc a / 2) a (suc a / 2) (b / 2) (omega arith) (omega arith),
)

pub bit-bit_or : (a b j : ℕ) → bit (bit_or a b) j ≡ max (bit a j) (bit b j)
unfolding bit
bit-bit_or a b zero = omega (arith, bit_or_step a b)
bit-bit_or a b (suc j) =
    let half : bit_or a b / 2 ≡ bit_or (a / 2) (b / 2) = omega (arith, bit_or_step a b) in
    rw half (bit-bit_or (a / 2) (b / 2) j)

pub bit-bit_and : (a b j : ℕ) → bit (bit_and a b) j ≡ min (bit a j) (bit b j)
unfolding bit
bit-bit_and a b zero = omega (arith, bit_and_step a b)
bit-bit_and a b (suc j) =
    let half : bit_and a b / 2 ≡ bit_and (a / 2) (b / 2) = omega (arith, bit_and_step a b) in
    rw half (bit-bit_and (a / 2) (b / 2) j)

pub bit_zero : (j : ℕ) → bit 0 j ≡ 0
unfolding bit
bit_zero zero = refl
bit_zero (suc j) = bit_zero j

pub bit-pow_self : (k : ℕ) → bit (2 ^ k) k ≡ 1
unfolding bit
bit-pow_self zero = refl
bit-pow_self (suc k) =
    let half : 2 ^ suc k / 2 ≡ 2 ^ k = omega (arith, two-pow-succ k) in rw half (bit-pow_self k)

pub bit-pow_ne : (k j : ℕ) → j ≢ k → bit (2 ^ k) j ≡ 0
unfolding bit
bit-pow_ne zero zero h = absurd (h refl)
bit-pow_ne zero (suc j) h = bit_zero j
bit-pow_ne (suc k) zero h = omega (arith, two-pow-succ k)
bit-pow_ne (suc k) (suc j) h =
    let half : 2 ^ suc k / 2 ≡ 2 ^ k = omega (arith, two-pow-succ k) in
    rw half (bit-pow_ne k j (λ e. h (ap suc e)))

-- `~x` at a width `w`.
pub bit-complement : (w x j : ℕ) → x < 2 ^ w → j < w → bit (2 ^ w - 1 - x) j ≡ 1 - bit x j
unfolding bit
bit-complement zero x j h lt = absurd (omega arith)
bit-complement (suc w) x zero h lt = omega (arith, two-pow-succ w, one-le-pow w 2)
bit-complement (suc w) x (suc j) h lt =
    let half : (2 ^ suc w - 1 - x) / 2 ≡ 2 ^ w - 1 - x / 2 =
      omega (arith, two-pow-succ w, one-le-pow w 2) in
    rw half (bit-complement w (x / 2) j (omega (arith, two-pow-succ w)) (omega arith))

bit_and-zero_right : (k a : ℕ) → a ≤ k → bit_and a 0 ≡ 0
bit_and-zero_right k zero h = refl
bit_and-zero_right zero (suc a) h = absurd (omega arith)
bit_and-zero_right (suc k) (suc a) h =
    omega (arith, bit_and_step (suc a) 0, bit_and-zero_right k (suc a / 2) (omega arith))

-- `a & (1 << k)` is the digit at `k` in its place.
pub bit_and-pow : (a k : ℕ) → bit_and a (2 ^ k) ≡ bit a k * 2 ^ k
unfolding bit
bit_and-pow a zero =
    omega (arith, bit_and_step a 1, bit_and-zero_right (a / 2) (a / 2) (omega arith))
bit_and-pow a (suc k) =
    let half : 2 ^ suc k / 2 ≡ 2 ^ k = omega (arith, two-pow-succ k) in
    let even : 2 ^ suc k % 2 ≡ 0 = omega (arith, two-pow-succ k) in
    omega (
      arith,
      bit_and_step a (2 ^ suc k),
      ap (λ (t : ℕ). bit_and (a / 2) t) half,
      bit_and-pow (a / 2) k,
      ap (λ (t : ℕ). bit (a / 2) k * t) (two-pow-succ k),
    )

mod-double : (a m : ℕ) → 1 ≤ m → a % (m + m) ≡ (a / 2) % m * 2 + a % 2
mod-double a m h =
    let q = a / 2 / m in
    let r = (a / 2) % m in
    let small : r < m = mod-lt (a / 2) h in
    let whole : a ≡ (m + m) * q + (r * 2 + a % 2) = omega (arith, div-add-mod (a / 2) m) in
    ap (λ (t : ℕ). t % (m + m)) whole
    ∙ mul-add-mod_self_left (m + m) q (r * 2 + a % 2)
    ∙ mod-eq_of_lt (omega arith)

-- A mask of `k` low ones is the remainder by `2 ^ k`.
pub bit_and_mask : (a k : ℕ) → bit_and a (2 ^ k - 1) ≡ a % 2 ^ k
bit_and_mask a zero = omega (arith, bit_and-zero_right a a (omega arith))
bit_and_mask a (suc k) =
    let half : (2 ^ suc k - 1) / 2 ≡ 2 ^ k - 1 = omega (arith, two-pow-succ k, one-le-pow k 2) in
    omega (
      arith,
      bit_and_step a (2 ^ suc k - 1),
      ap (λ (t : ℕ). bit_and (a / 2) t) half,
      bit_and_mask (a / 2) k,
      two-pow-succ k,
      one-le-pow k 2,
      mod-double a (2 ^ k) (one-le-pow k 2 (omega arith)),
      ap (λ (t : ℕ). a % t) (two-pow-succ k),
    )

pub bit_or-lt : (k a b : ℕ) → a < 2 ^ k → b < 2 ^ k → bit_or a b < 2 ^ k
bit_or-lt zero a b p q = omega (arith, bit_or-bitwise zero zero, ap₂ bit_or a0 b0)
  where
    a0 : a ≡ 0
    a0 = omega arith

    b0 : b ≡ 0
    b0 = omega arith
bit_or-lt (suc k) a b p q = omega (
  arith,
  bit_or_step a b,
  two-pow-succ k,
  bit_or-lt k (a / 2) (b / 2) (omega (arith, two-pow-succ k)) (omega (arith, two-pow-succ k)),
)

pub bit_and-le : (k a b : ℕ) → a ≤ k → bit_and a b ≤ a
bit_and-le zero zero b h = omega (arith, bit_and-bitwise zero b)
bit_and-le zero (suc a) b h = absurd (omega arith)
bit_and-le (suc k) zero b h = omega (arith, bit_and-bitwise zero b)
bit_and-le (suc k) (suc a) b h =
    omega (arith, bit_and_step (suc a) b, bit_and-le k (suc a / 2) (b / 2) (omega arith))

bit_and-double : (a b : ℕ) → bit_and a (2 * b) ≡ bit_and (a / 2) b * 2
bit_and-double a b =
    let half : 2 * b / 2 ≡ b = omega arith in
    omega (arith, bit_and_step a (2 * b), ap (λ (t : ℕ). bit_and (a / 2) t) half)

bit_and-shifted : (k a mask : ℕ) → bit_and a (mask * 2 ^ k) ≡ bit_and (a / 2 ^ k) mask * 2 ^ k
bit_and-shifted zero a mask = ground arith
bit_and-shifted (suc k) a mask =
    let twice : mask * 2 ^ suc k ≡ 2 * (mask * 2 ^ k) =
      omega (arith, ap (λ (t : ℕ). mask * t) (two-pow-succ k)) in
    let high : a / 2 ^ suc k ≡ a / 2 / 2 ^ k =
      sym
        (div-div-eq-div-mul a 2 (2 ^ k) ∙ ap (λ (t : ℕ). a / t) (omega (arith, two-pow-succ k))) in
    ap (bit_and a) twice
    ∙ bit_and-double a (mask * 2 ^ k)
    ∙ ap (λ (t : ℕ). t * 2) (bit_and-shifted k (a / 2) mask)
    ∙ omega (
      arith,
      ap (λ (t : ℕ). bit_and t mask * 2 ^ suc k) high,
      ap (λ (t : ℕ). bit_and (a / 2 / 2 ^ k) mask * t) (two-pow-succ k),
    )

-- `x & 0xFFFFF000` is the start of the page of `x`.
pub bit_and-page : (x : ℕ) → x < 2 ^ 32 → bit_and x 0xFFFFF000 ≡ x / 0x1000 * 0x1000
bit_and-page x h =
    bit_and-shifted 12 x 0xFFFFF
    ∙ ap (λ (t : ℕ). t * 0x1000) (bit_and_mask (x / 0x1000) 20 ∙ mod-eq_of_lt (omega arith))

-- The same with a mask of 64 bits.
pub bit_and-page64 : (x : ℕ) → x < 2 ^ 32 → bit_and x 0xFFFFFFFFFFFFF000 ≡ x / 0x1000 * 0x1000
bit_and-page64 x h =
    bit_and-shifted 12 x 0xFFFFFFFFFFFFF
    ∙ ap (λ (t : ℕ). t * 0x1000) (bit_and_mask (x / 0x1000) 52 ∙ mod-eq_of_lt (omega arith))
