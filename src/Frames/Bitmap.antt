-- ===== src/Frames/Bitmap.antt =====
-- The bitmap as a set of frames: what `set_frame`, `clear_frame` and `test_frame` do to membership.
use jslk.Base.{
  ℕ, zero, suc, ◌-◌, ◌*◌, ◌/◌, ◌%◌, ◌^◌, ◌≤◌, ◌<◌, bit_and, bit_or, ◌≡◌, refl, ap, ◌∙◌, sym, true,
  false, arith, ◌==◌, if◌then◌else◌, inl, inr, Bool-cases, ==→eq, ==→ne, eq→==, ne→==, write, ◌↔◌,
}
use jslk.Base.Bits.{
  bit, bit-le-one, bit-bit_or, bit-bit_and, bit-pow_self, bit-pow_ne, bit-complement, bit_and-pow,
  bit_or-lt, bit_and-le,
}
use native.Mathlib.Nat.{one-le-pow, pow-le-pow_right}
use jslk.Frames.{FrameMap, page_size, not_bit, set_frame, clear_frame, test_frame}

-- 1 if frame `n` is marked as used, else 0.
unfoldable pub used : FrameMap → ℕ → ℕ
used m n = bit (m.frames (n / 32)) (n % 32)

-- Every cell of the bitmap is a 32-bit word.
abbrev pub AreWords : FrameMap → Type 0
AreWords m = (i : ℕ) → m.frames i < 2 ^ 32

-- A frame's number is its word and its place in the word.
same_place : (a b : ℕ) → a / 32 ≡ b / 32 → a % 32 ≡ b % 32 → a ≡ b
same_place a b p q = omega arith

pub pow-lt-word : (k : ℕ) → k < 32 → 2 ^ k < 2 ^ 32
pow-lt-word k h =
    let p : 2 ^ k ≤ 2 ^ 31 = pow-le-pow_right (omega arith) {j = 31} (omega arith) in omega arith

bit-set : (w k j : ℕ) → bit (bit_or w (2 ^ k)) j ≡ (if j == k then 1 else bit w j)
bit-set w k j = elim (Bool-cases (j == k)) [
  | inl e ↦ ground (
    arith,
    bit-bit_or w (2 ^ k) j,
    ap (bit (2 ^ k)) (==→eq j k e),
    bit-pow_self k,
    bit-le-one w j,
  )
  | inr e ↦ ground (arith, bit-bit_or w (2 ^ k) j, bit-pow_ne k j (==→ne j k e))
]

bit-clear :
    (w k j : ℕ) → k < 32 → j < 32 → bit (bit_and w (not_bit k)) j ≡ (if j == k then 0 else bit w j)
bit-clear w k j hk hj =
    let mask : bit (not_bit k) j ≡ 1 - bit (2 ^ k) j =
      bit-complement 32 (2 ^ k) j (pow-lt-word k hk) hj in
    elim (Bool-cases (j == k)) [
      | inl e ↦
          ground (
            arith,
            bit-bit_and w (not_bit k) j,
            mask,
            ap (bit (2 ^ k)) (==→eq j k e),
            bit-pow_self k,
          )
      | inr e ↦
          ground
            (arith, bit-bit_and w (not_bit k) j, mask, bit-pow_ne k j (==→ne j k e), bit-le-one w j)
    ]

-- A write to the word of frame `f` that changes its digit alone changes that frame alone.
bit-write :
    (frames : ℕ → ℕ) (f n v word : ℕ)
    → bit word (n % 32) ≡ (if n % 32 == f % 32 then v else bit (frames (f / 32)) (n % 32))
    → bit (write frames (f / 32) word (n / 32)) (n % 32)
      ≡ (if n == f then v else bit (frames (n / 32)) (n % 32))
bit-write frames f n v word h = elim (Bool-cases (n / 32 == f / 32)) [
  | inl e ↦
      let q : n / 32 ≡ f / 32 = ==→eq _ _ e in
      elim (Bool-cases (n % 32 == f % 32)) [
        | inl e' ↦
            let eq : (n == f) ≡ true = eq→== n f (same_place n f q (==→eq _ _ e')) in
            rw (e, eq) (h ∙ rw e')
        | inr e' ↦
            let ne : (n == f) ≡ false = ne→== n f (λ p. ==→ne _ _ e' (ap (λ (t : ℕ). t % 32) p)) in
            rw (e, ne) (h ∙ rw e' (ap (λ (t : ℕ). bit (frames t) (n % 32)) (sym q)))
      ]
  | inr e ↦
      let ne : (n == f) ≡ false = ne→== n f (λ p. ==→ne _ _ e (ap (λ (t : ℕ). t / 32) p)) in
      rw (e, ne)
]

-- `set_frame` marks the frame that holds the address, and no other.
pub used-set_frame :
    (m : FrameMap) (addr n : ℕ)
    → used (set_frame m addr) n ≡ (if n == addr / page_size then 1 else used m n)
unfolding used set_frame
used-set_frame m addr n =
    let f = addr / page_size in
    bit-write m.frames f n 1 _ (bit-set (m.frames (f / 32)) (f % 32) (n % 32))

-- `clear_frame` unmarks the frame that holds the address, and no other.
pub used-clear_frame :
    (m : FrameMap) (addr n : ℕ)
    → used (clear_frame m addr) n ≡ (if n == addr / page_size then 0 else used m n)
unfolding used clear_frame
used-clear_frame m addr n =
    let f = addr / page_size in
    bit-write m.frames f n 0 _
      (bit-clear (m.frames (f / 32)) (f % 32) (n % 32) (omega arith) (omega arith))

pub digit-zero : (d p : ℕ) → d ≤ 1 → 1 ≤ p → d * p ≡ 0 → d ≡ 0
digit-zero zero p h pos e = refl
digit-zero (suc d) p h pos e = absurd (grind arith)

-- `test_frame` is the digit of the frame that holds the address, in its place in the word: it is 0
-- exactly when the frame is not marked.
pub test_frame-used :
    (m : FrameMap) (addr : ℕ)
    → (test_frame m addr ≡ used m (addr / page_size) * 2 ^ (addr / page_size % 32))
      × ((test_frame m addr ≡ 0) ↔ (used m (addr / page_size) ≡ 0))
unfolding used test_frame
test_frame-used m addr =
    let f = addr / page_size in
    let e = bit_and-pow (m.frames (f / 32)) (f % 32) in
    let pos = one-le-pow (f % 32) 2 (omega arith) in
    (
      e,
      (
        (λ h. digit-zero _ _ (bit-le-one (m.frames (f / 32)) (f % 32)) pos (sym e ∙ h)),
        (λ h. e ∙ ap (λ (t : ℕ). t * 2 ^ (f % 32)) h ∙ omega arith),
      ),
    )

pub set_frame-AreWords : (m : FrameMap) (addr : ℕ) → AreWords m → AreWords (set_frame m addr)
unfolding set_frame
set_frame-AreWords m addr h i =
    let f = addr / page_size in
    let small =
      bit_or-lt 32 (m.frames (f / 32)) (2 ^ (f % 32)) (h (f / 32))
        (pow-lt-word (f % 32) (omega arith)) in
    ground (arith, h i)

pub clear_frame-AreWords : (m : FrameMap) (addr : ℕ) → AreWords m → AreWords (clear_frame m addr)
unfolding clear_frame
clear_frame-AreWords m addr h i =
    let w = m.frames (addr / page_size / 32) in
    ground (
      arith,
      h i,
      h (addr / page_size / 32),
      bit_and-le w w (not_bit (addr / page_size % 32)) (omega arith),
    )
