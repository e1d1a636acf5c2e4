-- ===== src/Frames/Search.antt =====
-- The search of the bitmap: `first_frame`, its loops over words and digits.
use jslk.Base.{
  ℕ, zero, suc, ◌+◌, ◌-◌, ◌*◌, ◌/◌, ◌%◌, ◌^◌, ◌≤◌, ◌<◌, bit_and, ◌≡◌, ap, ◌∙◌, sym, Option, none,
  some, arith, ◌==◌, inl, inr, Bool-cases, ==→eq, ==→ne, ltb, ltb→lt, ltb→le,
}
use jslk.Base.Bits.{bit, bit-le-one, bit_and-pow, bit-complement, bit_zero}
use native.Mathlib.Nat.{one-le-pow}
use jslk.Frames.{FrameMap, first_clear, first_in_words, first_frame}
use jslk.Frames.Bitmap.{used, digit-zero}

-- The digits of `w` from `j` up to `j + n`, and where the loop stops.
abbrev FirstClear : (w n j : ℕ) → Option ℕ → Type 0
FirstClear w n j none = (k : ℕ) → j ≤ k → k < j + n → bit w k ≡ 1
FirstClear w n j (some i) =
    (j ≤ i) × (i < j + n) × (bit w i ≡ 0) × ((k : ℕ) → j ≤ k → k < i → bit w k ≡ 1)

clear_test : (w j : ℕ) → (bit_and w (2 ^ j) == 0) ≡ (bit w j == 0)
clear_test w j = ground (
  arith,
  bit_and-pow w j,
  bit-le-one w j,
  one-le-pow j 2,
  digit-zero (bit w j) (2 ^ j),
  ap (λ (t : ℕ). t * 2 ^ j) {x = bit w j} {y = 0},
)

FirstClear-step :
    (w n j : ℕ) (o : Option ℕ) → bit w j ≡ 1 → FirstClear w n (j + 1) o → FirstClear w (suc n) j o
FirstClear-step w n j none full h = λ k lo hi. ground (arith, h k, ap (bit w) {x = k} {y = j})
FirstClear-step w n j (some i) full h =
    (omega arith, omega arith, h.2, λ k lo hi. ground (arith, h.3 k, ap (bit w) {x = k} {y = j}))

first_clear-FirstClear : (w n j : ℕ) → FirstClear w n j (first_clear w n j)
unfolding first_clear
first_clear-FirstClear w zero j = λ k lo hi. absurd (omega arith)
first_clear-FirstClear w (suc n) j = elim (Bool-cases (bit w j == 0)) [
  | inl e ↦
      rw (clear_test w j, e)
        (omega arith, omega arith, ==→eq _ _ e, λ k lo hi. absurd (omega arith))
  | inr e ↦
      rw (clear_test w j, e)
        (FirstClear-step w n j (first_clear w n (j + 1))
          (let ne = ==→ne _ _ e in omega (arith, bit-le-one w j))
          (first_clear-FirstClear w n (j + 1)))
]

-- What a search of the frames from `lo` up to `hi` finds: the lowest free one, or that there is
-- none.
abbrev pub FirstFree : FrameMap → (lo hi : ℕ) → Option ℕ → Type 0
FirstFree m lo hi none = (k : ℕ) → lo ≤ k → k < hi → used m k ≡ 1
FirstFree m lo hi (some f) =
    (lo ≤ f) × (f < hi) × (used m f ≡ 0) × ((k : ℕ) → lo ≤ k → k < f → used m k ≡ 1)

module _ (m : FrameMap) where
  used-word : (i j : ℕ) → j < 32 → used m (i * 32 + j) ≡ bit (m.frames i) j
  unfolding used
  used-word i j h =
      let q : (i * 32 + j) / 32 ≡ i = omega arith in
      let r : (i * 32 + j) % 32 ≡ j = omega arith in rw (q, r)

  -- The frames of word `i`, by their places in the word.
  used_in_word : (i k : ℕ) → i * 32 ≤ k → k < i * 32 + 32 → used m k ≡ bit (m.frames i) (k - i * 32)
  used_in_word i k lo hi =
      let e : i * 32 + (k - i * 32) ≡ k = omega arith in
      sym (ap (used m) e) ∙ used-word i (k - i * 32) (omega arith)

  full_word : (i j : ℕ) → m.frames i ≡ 2 ^ 32 - 1 → j < 32 → bit (m.frames i) j ≡ 1
  full_word i j e h = rw e (bit-complement 32 0 j (omega arith) h ∙ omega (arith, bit_zero j))

  FirstFree-step :
      (lo mid hi : ℕ) (o : Option ℕ)
      → lo ≤ mid
      → mid ≤ hi
      → ((k : ℕ) → lo ≤ k → k < mid → used m k ≡ 1)
      → FirstFree m mid hi o
      → FirstFree m lo hi o
  FirstFree-step lo mid hi none p q full h = λ k l u. elim (Bool-cases (ltb k mid)) [
    | inl e ↦ full k l (ltb→lt _ _ e)
    | inr e ↦ h k (ltb→le _ _ e) u
  ]
  FirstFree-step lo mid hi (some f) p q full h = (
    omega arith,
    omega arith,
    h.2,
    λ k l u. elim (Bool-cases (ltb k mid)) [
      | inl e ↦ full k l (ltb→lt _ _ e)
      | inr e ↦ h.3 k (ltb→le _ _ e) u
    ],
  )

  -- The frame that a word's free digit stands for, before any later word is looked at.
  FirstFree-of_word :
      (i j hi : ℕ)
      → FirstClear (m.frames i) 32 0 (some j)
      → i * 32 + 32 ≤ hi
      → hi ≤ 2 ^ 32
      → FirstFree m (i * 32) hi (some ((i * 4 * 8 + j) % 2 ^ 32))
  FirstFree-of_word i j hi h fits small =
      let e : (i * 4 * 8 + j) % 2 ^ 32 ≡ i * 32 + j = omega arith in
      rw e (
        omega arith,
        omega arith,
        used-word i j h.1 ∙ h.2,
        λ k l u. used_in_word i k l (omega arith) ∙ h.3 (k - i * 32) (omega arith) (omega arith),
      )

  skip_word :
      (i hi : ℕ) (o : Option ℕ)
      → (i + 1) * 32 ≤ hi
      → ((j : ℕ) → j < 32 → bit (m.frames i) j ≡ 1)
      → FirstFree m ((i + 1) * 32) hi o
      → FirstFree m (i * 32) hi o
  skip_word i hi o fits full =
      FirstFree-step (i * 32) ((i + 1) * 32) hi o (omega arith) fits
        λ k l u. used_in_word i k l (omega arith) ∙ full (k - i * 32) (omega arith)

  -- The result of a look at word `i`, the rest of the search being known.
  look :
      (i hi : ℕ) (o rest : Option ℕ)
      → (i + 1) * 32 ≤ hi
      → hi ≤ 2 ^ 32
      → FirstClear (m.frames i) 32 0 o
      → FirstFree m ((i + 1) * 32) hi rest
      → FirstFree m (i * 32) hi (elim o [ some j ↦ some ((i * 4 * 8 + j) % 2 ^ 32) | none ↦ rest ])
  look i hi (some j) rest fits small h r = FirstFree-of_word i j hi h (omega arith) small
  look i hi none rest fits small h r =
      skip_word i hi rest fits (λ j lt. h j (omega arith) (omega arith)) r

  first_in_words-FirstFree :
      (n i hi : ℕ)
      → (i + n) * 32 ≡ hi
      → hi ≤ 2 ^ 32
      → FirstFree m (i * 32) hi (first_in_words m.frames n i)
  unfolding first_in_words
  first_in_words-FirstFree zero i hi e small = λ k l u. absurd (omega arith)
  first_in_words-FirstFree (suc n) i hi e small =
      let rest = first_in_words-FirstFree n (i + 1) hi (omega arith) small in
      elim (Bool-cases (m.frames i == 0xFFFFFFFF)) [
        | inl full ↦ rw full (
            skip_word i hi (first_in_words m.frames n (i + 1)) (omega arith)
              (λ j lt. full_word i j (==→eq _ _ full) lt) rest)
        | inr some_free ↦ rw some_free (
            look i hi (first_clear (m.frames i) 32 0) (first_in_words m.frames n (i + 1))
              (omega arith) small (first_clear-FirstClear (m.frames i) 32 0) rest)
      ]

-- `first_frame` returns the lowest free frame of the frames in whole words, `nframes / 32 * 32` of
-- them, and falls off its end exactly when all of those are used.
pub first_frame-FirstFree :
    (m : FrameMap) → m.nframes < 2 ^ 32 → FirstFree m 0 (m.nframes / 32 * 32) (first_frame m)
unfolding first_frame
first_frame-FirstFree m small =
    first_in_words-FirstFree m (m.nframes / 32) 0 _ (omega arith) (omega arith)
