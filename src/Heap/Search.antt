-- ===== src/Heap/Search.antt =====
-- The search of the index: `find_smallest_hole`.
use jslk.Base.{
  ℕ, zero, suc, ap, inl, inr, Bool, true, false, Option, none, some, arith, ltb, ltb→lt, ltb→le,
  ==→eq, ==→ne, Bool-cases, ◌+◌, ◌≤◌, ◌<◌, ◌≡◌, ◌∙◌, ◌==◌,
}
use jslk.Base.Memory.{Memory}
use jslk.OrderedArray.View.{items, IsSorted, NotAbove}
use jslk.Heap.{Heap, header_size, header_t_less_than, fits, find_from, find_smallest_hole}

-- What a search of the entries from `lo` up to `hi` finds.
abbrev pub FirstFit : Memory → (ℕ → ℕ) → (size page_align lo hi : ℕ) → Option ℕ → Type 0
FirstFit m array size page_align lo hi none =
    (k : ℕ) → lo ≤ k → k < hi → fits m size page_align (array k) ≡ false
FirstFit m array size page_align lo hi (some i) =
    (lo ≤ i)
    × (i < hi)
    × (fits m size page_align (array i) ≡ true)
    × ((k : ℕ) → lo ≤ k → k < i → fits m size page_align (array k) ≡ false)

module _ (m : Memory) (array : ℕ → ℕ) (size page_align : ℕ) where
  FirstFit-step :
      (lo hi : ℕ) (o : Option ℕ)
      → lo < hi
      → fits m size page_align (array lo) ≡ false
      → FirstFit m array size page_align (lo + 1) hi o
      → FirstFit m array size page_align lo hi o
  FirstFit-step lo hi none lt no_fit h = λ k l u. elim (Bool-cases (k == lo)) [
    | inl e ↦ rw (==→eq k lo e) no_fit
    | inr e ↦ h k (let ne = ==→ne k lo e in omega arith) u
  ]
  FirstFit-step lo hi (some i) lt no_fit h = (
    omega arith,
    h.1,
    h.2,
    λ k l u. elim (Bool-cases (k == lo)) [
      | inl e ↦ rw (==→eq k lo e) no_fit
      | inr e ↦ h.3 k (let ne = ==→ne k lo e in omega arith) u
    ],
  )

  find_from-FirstFit :
      (n lo hi : ℕ)
      → lo + n ≡ hi
      → FirstFit m array size page_align lo hi (find_from m array size page_align n lo)
  unfolding find_from
  find_from-FirstFit zero lo hi e = λ k l u. absurd (omega arith)
  find_from-FirstFit (suc n) lo hi e = elim (Bool-cases (fits m size page_align (array lo))) [
    | inl fit ↦ rw fit (omega arith, omega arith, fit, λ k l u. absurd (omega arith))
    | inr no_fit ↦ rw no_fit (
        FirstFit-step lo hi (find_from m array size page_align n (lo + 1)) (omega arith) no_fit
          (find_from-FirstFit n (lo + 1) hi (omega arith)))
  ]

-- `find_smallest_hole` returns the first entry of the index that fits the request, and -1 exactly
-- when no entry does.
pub find_smallest_hole-FirstFit :
    (size page_align : ℕ) (h : Heap)
    → FirstFit h.memory h.index.array size page_align 0 h.index.size
        (find_smallest_hole size page_align h)
unfolding find_smallest_hole
find_smallest_hole-FirstFit size page_align h =
    find_from-FirstFit h.memory h.index.array size page_align h.index.size 0 h.index.size
      (omega arith)

-- In a sorted array an entry is not less than one before it.
NotAbove-cell :
    (lt : ℕ → ℕ → Bool) (f : ℕ → ℕ) (x s n j : ℕ)
    → NotAbove lt x (items f s n)
    → j < n
    → lt (f (s + j)) x ≡ false
unfolding items
NotAbove-cell lt f x s zero j h le = absurd (omega arith)
NotAbove-cell lt f x s (suc n) zero h le =
    ap (λ (t : ℕ). lt (f t) x) {x = s + 0} {y = s} (omega arith) ∙ h.0
NotAbove-cell lt f x s (suc n) (suc j) h le =
    ap (λ (t : ℕ). lt (f t) x) {x = s + suc j} {y = s + 1 + j} (omega arith)
    ∙ NotAbove-cell lt f x (s + 1) n j h.1 (omega arith)

IsSorted-cells :
    (lt : ℕ → ℕ → Bool) (f : ℕ → ℕ) (s n i j : ℕ)
    → IsSorted lt (items f s n)
    → i < j
    → j < n
    → lt (f (s + j)) (f (s + i)) ≡ false
unfolding items
IsSorted-cells lt f s zero i j h ij jn = absurd (omega arith)
IsSorted-cells lt f s (suc n) zero zero h ij jn = absurd (omega arith)
IsSorted-cells lt f s (suc n) (suc i) zero h ij jn = absurd (omega arith)
IsSorted-cells lt f s (suc n) zero (suc j) h ij jn =
    ap (λ (t : ℕ). lt (f (s + suc j)) (f t)) {x = s + 0} {y = s} (omega arith)
    ∙ ap (λ (t : ℕ). lt (f t) (f s)) {x = s + suc j} {y = s + 1 + j} (omega arith)
    ∙ NotAbove-cell lt f (f s) (s + 1) n j h.0 (omega arith)
IsSorted-cells lt f s (suc n) (suc i) (suc j) h ij jn =
    ap (λ (t : ℕ). lt (f (s + suc j)) (f t)) {x = s + suc i} {y = s + 1 + i} (omega arith)
    ∙ ap (λ (t : ℕ). lt (f t) (f (s + 1 + i))) {x = s + suc j} {y = s + 1 + j} (omega arith)
    ∙ IsSorted-cells lt f (s + 1) n i j h.1 (omega arith) (omega arith)

-- With the index sorted by size, the hole that `find_smallest_hole` picks for a request that need
-- not be aligned is large enough, and no hole of the index that is large enough is smaller.
pub find_smallest_hole_least :
    (size i k : ℕ) (h : Heap)
    → IsSorted (header_t_less_than h.memory) (items h.index.array 0 h.index.size)
    → find_smallest_hole size 0 h ≡ some i
    → k < h.index.size
    → size ≤ header_size h.memory (h.index.array k)
    → (size ≤ header_size h.memory (h.index.array i))
      × (header_size h.memory (h.index.array i) ≤ header_size h.memory (h.index.array k))
unfolding fits header_t_less_than
find_smallest_hole_least size i k h sorted found inside large =
    let m = h.memory in
    let array = h.index.array in
    let first : FirstFit m array size 0 0 h.index.size (some i) =
      rw found at (find_smallest_hole-FirstFit size 0 h) in
    let enough : size ≤ header_size m (array i) = ground (arith, first.2) in
    (
      enough,
      (elim (Bool-cases (ltb i k)) [
        | inl later ↦ ground (
          arith,
          IsSorted-cells (header_t_less_than m) array 0 h.index.size i k sorted (ltb→lt i k later)
              inside,
        )
        | inr earlier ↦ elim (Bool-cases (k == i)) [
          | inl same ↦ rw (==→eq k i same) (omega arith)
          | inr apart ↦
              let before : k < i =
                (let ne = ==→ne k i apart in omega (arith, ltb→le i k earlier)) in
              absurd (ground (arith, first.3 k (omega arith) before))
        ]
      ]),
    )
