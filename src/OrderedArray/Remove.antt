-- ===== src/OrderedArray/Remove.antt =====
-- `removeOrderedArray` and `lookupOrderedArray` against the list.
use jslk.Base.{
  ℕ, zero, suc, ◌+◌, ◌-◌, ◌%◌, ◌^◌, ◌≤◌, ◌<◌, ◌≡◌, ap, ◌∙◌, sym, List, [], ◌∷◌, arith, ltb, leb,
  ◌==◌, if◌then◌else◌, write, ◌&&◌, get_or, Bool-cases, ltb→lt, inl, inr,
}
use jslk.Base.Outcome.{done, panic}
use jslk.OrderedArray.{OrderedArray, lookup, close_gap, remove}
use jslk.OrderedArray.View.{items, items-ext, items-offset, erase_at, IsSorted, NotAbove}
use mathlib.Core.Bool.{Bool}

close_gap_cell :
    (n i j : ℕ) (f : ℕ → ℕ)
    → close_gap n i f j ≡ (if leb i j && ltb j (i + n) then f (j + 1) else f j)
unfolding close_gap
close_gap_cell zero i j f = ground arith
close_gap_cell (suc n) i j f = ground (arith, close_gap_cell n (i + 1) j (write f i (f (i + 1))))

close_gap-erase_at :
    (f : ℕ → ℕ) (k s m i n : ℕ)
    → i ≡ s + k
    → k ≤ m
    → i + n ≡ s + suc m
    → items (close_gap n i f) s m ≡ erase_at k (items f s (suc m))
unfolding items erase_at
close_gap-erase_at f zero s m i n at h e =
    items-ext (close_gap n i f) (λ j. f (j + 1)) s m
      (λ j lo hi. ground (arith, close_gap_cell n i j f))
    ∙ items-offset f s m
close_gap-erase_at f (suc k) s zero i n at h e = absurd (omega arith)
close_gap-erase_at f (suc k) s (suc m) i n at h e =
    let head : close_gap n i f s ≡ f s = ground (arith, close_gap_cell n i s f) in
    rw head (
      ap (λ t. f s ∷ t)
        (close_gap-erase_at f k (s + 1) m i n (omega arith) (omega arith) (omega arith)))

-- `removeOrderedArray` of an index in range takes the item at that index out of the list that the
-- array holds, and nothing else.
pub remove-erase_at :
    (a : OrderedArray) (i : ℕ)
    → i < a.size
    → a.size < 2 ^ 32
    → items (remove i a).array 0 (remove i a).size ≡ erase_at i (items a.array 0 a.size)
unfolding remove
remove-erase_at a i h small =
    let size : (a.size + 2 ^ 32 - 1) % 2 ^ 32 ≡ a.size - 1 = omega arith in
    let whole : suc (a.size - 1) ≡ a.size = omega arith in
    rw size (
      close_gap-erase_at a.array i 0 (a.size - 1) i (a.size - i) (omega arith) (omega arith)
        (omega arith)
      ∙ ap (λ n. erase_at i (items a.array 0 n)) whole)

-- `removeOrderedArray` does not check its index: out of range it leaves the cells alone and still
-- counts one item less, so the last item is lost, and an empty array gets the size 2^32 - 1.
pub remove_out_of_range :
    (a : OrderedArray) (i : ℕ)
    → a.size ≤ i
    → a.size < 2 ^ 32
    → ((remove i a).array ≡ a.array)
      × ((remove i a).size ≡ (if a.size == 0 then 2 ^ 32 - 1 else a.size - 1))
unfolding remove close_gap
remove_out_of_range a i h small =
    let none_left : a.size - i ≡ 0 = omega arith in (rw (none_left, close_gap), ground arith)

pub items-get_or : (f : ℕ → ℕ) (s n i d : ℕ) → i < n → get_or (items f s n) i d ≡ f (s + i)
unfolding items
items-get_or f s zero i d h = absurd (omega arith)
items-get_or f s (suc n) zero d h = ap f (omega arith)
items-get_or f s (suc n) (suc i) d h =
    items-get_or f (s + 1) n i d (omega arith) ∙ ap f (omega arith)

-- `lookupOrderedArray` returns the item at an index in range, and panics at any other.
pub lookup-items :
    (a : OrderedArray) (i : ℕ)
    → lookup i a ≡ (if ltb i a.size then done (get_or (items a.array 0 a.size) i 0) else panic)
unfolding lookup
lookup-items a i = elim (Bool-cases (ltb i a.size)) [
  | inl h ↦
      rw h (
        ap done (sym (items-get_or a.array 0 a.size i 0 (ltb→lt _ _ h) ∙ ap a.array (omega arith))))
  | inr h ↦ rw h
]

NotAbove-erase_at :
    (lt : ℕ → ℕ → Bool) (x i : ℕ) (ys : List ℕ) → NotAbove lt x ys → NotAbove lt x (erase_at i ys)
unfolding erase_at
NotAbove-erase_at lt x i [] h = tt
NotAbove-erase_at lt x zero (y ∷ ys) h = h.1
NotAbove-erase_at lt x (suc i) (y ∷ ys) h = (h.0, NotAbove-erase_at lt x i ys h.1)

erase_at-IsSorted :
    (lt : ℕ → ℕ → Bool) (i : ℕ) (ys : List ℕ) → IsSorted lt ys → IsSorted lt (erase_at i ys)
unfolding erase_at
erase_at-IsSorted lt i [] h = tt
erase_at-IsSorted lt zero (y ∷ ys) h = h.1
erase_at-IsSorted lt (suc i) (y ∷ ys) h =
    (NotAbove-erase_at lt y i ys h.0, erase_at-IsSorted lt i ys h.1)

-- `removeOrderedArray` of an index in range keeps the array sorted.
pub remove-IsSorted :
    (a : OrderedArray) (i : ℕ) (lt : ℕ → ℕ → Bool)
    → i < a.size
    → a.size < 2 ^ 32
    → IsSorted lt (items a.array 0 a.size)
    → IsSorted lt (items (remove i a).array 0 (remove i a).size)
remove-IsSorted a i lt h small s =
    rw (remove-erase_at a i h small) (erase_at-IsSorted lt i (items a.array 0 a.size) s)
