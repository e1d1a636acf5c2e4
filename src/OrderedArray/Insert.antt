-- ===== src/OrderedArray/Insert.antt =====
-- `insertOrderedArray` against insertion into a sorted list.
use jslk.Base.{
  ℕ, zero, suc, ◌+◌, ◌-◌, ◌%◌, ◌^◌, ◌≤◌, ◌<◌, ◌≡◌, refl, ap, ◌∙◌, sym, inl, inr, Bool, true, false,
  none, some, List, [], ◌∷◌, arith, ltb, leb, ◌==◌, if◌then◌else◌, write, Bool-cases, ◌&&◌,
}
use jslk.Base.Outcome.{done, panic}
use jslk.OrderedArray.{OrderedArray, scan, shift, insert_at, insert}
use jslk.OrderedArray.View.{
  items, items-ext, items-offset, insert_sorted, NotAbove, IsSorted, IsOrder, occurrences,
}

-- What the shift leaves in cell `j`.
shift_cell :
    (n i tmp j : ℕ) (f : ℕ → ℕ)
    → shift n i tmp f j
      ≡ (if ltb i j && leb j (i + n) then (if j == i + 1 then tmp else f (j - 1)) else f j)
unfolding shift
shift_cell zero i tmp j f = ground arith
shift_cell (suc n) i tmp j f =
    ground (arith, shift_cell n (i + 1) (f (i + 1)) j (write f (i + 1) tmp))

-- Cell `j` after `item` has been written at `p`: the cells from `p` on move up by one.
insert_at_cell :
    (f : ℕ → ℕ) (size item p j : ℕ)
    → p ≤ size
    → insert_at f size item p j
      ≡ (if ltb j p then f j else if j == p then item else if leb j size then f (j - 1) else f j)
unfolding insert_at
insert_at_cell f size item p j h = elim (Bool-cases (p == size)) [
  | inl e ↦ ground arith
  | inr e ↦ ground (arith, shift_cell (size - p) p (f p) j (write f p item))
]

module _ (lt : ℕ → ℕ → Bool) (f : ℕ → ℕ) (item : ℕ) where
  scan_bounds : (n i : ℕ) → (i ≤ scan lt f item n i) × (scan lt f item n i ≤ i + n)
  unfolding scan
  scan_bounds zero i = omega arith
  scan_bounds (suc n) i = ground (arith, scan_bounds n (i + 1))

  scan-suc_less :
      (n i : ℕ) → lt (f i) item ≡ true → scan lt f item (suc n) i ≡ scan lt f item n (i + 1)
  unfolding scan
  scan-suc_less n i h = rw h

  scan-suc_not_less : (n i : ℕ) → lt (f i) item ≡ false → scan lt f item (suc n) i ≡ i
  unfolding scan
  scan-suc_not_less n i h = rw h

  insert_from :
      (n i size p : ℕ)
      → i + n ≡ size
      → p ≡ scan lt f item n i
      → items (insert_at f size item p) i (suc n) ≡ insert_sorted lt item (items f i n)
  unfolding scan items insert_sorted
  insert_from zero i size p e at =
      ap (λ (t : ℕ). t ∷ []) (ground (arith, insert_at_cell f size item p i (omega arith)))
  insert_from (suc n) i size p e at = elim (Bool-cases (lt (f i) item)) [
    | inl less ↦
        let at' : p ≡ scan lt f item n (i + 1) = at ∙ scan-suc_less n i less in
        let bounds = scan_bounds n (i + 1) in
        let head : insert_at f size item p i ≡ f i =
          ground (arith, insert_at_cell f size item p i (omega arith)) in
        rw (less, head) (ap (λ t. f i ∷ t) (insert_from n (i + 1) size p (omega arith) at'))
    | inr no_less ↦
        let at' : p ≡ i = at ∙ scan-suc_not_less n i no_less in
        let head : insert_at f size item p i ≡ item =
          ground (arith, insert_at_cell f size item p i (omega arith)) in
        rw (no_less, head)
          (ap (λ t. item ∷ t)
            (sym (items-offset (insert_at f size item p) i (suc n))
              ∙ items-ext (λ k. insert_at f size item p (k + 1)) f i (suc n)
                  λ k lo hi. ground (arith, insert_at_cell f size item p (k + 1) (omega arith))))
  ]

-- `insertOrderedArray` makes the array hold the list with the item put before the first element
-- that is not less than it, one longer, if the array has a predicate and its size is below 2^32 -
-- 1.
pub insert-insert_sorted :
    (a : OrderedArray) (item : ℕ) (lt : ℕ → ℕ → Bool)
    → a.less_than ≡ some lt
    → a.size + 1 < 2 ^ 32
    → (a' : OrderedArray) × (insert a item ≡ done a')
      × (a'.size ≡ a.size + 1)
      × (items a'.array 0 a'.size ≡ insert_sorted lt item (items a.array 0 a.size))
unfolding insert
insert-insert_sorted a item lt h small = (
  record a {
    array = insert_at a.array a.size item (scan lt a.array item a.size 0);
    size = (a.size + 1) % 2 ^ 32;
  },
  ground arith,
  omega arith,
  (let grown : (a.size + 1) % 2 ^ 32 ≡ suc a.size = omega arith in
      rw grown (insert_from lt a.array item a.size 0 a.size _ (omega arith) refl)),
)

module _ {lt : ℕ → ℕ → Bool} (o : IsOrder lt) where
  NotAbove-insert_sorted :
      (x y : ℕ) (ys : List ℕ)
      → lt x y ≡ false
      → NotAbove lt y ys
      → NotAbove lt y (insert_sorted lt x ys)
  unfolding insert_sorted
  NotAbove-insert_sorted x y [] h above = (h, tt)
  NotAbove-insert_sorted x y (z ∷ zs) h above = elim (Bool-cases (lt z x)) [
    | inl less ↦ rw less (above.0, NotAbove-insert_sorted x y zs h above.1)
    | inr no_less ↦ rw no_less (h, above)
  ]

  NotAbove-trans : (x y : ℕ) (ys : List ℕ) → lt y x ≡ false → NotAbove lt y ys → NotAbove lt x ys
  NotAbove-trans x y [] h above = tt
  NotAbove-trans x y (z ∷ zs) h above =
      (o.transitive x y z h above.0, NotAbove-trans x y zs h above.1)

  insert_sorted-IsSorted :
      (x : ℕ) (ys : List ℕ) → IsSorted lt ys → IsSorted lt (insert_sorted lt x ys)
  unfolding insert_sorted
  insert_sorted-IsSorted x [] s = (tt, tt)
  insert_sorted-IsSorted x (y ∷ ys) s = elim (Bool-cases (lt y x)) [
    | inl less ↦
        rw less (
          NotAbove-insert_sorted x y ys (o.asymmetric y x less) s.0,
          insert_sorted-IsSorted x ys s.1,
        )
    | inr no_less ↦ rw no_less ((no_less, NotAbove-trans x y ys no_less s.0), s)
  ]

pub occurrences-insert_sorted :
    (lt : ℕ → ℕ → Bool) (v x : ℕ) (ys : List ℕ)
    → occurrences v (insert_sorted lt x ys) ≡ (if v == x then 1 else 0) + occurrences v ys
unfolding insert_sorted occurrences
occurrences-insert_sorted lt v x [] = refl
occurrences-insert_sorted lt v x (y ∷ ys) = ground (arith, occurrences-insert_sorted lt v x ys)

-- With a predicate that is an order, `insertOrderedArray` keeps the array sorted, and it then holds
-- the item once more than before and every other value as often as before.
pub insert-IsSorted :
    (a : OrderedArray) (item : ℕ) (lt : ℕ → ℕ → Bool)
    → a.less_than ≡ some lt
    → IsOrder lt
    → a.size + 1 < 2 ^ 32
    → IsSorted lt (items a.array 0 a.size)
    → (a' : OrderedArray) × (insert a item ≡ done a')
      × IsSorted lt (items a'.array 0 a'.size)
      × ((v : ℕ)
          → occurrences v (items a'.array 0 a'.size)
            ≡ (if v == item then 1 else 0) + occurrences v (items a.array 0 a.size))
insert-IsSorted a item lt h o small s =
    let (a', run, _, eq) = insert-insert_sorted a item lt h small in
    (
      a',
      run,
      rw eq (insert_sorted-IsSorted o item (items a.array 0 a.size) s),
      (λ v. rw eq (occurrences-insert_sorted lt v item (items a.array 0 a.size))),
    )

-- `insertOrderedArray` asserts that the array has a predicate.
pub insert-panic : (a : OrderedArray) (item : ℕ) → a.less_than ≡ none → insert a item ≡ panic
unfolding insert
insert-panic a item h = ground arith

-- `insertOrderedArray` does not look at `max_size`: an item that belongs behind a full array is
-- written to the first cell past its end, and so is the last item of a full array when the new one
-- belongs before it.
pub insert_overruns :
    (a : OrderedArray) (item : ℕ) (lt : ℕ → ℕ → Bool)
    → a.less_than ≡ some lt
    → a.size ≡ a.max_size
    → 0 < a.size
    → let at = scan lt a.array item a.size 0 in
      (a' : OrderedArray) × (insert a item ≡ done a')
      × (a'.array a.max_size ≡ (if at == a.size then item else a.array (a.size - 1)))
unfolding insert
insert_overruns a item lt h full pos =
    let at = scan lt a.array item a.size 0 in
    (
      record a { array = insert_at a.array a.size item at; size = (a.size + 1) % 2 ^ 32 },
      ground arith,
      ground (
        arith,
        scan_bounds lt a.array item a.size 0,
        insert_at_cell a.array a.size item at a.max_size,
      ),
    )
