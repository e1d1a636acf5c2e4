-- ===== src/OrderedArray/View.antt =====
-- The list that an array holds, and the operations that the array implements, on lists.
use jslk.Base.{
  ℕ, zero, suc, ◌+◌, ◌≤◌, ◌<◌, ◌≡◌, refl, ap, Bool, true, false, List, [], ◌∷◌, arith,
  if◌then◌else◌, ◌==◌,
}
use mathlib.Core.Path.{ap₂}

-- The `n` cells from `i` on.
unfoldable pub items : (ℕ → ℕ) → (i n : ℕ) → List ℕ
items f i zero = []
items f i (suc n) = f i ∷ items f (i + 1) n

pub items-ext :
    (f g : ℕ → ℕ) (i n : ℕ) → ((k : ℕ) → i ≤ k → k < i + n → f k ≡ g k) → items f i n ≡ items g i n
unfolding items
items-ext f g i zero h = refl
items-ext f g i (suc n) h =
    ap₂ ◌∷◌ (h i (omega arith) (omega arith))
      (items-ext f g (i + 1) n (λ k p q. h k (omega arith) (omega arith)))

pub items-offset : (f : ℕ → ℕ) (i n : ℕ) → items (λ k. f (k + 1)) i n ≡ items f (i + 1) n
unfolding items
items-offset f i zero = refl
items-offset f i (suc n) = ap (λ t. f (i + 1) ∷ t) (items-offset f (i + 1) n)

-- Insertion before the first element that is not less than the new one.
unfoldable pub insert_sorted : (ℕ → ℕ → Bool) → ℕ → List ℕ → List ℕ
insert_sorted lt x [] = x ∷ []
insert_sorted lt x (y ∷ ys) =
    let rest = insert_sorted lt x ys in if lt y x then y ∷ rest else x ∷ y ∷ ys

unfoldable pub erase_at : ℕ → List ℕ → List ℕ
erase_at i [] = []
erase_at zero (x ∷ xs) = xs
erase_at (suc i) (x ∷ xs) = x ∷ erase_at i xs

-- `x` is not less than any element of the list after it.
abbrev pub NotAbove : (ℕ → ℕ → Bool) → ℕ → List ℕ → Type 0
NotAbove lt x [] = Unit
NotAbove lt x (y ∷ ys) = (lt y x ≡ false) × NotAbove lt x ys

-- No element is less than one that stands before it.
abbrev pub IsSorted : (ℕ → ℕ → Bool) → List ℕ → Type 0
IsSorted lt [] = Unit
IsSorted lt (x ∷ xs) = NotAbove lt x xs × IsSorted lt xs

-- What a predicate must satisfy for insertion to keep the order.
pub record IsOrder (lt : ℕ → ℕ → Bool) : Type 0 where
  pub asymmetric : (a b : ℕ) → lt a b ≡ true → lt b a ≡ false
  pub transitive : (a b c : ℕ) → lt b a ≡ false → lt c b ≡ false → lt c a ≡ false

-- How often `v` stands in a list.
unfoldable pub occurrences : ℕ → List ℕ → ℕ
occurrences v [] = 0
occurrences v (x ∷ xs) = (if v == x then 1 else 0) + occurrences v xs
