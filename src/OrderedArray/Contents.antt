-- ===== src/OrderedArray/Contents.antt =====
-- What an ordered array of kernel/orderedArray.c holds, without its order: each value as often as in
-- a list.
use jslk.Base.{
  ℕ, zero, suc, refl, sym, ap, Bool, some, List, [], arith, length, length-append, ◌+◌, ◌^◌, ◌<◌,
  ◌≡◌, ◌∙◌, ◌∷◌, ◌++◌, ◌==◌, if◌then◌else◌,
}
use jslk.Base.Outcome.{done}
use jslk.OrderedArray.{OrderedArray, insert, remove}
use jslk.OrderedArray.View.{items, erase_at, occurrences}
use jslk.OrderedArray.Insert.{insert-insert_sorted, occurrences-insert_sorted}
use jslk.OrderedArray.Remove.{remove-erase_at}

pub record Holds (a : OrderedArray) (xs : List ℕ) : Type 0 where
  pub count : a.size ≡ length xs
  pub each : (v : ℕ) → occurrences v (items a.array 0 a.size) ≡ occurrences v xs

-- `v` counted at one place.
abbrev count_one : (v x : ℕ) → ℕ
count_one v x = if v == x then 1 else 0

occurrences-cons :
    (v x : ℕ) (xs : List ℕ) → occurrences v (x ∷ xs) ≡ count_one v x + occurrences v xs
unfolding occurrences
occurrences-cons v x xs = refl

pub occurrences-append :
    (v : ℕ) (xs ys : List ℕ) → occurrences v (xs ++ ys) ≡ occurrences v xs + occurrences v ys
unfolding occurrences
occurrences-append v [] ys = omega arith
occurrences-append v (x ∷ xs) ys = omega (arith, occurrences-append v xs ys)

-- An element in the middle of a list may as well stand in front.
occurrences-middle :
    (v x : ℕ) (ls rs : List ℕ)
    → occurrences v (ls ++ x ∷ rs) ≡ count_one v x + occurrences v (ls ++ rs)
occurrences-middle v x ls rs =
    omega
      (arith, occurrences-append v ls (x ∷ rs), occurrences-append v ls rs, occurrences-cons v x rs)

length-middle : (x : ℕ) (ls rs : List ℕ) → length (ls ++ x ∷ rs) ≡ suc (length (ls ++ rs))
length-middle x ls rs = omega (arith, length-append ls (x ∷ rs), length-append ls rs)

-- Taking out an item of a row of cells leaves every other.
occurrences-erase_at :
    (f : ℕ → ℕ) (v i s n : ℕ)
    → i < n
    → occurrences v (items f s n)
      ≡ count_one v (f (s + i)) + occurrences v (erase_at i (items f s n))
unfolding occurrences items erase_at
occurrences-erase_at f v i s zero h = absurd (omega arith)
occurrences-erase_at f v zero s (suc n) h =
    ap (λ k. count_one v (f k) + occurrences v (items f (s + 1) n)) (omega arith)
occurrences-erase_at f v (suc i) s (suc n) h =
    let next : s + 1 + i ≡ s + suc i = omega arith in
    let rest = rw next at (occurrences-erase_at f v i (s + 1) n (omega arith)) in
    omega (arith, rest)

occurrences-items : (f : ℕ → ℕ) (i n : ℕ) → i < n → 0 < occurrences (f i) (items f 0 n)
occurrences-items f i n h =
    let here : 0 + i ≡ i = omega arith in
    let split = rw here at (occurrences-erase_at f (f i) i 0 n h) in ground (arith, split)

module _ {a : OrderedArray} where
  pub Holds-member :
      {xs : List ℕ} (i : ℕ) → Holds a xs → i < a.size → 0 < occurrences (a.array i) xs
  Holds-member i v h = rw (← v.each (a.array i)) (occurrences-items a.array i a.size h)

  pub Holds-insert :
      {xs : List ℕ} (lt : ℕ → ℕ → Bool) (item : ℕ)
      → a.less_than ≡ some lt
      → a.size + 1 < 2 ^ 32
      → Holds a xs
      → (a' : OrderedArray) × (insert a item ≡ done a') × Holds a' (item ∷ xs)
  Holds-insert {xs} lt item h small v =
      let (a', run, size, eq) = insert-insert_sorted a item lt h small in
      (
        a',
        run,
        record {
          count = omega (arith, v.count);
          each = λ x.
              ap (occurrences x) eq
              ∙ occurrences-insert_sorted lt x item (items a.array 0 a.size)
              ∙ ap (λ n. count_one x item + n) (v.each x)
              ∙ sym (occurrences-cons x item xs);
        },
      )

  pub Holds-remove :
      (i : ℕ) (ls rs : List ℕ)
      → i < a.size
      → a.size < 2 ^ 32
      → Holds a (ls ++ a.array i ∷ rs)
      → Holds (remove i a) (ls ++ rs)
  unfolding remove
  Holds-remove i ls rs h small v = record {
    count = omega (arith, v.count, length-middle (a.array i) ls rs);
    each = λ x.
        let here : 0 + i ≡ i = omega arith in
        let gone = rw here at (occurrences-erase_at a.array x i 0 a.size h) in
        ap (occurrences x) (remove-erase_at a i h small)
        ∙ omega (arith, gone, v.each x, occurrences-middle x (a.array i) ls rs);
  }

-- The order in the list does not matter.
pub Holds-move :
    {a : OrderedArray} (x : ℕ) (ls rs : List ℕ) → Holds a (x ∷ ls ++ rs) → Holds a (ls ++ x ∷ rs)
Holds-move x ls rs v = record {
  count = omega (arith, v.count, length-middle x ls rs);
  each =
      λ y. omega (arith, v.each y, occurrences-middle y x ls rs, occurrences-cons y x (ls ++ rs));
}

pub Holds-eq : {a : OrderedArray} {xs ys : List ℕ} → xs ≡ ys → Holds a ys → Holds a xs
Holds-eq e v = rw e v

pub occurrences_here : (x : ℕ) (ls rs : List ℕ) → 0 < occurrences x (ls ++ x ∷ rs)
occurrences_here x ls rs = ground (arith, occurrences-middle x x ls rs)
