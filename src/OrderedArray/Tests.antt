-- ===== src/OrderedArray/Tests.antt =====
-- Runs of the array, and the theorems at concrete arrays.
use jslk.Base.{ℕ, ◌+◌, ◌≡◌, refl, Bool, some, [], ◌∷◌, arith, ◌==◌, if◌then◌else◌}
use jslk.Base.Outcome.{done, panic, ◌>>=◌}
use jslk.OrderedArray.{OrderedArray, standard_lessthan_predicate, place, insert, lookup, remove}
use jslk.OrderedArray.View.{items, insert_sorted, erase_at, IsSorted, IsOrder, occurrences}
use jslk.OrderedArray.Insert.{insert-insert_sorted, insert-IsSorted}
use jslk.OrderedArray.Remove.{remove-erase_at}

abbrev less : ℕ → ℕ → Bool
less = standard_lessthan_predicate

abbrev cells : ℕ → ℕ
cells j = if j == 0 then 10 else if j == 1 then 30 else 77

abbrev two_items : OrderedArray
two_items = record { array = cells; size = 2; max_size = 2; less_than = some less }

four_inserts :
    (do
      a ← insert (place (λ _. 9) 8 (some less)) 30
      a ← insert a 10
      a ← insert a 20
      a ← insert a 40
      done (items (remove 0 a).array 0 (remove 0 a).size))
    ≡ done (20 ∷ 30 ∷ 40 ∷ [])
unfolding insert place remove items standard_lessthan_predicate
four_inserts = refl

less-IsOrder : IsOrder less
unfolding standard_lessthan_predicate
less-IsOrder = record { asymmetric = λ a b h. ground arith; transitive = λ a b c h k. ground arith }

two_items-IsSorted : IsSorted less (items two_items.array 0 two_items.size)
unfolding items standard_lessthan_predicate
two_items-IsSorted = ((refl, tt), (tt, tt))

insert-insert_sorted_example :
    (a : OrderedArray) × (insert two_items 20 ≡ done a)
    × (a.size ≡ 3)
    × (items a.array 0 a.size ≡ insert_sorted less 20 (items cells 0 2))
insert-insert_sorted_example = insert-insert_sorted two_items 20 less refl (omega arith)

insert-IsSorted_example :
    (a : OrderedArray) × (insert two_items 20 ≡ done a)
    × IsSorted less (items a.array 0 a.size)
    × ((v : ℕ)
        → occurrences v (items a.array 0 a.size)
          ≡ (if v == 20 then 1 else 0) + occurrences v (items cells 0 2))
insert-IsSorted_example =
    insert-IsSorted two_items 20 less refl less-IsOrder (omega arith) two_items-IsSorted

remove-erase_at_example :
    items (remove 0 two_items).array 0 (remove 0 two_items).size ≡ erase_at 0 (items cells 0 2)
remove-erase_at_example = remove-erase_at two_items 0 (omega arith) (omega arith)

lookup_past_end : lookup 2 two_items ≡ panic
unfolding lookup
lookup_past_end = refl
