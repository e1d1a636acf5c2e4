-- ===== src/OrderedArray.antt =====
-- kernel/orderedArray.c: the array of pointers that is kept sorted by a predicate.
pub mod View
pub mod Insert
pub mod Remove
pub mod Contents
mod Tests
use jslk.Base.{
  ℕ, zero, suc, ◌+◌, ◌-◌, ◌%◌, ◌^◌, Bool, true, false, Option, none, some, ltb, ◌==◌, if◌then◌else◌,
  write,
}
use jslk.Base.Outcome.{Outcome, done, panic, ◌>>=◌, ◌>>◌, assert}

-- `orderedArray_t`. `array` is the memory from the pointer `array` on, by index: the cells from
-- `max_size` on belong to whatever stands behind the array. `none` is the null predicate.
pub record OrderedArray : Type 0 where
  pub array : ℕ → ℕ
  pub size : ℕ
  pub max_size : ℕ
  pub less_than : Option (ℕ → ℕ → Bool)

unfoldable pub standard_lessthan_predicate : ℕ → ℕ → Bool
standard_lessthan_predicate a b = ltb a b

-- `memset(to_ret.array, 0, max_size * sizeof(type_t))`
clear_cells : (ℕ → ℕ) → ℕ → ℕ → ℕ
clear_cells memory n j = if ltb j n then 0 else memory j

-- `memory` is what stands at `addr`.
unfoldable pub place : (memory : ℕ → ℕ) → ℕ → Option (ℕ → ℕ → Bool) → OrderedArray
unfolding clear_cells
place memory max_size less_than = record {
  array = clear_cells memory max_size;
  size = 0;
  max_size = max_size;
  less_than = less_than;
}

-- `fresh` is the memory that `kmalloc` returns.
unfoldable pub create : (fresh : ℕ → ℕ) → ℕ → Option (ℕ → ℕ → Bool) → OrderedArray
unfolding clear_cells
create fresh max_size less_than = record {
  array = clear_cells fresh max_size;
  size = 0;
  max_size = max_size;
  less_than = less_than;
}

-- The body is a comment.
unfoldable pub destroy : OrderedArray → OrderedArray
destroy a = a

-- `i < size && less_than(array[i], item)`, with `n` rounds left of `size`.
unfoldable pub scan : (ℕ → ℕ → Bool) → (ℕ → ℕ) → (item n i : ℕ) → ℕ
scan less_than array item zero i = i
scan less_than array item (suc n) i =
    let rest = scan less_than array item n (i + 1) in if less_than (array i) item then rest else i

-- `while (iterator < size)`: each cell takes what stood in the one before it.
unfoldable pub shift : (n i tmp : ℕ) → (ℕ → ℕ) → ℕ → ℕ
shift zero i tmp array = array
shift (suc n) i tmp array = shift n (i + 1) (array (i + 1)) (write array (i + 1) tmp)

-- What `insertOrderedArray` writes once `iterator` is found.
unfoldable pub insert_at : (ℕ → ℕ) → (size item iterator : ℕ) → ℕ → ℕ
unfolding shift
insert_at array size item iterator =
    if iterator == size
    then write array size item
    else shift (size - iterator) iterator (array iterator) (write array iterator item)

unfoldable pub insert : OrderedArray → ℕ → Outcome OrderedArray
unfolding insert_at scan
insert a item = elim a.less_than [
  | none ↦ panic
  | some less_than ↦ done (record a {
    array = insert_at a.array a.size item (scan less_than a.array item a.size 0);
    size = (a.size + 1) % 2 ^ 32;
  })
]

unfoldable pub lookup : ℕ → OrderedArray → Outcome ℕ
lookup i a = do assert (ltb i a.size); done (a.array i)

-- `while (i < size) { array[i] = array[i + 1]; i++; }`, with `n` rounds left.
unfoldable pub close_gap : (n i : ℕ) → (ℕ → ℕ) → ℕ → ℕ
close_gap zero i array = array
close_gap (suc n) i array = close_gap n (i + 1) (write array i (array (i + 1)))

-- `size--` wraps at 0.
unfoldable pub remove : ℕ → OrderedArray → OrderedArray
unfolding close_gap
remove i a = record a {
  array = close_gap (a.size - i) i a.array;
  size = (a.size + 2 ^ 32 - 1) % 2 ^ 32;
}
