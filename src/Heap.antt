-- ===== src/Heap.antt =====
-- kernel/heap.c: the kernel heap. This file has the layout of blocks and holes and the search for a
-- hole; the children have the resizing, `alloc` and `free`.
pub mod Layout
pub mod Search
pub mod Resize
pub mod Alloc
pub mod Block
pub mod Serve
pub mod Free
pub mod Tiles
mod Tests
use jslk.Base.{
  ℕ, zero, suc, min, max, bit_and, bit_or, refl, sym, ap, fun_ext, inl, inr, Bool, true, false, not,
  Option, none, some, List, [], map, arith, ltb, leb, ltb→lt, ltb→le, lt→ltb, le→ltb, ==→eq, ==→ne,
  eq→==, ne→==, Bool-cases, tests, write, write_self, write_ne, length, get_or, length-append, ◌+◌,
  ◌-◌, ◌*◌, ◌/◌, ◌%◌, ◌^◌, ◌≤◌, ◌<◌, ◌≡◌, ◌∙◌, ◌≢◌, ◌↔◌, ◌⊎◌, ◌&&◌, ◌||◌, ◌∷◌, ◌++◌, ◌==◌,
  if◌then◌else◌,
}
use jslk.Base.Memory.{Memory, load32, store8, store32}
use jslk.Base.Outcome.{Outcome, done, ◌>>=◌}
use jslk.OrderedArray
use jslk.OrderedArray.{OrderedArray}

abbrev pub heap_index_size : ℕ
heap_index_size = 0x20000

abbrev pub heap_magic : ℕ
heap_magic = 0x123890AB

abbrev pub heap_min_size : ℕ
heap_min_size = 0x70000

-- The sizes of `header_t` and `footer_t` on i386: a word, a byte padded to a word, and a word; two
-- words.
abbrev pub header_bytes : ℕ
header_bytes = 12

abbrev pub footer_bytes : ℕ
footer_bytes = 8

-- A `uint32_t` result, and a difference of two.
abbrev pub u32 : ℕ → ℕ
u32 x = x % 2 ^ 32

abbrev pub sub32 : ℕ → ℕ → ℕ
sub32 a b = (a + 2 ^ 32 - b) % 2 ^ 32

-- The fields of the `header_t` and the `footer_t` at an address.
unfoldable pub header_magic : Memory → ℕ → ℕ
header_magic m a = load32 m a

unfoldable pub header_is_hole : Memory → ℕ → ℕ
header_is_hole m a = m (a + 4)

unfoldable pub header_size : Memory → ℕ → ℕ
header_size m a = load32 m (a + 8)

unfoldable pub footer_magic : Memory → ℕ → ℕ
footer_magic m a = load32 m a

unfoldable pub footer_header : Memory → ℕ → ℕ
footer_header m a = load32 m (a + 4)

unfoldable pub set_header_size : Memory → (a size : ℕ) → Memory
set_header_size m a size = store32 m (a + 8) size

-- The three writes that make a header, and the two that make a footer.
unfoldable pub set_header : Memory → (a is_hole size : ℕ) → Memory
unfolding set_header_size
set_header m a is_hole size =
    set_header_size (store8 (store32 m a heap_magic) (a + 4) is_hole) a size

unfoldable pub set_footer : Memory → (a header : ℕ) → Memory
set_footer m a header = store32 (store32 m a heap_magic) (a + 4) header

-- `heap_t`, with the memory that it manages. The index is an array of its own: in the program its
-- `max_size` cells lie right in front of `start_address`. An insertion into a full index, which the
-- code does not refuse, would write over the first header there, and does not do so here.
pub record Heap : Type 0 where
  pub index : OrderedArray
  pub start_address : ℕ
  pub end_address : ℕ
  pub max_address : ℕ
  pub supervisor : ℕ
  pub readonly : ℕ
  pub memory : Memory

unfoldable pub header_t_less_than : Memory → ℕ → ℕ → Bool
header_t_less_than m a b = ltb (header_size m a) (header_size m b)

-- `insertOrderedArray(&heap->index, item)`: the predicate reads the memory as it is then.
unfoldable pub index_insert : Heap → ℕ → Outcome Heap
index_insert h item =
    OrderedArray.insert (record (h.index) { less_than = some (header_t_less_than h.memory) }) item
    >>= λ index. done (record h { index = index })

-- `(int32_t)a >= (int32_t)b` of two words.
unfoldable pub signed_ge : ℕ → ℕ → Bool
signed_ge a b = leb (u32 (b + 2 ^ 31)) (u32 (a + 2 ^ 31))

-- How far the block of a hole must move up for its data to start on a page boundary.
unfoldable pub page_offset : (location : ℕ) → ℕ
page_offset location =
    if bit_and (u32 (location + header_bytes)) 0xFFFFF000 == 0
    then 0
    else 0x1000 - u32 (location + header_bytes) % 0x1000

-- The test in the loop of `find_smallest_hole`.
unfoldable pub fits : Memory → (size page_align header : ℕ) → Bool
unfolding signed_ge page_offset
fits m size page_align header =
    if ltb 0 page_align
    then signed_ge (sub32 (header_size m header) (page_offset header)) size
    else leb size (header_size m header)

-- The loop, with `n` entries left. The test of the loop is what `lookupOrderedArray` asserts.
unfoldable pub find_from : Memory → (ℕ → ℕ) → (size page_align n iterator : ℕ) → Option ℕ
find_from m array size page_align zero iterator = none
find_from m array size page_align (suc n) iterator =
    let rest = find_from m array size page_align n (iterator + 1) in
    if fits m size page_align (array iterator) then some iterator else rest

-- `none` is -1.
unfoldable pub find_smallest_hole : (size page_align : ℕ) → Heap → Option ℕ
unfolding find_from
find_smallest_hole size page_align h =
    find_from h.memory h.index.array size page_align h.index.size 0
