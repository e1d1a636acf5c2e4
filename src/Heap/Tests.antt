-- ===== src/Heap/Tests.antt =====
-- Theorems about the heap at small heaps: one hole, two holes, and one block in use.
use jslk.Base.{
  ℕ, refl, inl, inr, none, some, List, [], arith, ◌+◌, ◌-◌, ◌^◌, ◌≤◌, ◌≡◌, ◌∙◌, ◌∷◌, ◌++◌, ◌==◌,
  if◌then◌else◌,
}
use jslk.Base.Memory.{load32, Memory, store8, store32}
use jslk.OrderedArray.View.{occurrences, items, IsSorted}
use jslk.Heap.{
  header_is_hole, footer_header, set_header_size, fits, find_from, Heap, heap_min_size, header_size,
  header_magic, footer_magic, set_header, set_footer, header_t_less_than, index_insert,
  find_smallest_hole,
}
use jslk.Heap.Layout.{
  IsFooter, load32-set_footer, load32-set_header, IsHeader, set_header-IsHeader,
  set_footer-IsFooter, IsHeader-set_header, IsHeader-set_footer,
}
use jslk.Heap.Alloc.{create_heap, alloc, Fit}
use jslk.Heap.Tiles.{Tile, used, hole, total, hole_addresses, IsTile, AreTiles, IsTiled}
use jslk.Heap.Tiles.Start.{create_heap-IsTiled}
use jslk.Heap.Tiles.Place.{carve}
use jslk.Heap.Tiles.Serve.{alloc-IsTiled}
use jslk.Heap.Tiles.Release.{release, free-IsTiled}
use jslk.Heap.Tiles.Stale.{IsStale, free_right-IsStale}
use jslk.Base.Outcome.{done}
use jslk.Heap.Search.{find_smallest_hole_least}
use jslk.Heap.Resize.{Pager, unmap_pages}
use jslk.Heap.Serve.{alloc-IsPlaced}
use jslk.Heap.Block.{IsPlaced}
use jslk.Heap.Free.{free, IsIsolated, free_isolated}

-- A pager that writes down the addresses it is asked for.
abbrev log : Pager (List ℕ)
log = record { map_page = λ a s r w. done (a ∷ w); unmap_page = λ a w. done (a ∷ w) }

abbrev empty : Memory
empty = λ j. 0

abbrev heap_of : Memory → (ℕ → ℕ) → (count end_address : ℕ) → Heap
heap_of m cells count end_address = record {
  index = record { array = cells; size = count; max_size = 8; less_than = none };
  start_address = 0x10000;
  end_address = end_address;
  max_address = 0x200000;
  supervisor = 0;
  readonly = 0;
  memory = m;
}

-- A hole of 0x100 bytes at 0x10000, and one of 0x1000 bytes behind it.
abbrev two_holes : Heap
two_holes =
    heap_of (set_header (set_header empty 0x10000 1 0x100) 0x10100 1 0x1000)
      (λ j. if j == 0 then 0x10000 else 0x10100) 2 0x11100

first_hole : IsHeader two_holes.memory 0x10000 1 0x100
first_hole =
    IsHeader-set_header 0x10100 1 0x1000 (set_header-IsHeader empty 0x10000 1 0x100 (omega arith))
      (inr (omega arith))

second_hole : IsHeader two_holes.memory 0x10100 1 0x1000
second_hole = set_header-IsHeader (set_header empty 0x10000 1 0x100) 0x10100 1 0x1000 (omega arith)

two_holes-IsSorted :
    IsSorted (header_t_less_than two_holes.memory) (items two_holes.index.array 0 2)
unfolding items header_t_less_than
two_holes-IsSorted = ((rw (first_hole.size_eq, second_hole.size_eq) refl, tt), (tt, tt))

second_found : find_smallest_hole 0x200 0 two_holes ≡ some 1
unfolding find_smallest_hole find_from fits
second_found = rw (first_hole.size_eq, second_hole.size_eq) refl

find_smallest_hole_least_example :
    (0x200 ≤ header_size two_holes.memory 0x10100)
    × (header_size two_holes.memory 0x10100 ≤ header_size two_holes.memory 0x10100)
find_smallest_hole_least_example =
    find_smallest_hole_least 0x200 1 1 two_holes two_holes-IsSorted second_found (omega arith)
      (rw second_hole.size_eq (omega arith))

alloc-IsPlaced_example :
    (f : Fit) × (h' : Heap) × (alloc log 1 0x1EC 0 two_holes [] ≡ done (0x1010C, h', []))
    × IsPlaced f two_holes.memory h'.memory
    × (f.pos ≡ 0x10100)
    × (f.hole_size ≡ header_size two_holes.memory 0x10100)
    × (f.new_size ≤ header_size two_holes.memory 0x10100)
    × (0x102F8 ≤ 0x10100 + f.new_size - 8)
alloc-IsPlaced_example =
    alloc-IsPlaced log 0 0x1EC 1 two_holes [] (omega arith) second_found
      (rw second_hole.size_eq (omega arith))

-- A heap of 0x73000 bytes.
abbrev long_heap : Heap
long_heap = heap_of empty (λ j. 0) 0 0x83000

two_unmapped :
    unmap_pages log (2 ^ 20) 0x72000 heap_min_size long_heap [] ≡ done (0x81000 ∷ 0x82000 ∷ [])
unfolding unmap_pages
two_unmapped = refl

-- A block of 0x100 bytes at 0x10000, with nothing before and after it.
abbrev one_block : Heap
one_block =
    heap_of (set_footer (set_header empty 0x10000 0 0x100) 0x100F8 0x10000) (λ j. 0) 0 0x20000

empty_word : (a : ℕ) → load32 empty a ≡ 0
unfolding load32
empty_word a = refl

left_word : footer_magic one_block.memory 0xFFF8 ≡ 0
unfolding footer_magic
left_word =
    load32-set_footer _ 0x100F8 0x10000 0xFFF8 (inr (omega arith))
    ∙ load32-set_header empty 0x10000 0 0x100 0xFFF8 (inr (omega arith))
    ∙ empty_word 0xFFF8

right_word : header_magic one_block.memory 0x10100 ≡ 0
unfolding header_magic
right_word =
    load32-set_footer _ 0x100F8 0x10000 0x10100 (inl (omega arith))
    ∙ load32-set_header empty 0x10000 0 0x100 0x10100 (inl (omega arith))
    ∙ empty_word 0x10100

one_block-IsIsolated : IsIsolated one_block 0x10000 0x100
one_block-IsIsolated = record {
  block =
      IsHeader-set_footer 0x100F8 0x10000 (set_header-IsHeader empty 0x10000 0 0x100 (omega arith))
        (inr (omega arith));
  end = set_footer-IsFooter (set_header empty 0x10000 0 0x100) 0x100F8 0x10000 (omega arith);
  above = omega arith;
  inside = omega arith;
  room = omega arith;
  large = omega arith;
  low = omega arith;
  left_used = λ e. absurd (omega (arith, left_word));
  right_used = λ e. absurd (omega (arith, right_word));
  not_last = λ e. absurd (omega arith);
}

free_isolated_example :
    (h' : Heap) × (free log 0x1000C one_block [] ≡ done (h', []))
    × (h'.memory ≡ store8 one_block.memory 0x10004 1)
    × IsHeader h'.memory 0x10000 1 0x100
    × (index_insert (record one_block { memory = h'.memory }) 0x10000 ≡ done h')
free_isolated_example = free_isolated log 0x10000 0x100 one_block [] one_block-IsIsolated

-- A hole of 0x40 bytes, and two blocks of 0x30 bytes.
abbrev row_memory : Memory
row_memory =
    set_footer
      (set_header
        (set_footer
          (set_header (set_footer (set_header empty 0x10000 1 0x40) 0x10038 0x10000) 0x10040 0 0x30)
          0x10068 0x10040)
        0x10070 0 0x30)
      0x10098 0x10070

abbrev row_heap : Heap
row_heap = heap_of row_memory (λ j. 0x10000) 1 0x100A0

abbrev row_tiles : List Tile
row_tiles = hole 0x40 ∷ used 0x30 ∷ used 0x30 ∷ []

row_first : IsHeader row_memory 0x10000 1 0x40
unfolding header_magic header_is_hole header_size set_header set_header_size set_footer load32
    store32 store8
row_first = record { magic = refl; hole = refl; size_eq = refl }

row_second : IsHeader row_memory 0x10040 0 0x30
unfolding header_magic header_is_hole header_size set_header set_header_size set_footer load32
    store32 store8
row_second = record { magic = refl; hole = refl; size_eq = refl }

row_third : IsHeader row_memory 0x10070 0 0x30
unfolding header_magic header_is_hole header_size set_header set_header_size set_footer load32
    store32 store8
row_third = record { magic = refl; hole = refl; size_eq = refl }

row_end : IsFooter row_memory 0x10038 0x10000
unfolding footer_magic footer_header set_header set_header_size set_footer load32 store32 store8
row_end = record { magic = refl; owner = refl }

row_end2 : IsFooter row_memory 0x10068 0x10040
unfolding footer_magic footer_header set_header set_header_size set_footer load32 store32 store8
row_end2 = record { magic = refl; owner = refl }

row_end3 : IsFooter row_memory 0x10098 0x10070
unfolding footer_magic footer_header set_header set_header_size set_footer load32 store32 store8
row_end3 = record { magic = refl; owner = refl }

row_guard : footer_magic row_memory 0xFFF8 ≡ 0
unfolding footer_magic set_header set_header_size set_footer load32 store32 store8
row_guard = refl

row_heap-IsTiled : IsTiled row_heap row_tiles
unfolding AreTiles IsTile total hole_addresses items occurrences
row_heap-IsTiled = record {
  row = record {
    tiled = (
      (row_first, inr row_end, omega arith),
      ((row_second, row_end2, omega arith), ((row_third, row_end3, omega arith), tt)),
    );
    whole = refl;
    above = omega arith;
    low = omega arith;
    guard = λ e. absurd (omega (arith, row_guard));
  };
  indexed = record { count = refl; each = λ v. refl };
}

row_found : find_smallest_hole 28 0 row_heap ≡ some 0
unfolding find_smallest_hole find_from fits
row_found = rw row_first.size_eq refl

alloc-IsTiled_example :
    (ls rs : List Tile) × (n : ℕ) × (h' : Heap) × (row_tiles ≡ ls ++ hole n ∷ rs)
    × (28 ≤ n)
    × (alloc log 1 8 0 row_heap [] ≡ done (0x10000 + total ls + 12, h', []))
    × IsTiled h' (ls ++ (carve n 28 ++ rs))
alloc-IsTiled_example =
    alloc-IsTiled log 0 8 0 row_heap [] row_tiles row_heap-IsTiled (omega arith) row_found

free-IsTiled_example :
    (h' : Heap) × (free log (0x10000 + total (hole 0x40 ∷ []) + 12) row_heap [] ≡ done (h', []))
    × IsTiled h' (release (hole 0x40 ∷ []) 0x30 ++ used 0x30 ∷ [])
    × (h'.index.size ≤ h'.index.max_size)
free-IsTiled_example =
    free-IsTiled log row_heap [] [] 0x30 0x30 (hole 0x40 ∷ []) (omega arith) row_heap-IsTiled

create_heap-IsTiled_example :
    (h : Heap) × (create_heap empty (λ j. 0) 0x100000 0x200000 0x300000 0 0 ≡ done h)
    × (h.start_address ≡ 0x180000)
    × (h.end_address ≡ 0x200000)
    × IsTiled h (hole 0x80000 ∷ [])
create_heap-IsTiled_example =
    create_heap-IsTiled empty (λ j. 0) 0x100000 0x200000 0x300000 0 0 refl refl (omega arith)
      (omega arith)

-- Two blocks in use, a hole, and one more block.
abbrev join_memory : Memory
join_memory =
    set_footer
      (set_header
        (set_footer
          (set_header
            (set_footer
              (set_header (set_footer (set_header empty 0x10000 0 0x30) 0x10028 0x10000) 0x10030 0
                0x30)
              0x10058 0x10030)
            0x10060 1 0x40)
          0x10098 0x10060)
        0x100A0 0 0x30)
      0x100C8 0x100A0

abbrev join_heap : Heap
join_heap = heap_of join_memory (λ j. 0x10060) 1 0x100D0

join_first : IsHeader join_memory 0x10000 0 0x30
unfolding header_magic header_is_hole header_size set_header set_header_size set_footer load32
    store32 store8
join_first = record { magic = refl; hole = refl; size_eq = refl }

join_second : IsHeader join_memory 0x10030 0 0x30
unfolding header_magic header_is_hole header_size set_header set_header_size set_footer load32
    store32 store8
join_second = record { magic = refl; hole = refl; size_eq = refl }

join_hole : IsHeader join_memory 0x10060 1 0x40
unfolding header_magic header_is_hole header_size set_header set_header_size set_footer load32
    store32 store8
join_hole = record { magic = refl; hole = refl; size_eq = refl }

join_last : IsHeader join_memory 0x100A0 0 0x30
unfolding header_magic header_is_hole header_size set_header set_header_size set_footer load32
    store32 store8
join_last = record { magic = refl; hole = refl; size_eq = refl }

join_first_end : IsFooter join_memory 0x10028 0x10000
unfolding footer_magic footer_header set_header set_header_size set_footer load32 store32 store8
join_first_end = record { magic = refl; owner = refl }

join_second_end : IsFooter join_memory 0x10058 0x10030
unfolding footer_magic footer_header set_header set_header_size set_footer load32 store32 store8
join_second_end = record { magic = refl; owner = refl }

join_hole_end : IsFooter join_memory 0x10098 0x10060
unfolding footer_magic footer_header set_header set_header_size set_footer load32 store32 store8
join_hole_end = record { magic = refl; owner = refl }

join_last_end : IsFooter join_memory 0x100C8 0x100A0
unfolding footer_magic footer_header set_header set_header_size set_footer load32 store32 store8
join_last_end = record { magic = refl; owner = refl }

join_guard : footer_magic join_memory 0xFFF8 ≡ 0
unfolding footer_magic set_header set_header_size set_footer load32 store32 store8
join_guard = refl

join_heap-IsTiled : IsTiled join_heap (used 0x30 ∷ used 0x30 ∷ hole 0x40 ∷ used 0x30 ∷ [])
unfolding AreTiles IsTile total hole_addresses items occurrences
join_heap-IsTiled = record {
  row = record {
    tiled = (
      (join_first, join_first_end, omega arith),
      (
        (join_second, join_second_end, omega arith),
        (
          (join_hole, inr join_hole_end, omega arith),
          ((join_last, join_last_end, omega arith), tt),
        ),
      ),
    );
    whole = refl;
    above = omega arith;
    low = omega arith;
    guard = λ e. absurd (omega (arith, join_guard));
  };
  indexed = record { count = refl; each = λ v. refl };
}

free_right-IsStale_example :
    (h' : Heap) × (free log (0x10000 + total [] + 0x30 + 12) join_heap [] ≡ done (h', []))
    × IsStale h' (0x10000 + total [] + 0x30) 0x30 0x40
    × ¬ IsTiled h' ([] ++ used 0x30 ∷ hole (0x30 + 0x40) ∷ used 0x30 ∷ [])
free_right-IsStale_example =
    free_right-IsStale log join_heap [] [] [] 0x30 0x30 0x40 0x30 join_heap-IsTiled
