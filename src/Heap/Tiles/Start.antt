-- ===== src/Heap/Tiles/Start.antt =====
-- `createHeap` makes one hole of the whole heap.
use jslk.Base.{
  ℕ, bit_and, refl, sym, inl, inr, Bool, Option, some, [], arith, eq→==, ◌+◌, ◌-◌, ◌*◌, ◌%◌, ◌^◌,
  ◌≤◌, ◌<◌, ◌≡◌, ◌∙◌, ◌∷◌,
}
use jslk.Base.Bits.{bit_and_mask}
use jslk.Base.Memory.{load32, Apart, Memory}
use jslk.Base.Outcome.{done}
use jslk.OrderedArray
use jslk.OrderedArray.{OrderedArray}
use jslk.OrderedArray.Contents.{Holds}
use jslk.OrderedArray.View.{items, occurrences}
use jslk.Heap.{
  Heap, heap_index_size, u32, sub32, footer_magic, header_t_less_than, set_header, index_insert,
}
use jslk.Heap.Layout.{set_header-IsHeader, load32-set_header}
use jslk.Heap.Alloc.{clear_index, create_heap, heap_start}
use jslk.Heap.Tiles.Index.{index_insert-IsTiled}
use jslk.Heap.Tiles.{hole, total, hole_addresses, IsTile, AreTiles, IsTiled}

place-Holds :
    (cells : ℕ → ℕ) (n : ℕ) (lt : Option (ℕ → ℕ → Bool)) → Holds (OrderedArray.place cells n lt) []
unfolding OrderedArray.place items occurrences
place-Holds cells n lt = record { count = refl; each = λ v. refl }

heap_start_even : (start : ℕ) → start % 2 ≡ 0 → heap_start start ≡ start
unfolding heap_start
heap_start_even start even =
    let bit0 : bit_and start 1 ≡ 0 = bit_and_mask start 1 ∙ even in rw bit0 refl

pub footer_magic-set_header :
    (m : Memory) (a is_hole size b : ℕ)
    → Apart a 12 b 4
    → footer_magic (set_header m a is_hole size) b ≡ footer_magic m b
unfolding footer_magic
footer_magic-set_header m a is_hole size b h = load32-set_header m a is_hole size b h

-- The word in front of the first hole is one of the cleared index.
footer_magic-clear_index :
    (m : Memory) (a n b : ℕ) → a ≤ b → b + 4 ≤ a + n → footer_magic (clear_index m a n) b ≡ 0
unfolding footer_magic load32 clear_index
footer_magic-clear_index m a n b lo hi =
    let byte : (j : ℕ) → b ≤ j → j < b + 4 → clear_index m a n j ≡ 0 = λ j p q. ground arith in
    omega (
      arith,
      byte b (omega arith) (omega arith),
      byte (b + 1) (omega arith) (omega arith),
      byte (b + 2) (omega arith) (omega arith),
      byte (b + 3) (omega arith) (omega arith),
    )

module _ (memory : Memory) (cells : ℕ → ℕ)
    (start end_addr max_address supervisor readonly : ℕ) where
  abbrev cleared : Memory
  cleared = clear_index memory start 0x80000

  -- The heap before its hole is put into the index.
  abbrev before_index : Heap
  before_index = record {
    index = OrderedArray.place cells heap_index_size (some (header_t_less_than cleared));
    start_address = start + 0x80000;
    end_address = end_addr;
    max_address = max_address;
    supervisor = supervisor;
    readonly = readonly;
    memory = set_header cleared (start + 0x80000) 1 (end_addr - (start + 0x80000));
  }

  create_heap_run :
      start % 0x1000 ≡ 0
      → end_addr % 0x1000 ≡ 0
      → start + 0x80000 ≤ end_addr
      → end_addr < 2 ^ 32
      → create_heap memory cells start end_addr max_address supervisor readonly
        ≡ index_insert before_index (start + 0x80000)
  unfolding create_heap
  create_heap_run p q room low =
      let at : u32 (start + 4 * heap_index_size) ≡ start + 0x80000 = omega arith in
      let size : sub32 end_addr (start + 0x80000) ≡ end_addr - (start + 0x80000) = omega arith in
      rw (eq→== _ _ p, eq→== _ _ q, at, heap_start_even (start + 0x80000) (omega arith), size) refl

  -- `createHeap` of an area on page boundaries below 2^32, with room for a header and a footer
  -- behind the index, makes a heap that is one hole, from the end of the index to the end of the
  -- area, and the index holds that hole.
  pub create_heap-IsTiled :
      start % 0x1000 ≡ 0
      → end_addr % 0x1000 ≡ 0
      → start + 0x80000 + 20 ≤ end_addr
      → end_addr < 2 ^ 32
      → (h : Heap) × (create_heap memory cells start end_addr max_address supervisor readonly
          ≡ done h)
        × (h.start_address ≡ start + 0x80000)
        × (h.end_address ≡ end_addr)
        × IsTiled h (hole (end_addr - (start + 0x80000)) ∷ [])
  unfolding total hole_addresses AreTiles IsTile
  create_heap-IsTiled p q room low =
      let begin = start + 0x80000 in
      let size = end_addr - begin in
      let header = set_header-IsHeader cleared begin 1 size (omega arith) in
      let word = footer_magic-set_header cleared begin 1 size (begin - 8) (inr (omega arith)) in
      let zero_word =
        footer_magic-clear_index memory start 0x80000 (begin - 8) (omega arith) (omega arith) in
      let (h, run, same, v) =
        index_insert-IsTiled before_index begin [] [] (hole size ∷ [])
          (record {
            tiled = ((header, inl (omega arith), omega arith), tt);
            whole = omega arith;
            above = omega arith;
            low = low;
            guard = λ e. absurd (omega (arith, zero_word, sym word ∙ e));
          })
          refl (place-Holds cells heap_index_size (some (header_t_less_than cleared))) in
      (h, create_heap_run p q (omega arith) low ∙ run, same.same_start, same.same_end, v)
