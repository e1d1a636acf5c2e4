-- ===== src/Heap/Alloc.antt =====
-- `alloc` and `createHeap`.
use jslk.Base.{
  ℕ, zero, suc, max, bit_and, not, Option, none, some, ltb, leb, ◌+◌, ◌-◌, ◌*◌, ◌%◌, ◌&&◌, ◌==◌,
  if◌then◌else◌,
}
use jslk.Base.Memory.{Memory}
use jslk.Base.Outcome.{Outcome, done, no_fuel, ◌>>=◌, ◌>>◌, assert}
use jslk.OrderedArray
use jslk.OrderedArray.{OrderedArray}
use jslk.Heap.{
  Heap, heap_index_size, header_bytes, footer_bytes, u32, sub32, header_size, set_header_size,
  set_header, set_footer, index_insert, find_smallest_hole, header_t_less_than,
}
use jslk.Heap.Resize.{Pager, expand}

-- `if (start & 0xFFFFF000 != 0)` tests the lowest bit, as in `expand`.
unfoldable pub heap_start : ℕ → ℕ
heap_start start =
    if bit_and start (if 0xFFFFF000 == 0 then 0 else 1) == 0
    then start
    else u32 (bit_and start 0xFFFFF000 + 0x1000)

-- `memset(array, 0, n)` on the index, seen as memory.
unfoldable pub clear_index : Memory → (a n : ℕ) → Memory
clear_index m a n j = if leb a j && ltb j (a + n) then 0 else m j

-- `memory` is the memory after `kmalloc(sizeof(heap_t))`, `cells` the cells that the index is placed on.
unfoldable pub create_heap :
    (memory : Memory) (cells : ℕ → ℕ) (start end_addr max supervisor readonly : ℕ) → Outcome Heap
unfolding heap_start clear_index
create_heap memory cells start end_addr max supervisor readonly = do
  assert (start % 0x1000 == 0)
  assert (end_addr % 0x1000 == 0)
  let cleared = clear_index memory start (4 * heap_index_size)
  let begin = heap_start (u32 (start + 4 * heap_index_size))
  index_insert
      (record {
        index = OrderedArray.place cells heap_index_size (some (header_t_less_than cleared));
        start_address = begin;
        end_address = end_addr;
        max_address = max;
        supervisor = supervisor;
        readonly = readonly;
        memory = set_header cleared begin 1 (sub32 end_addr begin);
      })
      begin

-- The scan for the header with the highest address, `n` entries left.
unfoldable pub endmost : (ℕ → ℕ) → (n iterator : ℕ) → Option ℕ → (value : ℕ) → Option ℕ
endmost array zero iterator idx value = idx
endmost array (suc n) iterator idx value =
    endmost array n (iterator + 1) (if ltb value (array iterator) then some iterator else idx)
      (if ltb value (array iterator) then array iterator else value)

-- What `alloc` does with the space that `expand` has added: a new hole, or a longer last one.
unfoldable pub add_space : (old_length old_end_address : ℕ) → Heap → Outcome Heap
unfolding endmost
add_space old_length old_end_address h =
    let grown = sub32 (sub32 h.end_address h.start_address) old_length in
    elim (endmost h.index.array h.index.size 0 none 0) [
      | none ↦
          let m = set_header h.memory old_end_address 1 grown in
          index_insert
            (record h {
              memory =
                  set_footer m (sub32 (u32 (old_end_address + grown)) footer_bytes) old_end_address;
            })
            old_end_address
      | some idx ↦
          let header = h.index.array idx in
          let size = u32 (header_size h.memory header + grown) in
          let m = set_header_size h.memory header size in
          done
            (record h { memory = set_footer m (sub32 (u32 (header + size)) footer_bytes) header })
    ]

-- What a request is once its hole is known: where the block goes, how large the hole there is, and
-- the two sizes of the block.
pub record Fit : Type 0 where
  pub pos : ℕ
  pub hole_size : ℕ
  pub size : ℕ
  pub new_size : ℕ

-- `if (orig_hole_size-new_size < sizeof(header_t)+sizeof(footer_t))`: take the whole hole.
unfoldable pub take_whole : (pos hole_size size : ℕ) → Fit
take_whole pos hole_size size =
    let new_size = u32 (size + (header_bytes + footer_bytes)) in
    let slack = sub32 hole_size new_size in
    if ltb slack (header_bytes + footer_bytes)
    then record {
      pos = pos;
      hole_size = hole_size;
      size = u32 (size + slack);
      new_size = hole_size;
    }
    else record { pos = pos; hole_size = hole_size; size = size; new_size = new_size }

-- The hole in front of a block that is to be aligned.
unfoldable pub front_hole : Fit → Heap → Fit × Heap
front_hole f h =
    let new_location = sub32 (u32 (f.pos + 0x1000 - bit_and f.pos 0xFFF)) header_bytes in
    let front = sub32 (u32 (0x1000 - bit_and f.pos 0xFFF)) header_bytes in
    let m =
      set_footer (set_header h.memory f.pos 1 front) (sub32 new_location footer_bytes) f.pos in
    (
      record f { pos = new_location; hole_size = sub32 f.hole_size (header_size m f.pos) },
      record h { memory = m },
    )

-- The block, and the hole behind it if there is room. The value is the pointer that `alloc`
-- returns.
unfoldable pub place_block : Fit → Heap → Outcome (ℕ × Heap)
place_block f h =
    let data_end = u32 (f.pos + header_bytes + f.size) in
    let m = set_footer (set_header h.memory f.pos 0 f.new_size) data_end f.pos in
    let rest = sub32 f.hole_size f.new_size in
    let hole = u32 (data_end + footer_bytes) in
    let m' = set_header m hole 1 rest in
    let hole-IsFooter = sub32 (u32 (hole + rest)) footer_bytes in
    let m'' = if ltb hole-IsFooter h.end_address then set_footer m' hole-IsFooter hole else m' in
    if ltb 0 rest
    then (index_insert (record h { memory = m'' }) hole >>= λ h'.
        done (u32 (f.pos + header_bytes), h'))
    else done (u32 (f.pos + header_bytes), record h { memory = m })

-- `alloc` from the point where `iterator` is the hole to use.
unfoldable pub alloc_in : (size page_align iterator : ℕ) → Heap → Outcome (ℕ × Heap)
unfolding take_whole front_hole place_block
alloc_in size page_align iterator h = OrderedArray.lookup iterator h.index >>= λ pos.
    let f = take_whole pos (header_size h.memory pos) size in
    if ltb 0 page_align && not (bit_and pos 0xFFFFF000 == 0)
    then place_block (front_hole f h).0 (front_hole f h).1
    else place_block f (record h { index = OrderedArray.remove iterator h.index })

module _ {W : Type 0} (pager : Pager W) where
  -- Each round looks for a hole; one that finds none makes the heap larger and starts again.
  unfoldable pub alloc : (rounds size page_align : ℕ) → Heap → W → Outcome (ℕ × Heap × W)
  unfolding alloc_in add_space
  alloc zero size page_align h w = no_fuel
  alloc (suc n) size page_align h w =
      let new_size = u32 (size + (header_bytes + footer_bytes)) in
      let old_length = sub32 h.end_address h.start_address in
      elim (find_smallest_hole new_size page_align h) [
        | some iterator ↦ alloc_in size page_align iterator h >>= λ (p, h'). done (p, h', w)
        | none ↦ expand pager (u32 (old_length + new_size)) h w >>= λ (h', w').
            add_space old_length h.end_address h' >>= λ h''. alloc n size page_align h'' w'
      ]
