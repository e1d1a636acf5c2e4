-- ===== src/Pmm.antt =====
-- hal/x86/memory/legacy/pmm.c: the physical memory manager of the older memory code.
pub mod Blocks
pub mod Regions
mod Tests
use jslk.Base.{
  ℕ, zero, suc, min, max, bit_and, bit_or, refl, sym, ap, fun_ext, inl, inr, Bool, true, false, not,
  Option, none, some, List, [], map, arith, ltb, leb, ltb→lt, ltb→le, lt→ltb, le→ltb, ==→eq, ==→ne,
  eq→==, ne→==, Bool-cases, tests, write, write_self, write_ne, length, get_or, length-append, ◌+◌,
  ◌-◌, ◌*◌, ◌/◌, ◌%◌, ◌^◌, ◌≤◌, ◌<◌, ◌≡◌, ◌∙◌, ◌≢◌, ◌↔◌, ◌⊎◌, ◌&&◌, ◌||◌, ◌∷◌, ◌++◌, ◌==◌,
  if◌then◌else◌,
}
use jslk.Base.Outcome.{Outcome, done, panic}
use jslk.Frames.{not_bit, first_in_words}
use jslk.Heap.{u32}

abbrev pub pmm_block_size : ℕ
pmm_block_size = 4096

-- The variables of the manager; `interrupts` is whether the processor takes interrupts.
pub record Pmm : Type 0 where
  pub mem_size : ℕ
  pub used_blocks : ℕ
  pub memory_map : ℕ → ℕ
  pub total_block_count : ℕ
  pub interrupts : Bool

-- Numbers of blocks are `int`s that are not negative.
unfoldable pub pmm_set : (bit : ℕ) → Pmm → Pmm
pmm_set bit s = record s {
  memory_map = write s.memory_map (bit / 32) (bit_or (s.memory_map (bit / 32)) (2 ^ (bit % 32)));
}

unfoldable pub pmm_unset : (bit : ℕ) → Pmm → Pmm
pmm_unset bit s = record s {
  memory_map =
      write s.memory_map (bit / 32) (bit_and (s.memory_map (bit / 32)) (not_bit (bit % 32)));
}

-- `none` is -1. The loops are those of `first_frame`.
unfoldable pub pmm_map_first_free : Pmm → Option ℕ
pmm_map_first_free s = first_in_words s.memory_map (s.total_block_count / 32) 0

-- `memset(pmm_memory_map, 0xf, n)`, for the words that the bytes make.
unfoldable pub fill_bytes : (n : ℕ) → (ℕ → ℕ) → ℕ → ℕ
fill_bytes n map i =
    if leb (4 * i + 4) n
    then 0x0F0F0F0F
    else if leb n (4 * i)
    then map i
    else map i / 256 ^ (n - 4 * i) * 256 ^ (n - 4 * i) + 0x0F0F0F0F % 256 ^ (n - 4 * i)

-- `bitmap` is what the memory of the bitmap holds.
unfoldable pub pmm_init : (mem_size : ℕ) (bitmap : ℕ → ℕ) → Pmm → Pmm
pmm_init mem_size bitmap s =
    let count = u32 (mem_size * 1024) / pmm_block_size in
    record s {
      mem_size = mem_size;
      total_block_count = count;
      used_blocks = count;
      memory_map = fill_bytes (count / 8) bitmap;
    }

-- The loops over a region, with `blocks` left.
unfoldable pub unset_blocks : (blocks align : ℕ) → Pmm → Pmm
unfolding pmm_unset
unset_blocks zero align s = s
unset_blocks (suc n) align s =
    let s' = pmm_unset align s in
    unset_blocks n (align + 1) (record s' { used_blocks = u32 (s'.used_blocks + 2 ^ 32 - 1) })

unfoldable pub set_blocks : (blocks align : ℕ) → Pmm → Pmm
unfolding pmm_set
set_blocks zero align s = s
set_blocks (suc n) align s =
    let s' = pmm_set align s in
    set_blocks n (align + 1) (record s' { used_blocks = u32 (s'.used_blocks + 1) })

unfoldable pub pmm_init_region : (base size : ℕ) → Pmm → Pmm
unfolding unset_blocks pmm_set
pmm_init_region base size s =
    pmm_set 0 (unset_blocks (size / pmm_block_size) (base / pmm_block_size) s)

unfoldable pub pmm_deinit_region : (base size : ℕ) → Pmm → Pmm
unfolding set_blocks
pmm_deinit_region base size s = set_blocks (size / pmm_block_size) (base / pmm_block_size) s

-- The value is the address of the block.
unfoldable pub pmm_alloc_block : Pmm → Outcome (ℕ × Pmm)
unfolding pmm_map_first_free pmm_set
pmm_alloc_block s = if s.total_block_count == 0 then panic else elim (pmm_map_first_free s) [
  | none ↦ panic
  | some frame ↦
      let s' = pmm_set frame s in
      done (
        u32 (frame * pmm_block_size),
        record s' { used_blocks = u32 (s'.used_blocks + 1); interrupts = true },
      )
]

unfoldable pub pmm_free_block : (p : ℕ) → Pmm → Pmm
unfolding pmm_unset
pmm_free_block p s =
    let s' = pmm_unset (p / pmm_block_size) s in
    record s' { used_blocks = u32 (s'.used_blocks + 2 ^ 32 - 1) }

-- The loop of `pmmFreeBlocks`, with `n` blocks left.
unfoldable pub unset_run : (n frame : ℕ) → Pmm → Pmm
unfolding pmm_unset
unset_run zero frame s = s
unset_run (suc n) frame s = unset_run n (frame + 1) (pmm_unset frame s)

unfoldable pub pmm_free_blocks : (p size : ℕ) → Pmm → Pmm
unfolding unset_run
pmm_free_blocks p size s =
    let s' = unset_run size (p / pmm_block_size) s in
    record s' { used_blocks = u32 (s'.used_blocks + 2 ^ 32 - size) }
