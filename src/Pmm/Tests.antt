-- ===== src/Pmm/Tests.antt =====
-- The theorems at memories of 64 blocks and of 512 kB.
use jslk.Base.{ℕ, true, arith, ◌*◌, ◌<◌, ◌≡◌, ◌⊎◌, ◌==◌, if◌then◌else◌}
use jslk.Base.Outcome.{done, panic}
use jslk.Pmm.{Pmm, pmm_alloc_block, pmm_free_block}
use jslk.Pmm.Blocks.{taken, pmm_alloc_then_free}

-- The first 32 blocks are marked.
abbrev half : Pmm
half = record {
  mem_size = 256;
  used_blocks = 32;
  memory_map = λ i. if i == 0 then 0xFFFFFFFF else 0;
  total_block_count = 64;
  interrupts = true;
}

pmm_alloc_then_free_example :
    ((pmm_alloc_block half ≡ panic) × ((k : ℕ) → k < 64 → taken half k ≡ 1))
    ⊎ ((frame : ℕ) × (s' : Pmm) × (pmm_alloc_block half ≡ done (frame * 4096, s'))
        × (frame < 64)
        × (taken half frame ≡ 0)
        × ((k : ℕ) → k < frame → taken half k ≡ 1)
        × ((n : ℕ) → taken s' n ≡ (if n == frame then 1 else taken half n))
        × (s'.used_blocks ≡ 33)
        × ((n : ℕ) → taken (pmm_free_block (frame * 4096) s') n ≡ taken half n)
        × ((pmm_free_block (frame * 4096) s').used_blocks ≡ 32))
pmm_alloc_then_free_example = pmm_alloc_then_free half (omega arith) (omega arith) (omega arith)
