-- ===== src/Pmm/Blocks.antt =====
-- Blocks that are allocated, freed and handed over by region.
use jslk.Base.{
  ℕ, refl, sym, inl, inr, true, false, Option, none, some, arith, ==→eq, Bool-cases, ◌+◌, ◌-◌, ◌*◌,
  ◌/◌, ◌%◌, ◌^◌, ◌≤◌, ◌<◌, ◌≡◌, ◌∙◌, ◌⊎◌, ◌==◌, if◌then◌else◌,
}
use jslk.Base.Bits.{bit}
use jslk.Heap.{u32}
use jslk.Frames.{FrameMap, set_frame, clear_frame, first_frame, page_size}
use jslk.Frames.Search.{FirstFree, first_frame-FirstFree}
use jslk.Base.Outcome.{done, panic}
use jslk.Pmm.{Pmm, pmm_set, pmm_unset, pmm_map_first_free, pmm_alloc_block, pmm_free_block}
use jslk.Frames.Bitmap.{used, used-set_frame, used-clear_frame}

-- The bitmap as the newer code has it: its frames are the blocks.
abbrev pub as_frames : Pmm → FrameMap
as_frames s = record {
  frames = s.memory_map;
  nframes = s.total_block_count;
  used_frames = s.used_blocks;
}

-- 1 if the block is marked as used, else 0.
abbrev pub taken : Pmm → ℕ → ℕ
taken s n = bit (s.memory_map (n / 32)) (n % 32)

pub taken-pmm_set : (k n : ℕ) (s : Pmm) → taken (pmm_set k s) n ≡ (if n == k then 1 else taken s n)
unfolding pmm_set set_frame used
taken-pmm_set k n s =
    let at : k * 4096 / page_size ≡ k = omega arith in
    rw at at (used-set_frame (as_frames s) (k * 4096) n)

pub taken-pmm_unset :
    (k n : ℕ) (s : Pmm) → taken (pmm_unset k s) n ≡ (if n == k then 0 else taken s n)
unfolding pmm_unset clear_frame used
taken-pmm_unset k n s =
    let at : k * 4096 / page_size ≡ k = omega arith in
    rw at at (used-clear_frame (as_frames s) (k * 4096) n)

first_block-FirstFree :
    (s : Pmm)
    → s.total_block_count ≤ 2 ^ 20
    → FirstFree (as_frames s) 0 (s.total_block_count / 32 * 32) (pmm_map_first_free s)
unfolding pmm_map_first_free first_frame
first_block-FirstFree s small = first_frame-FirstFree (as_frames s) (omega arith)

Option-cases : (o : Option ℕ) → (o ≡ none) ⊎ ((x : ℕ) × (o ≡ some x))
Option-cases none = inl refl
Option-cases (some x) = inr (x, refl)

alloc_block_found :
    (s : Pmm) (frame : ℕ)
    → 0 < s.total_block_count
    → pmm_map_first_free s ≡ some frame
    → pmm_alloc_block s
      ≡ done (
        u32 (frame * 4096),
        record (pmm_set frame s) {
          used_blocks = u32 ((pmm_set frame s).used_blocks + 1);
          interrupts = true;
        },
      )
unfolding pmm_alloc_block
alloc_block_found s frame pos found =
    let some_blocks : (s.total_block_count == 0) ≡ false = ground arith in
    rw (some_blocks, found) refl

alloc_block_none : (s : Pmm) → pmm_map_first_free s ≡ none → pmm_alloc_block s ≡ panic
unfolding pmm_alloc_block
alloc_block_none s full = elim (Bool-cases (s.total_block_count == 0)) [
  | inl e ↦ rw e refl
  | inr e ↦ rw (e, full) refl
]

-- The marks do not depend on the count of the used blocks.
unset_after_set :
    (s : Pmm) (frame n : ℕ)
    → taken s frame ≡ 0
    → taken (pmm_unset frame (pmm_set frame s)) n ≡ taken s n
unset_after_set s frame n free =
    taken-pmm_unset frame n (pmm_set frame s) ∙ (elim (Bool-cases (n == frame)) [
      | inl e ↦ rw (e, ==→eq n frame e) (sym free)
      | inr e ↦ rw e (taken-pmm_set frame n s ∙ rw e refl)
    ])

free_restores :
    (s : Pmm) (frame n : ℕ)
    → taken s frame ≡ 0
    → frame < 2 ^ 20
    → taken
        (pmm_free_block (u32 (frame * 4096)) (record (pmm_set frame s) {
          used_blocks = u32 ((pmm_set frame s).used_blocks + 1);
          interrupts = true;
        }))
        n
      ≡ taken s n
unfolding pmm_free_block pmm_unset
free_restores s frame n free small =
    let at : u32 (frame * 4096) / 4096 ≡ frame = omega arith in
    rw at (unset_after_set s frame n free)

free_count : (p : ℕ) (s : Pmm) → (pmm_free_block p s).used_blocks ≡ u32 (s.used_blocks + 2 ^ 32 - 1)
unfolding pmm_free_block pmm_unset
free_count p s = refl

set_count : (k : ℕ) (s : Pmm) → (pmm_set k s).used_blocks ≡ s.used_blocks
unfolding pmm_set
set_count k s = refl

-- `pmmAllocBlock` panics if each block of the whole words is marked. If not, it returns the address
-- of the lowest block of the whole words that is not, marks it and counts it; a call of `pmmFreeBlock` with that
-- address brings the marks and the count back. There are at most 2^20 blocks, and at least one, and
-- the count is below 2^32 - 1.
pub pmm_alloc_then_free :
    (s : Pmm)
    → 0 < s.total_block_count
    → s.total_block_count ≤ 2 ^ 20
    → s.used_blocks + 1 < 2 ^ 32
    → ((pmm_alloc_block s ≡ panic) × ((k : ℕ) → k < s.total_block_count / 32 * 32 → taken s k ≡ 1))
      ⊎ ((frame : ℕ) × (s' : Pmm) × (pmm_alloc_block s ≡ done (frame * 4096, s'))
          × (frame < s.total_block_count / 32 * 32)
          × (taken s frame ≡ 0)
          × ((k : ℕ) → k < frame → taken s k ≡ 1)
          × ((n : ℕ) → taken s' n ≡ (if n == frame then 1 else taken s n))
          × (s'.used_blocks ≡ s.used_blocks + 1)
          × ((n : ℕ) → taken (pmm_free_block (frame * 4096) s') n ≡ taken s n)
          × ((pmm_free_block (frame * 4096) s').used_blocks ≡ s.used_blocks))
unfolding used
pmm_alloc_then_free s pos small count =
    let least = first_block-FirstFree s small in
    elim (Option-cases (pmm_map_first_free s)) [
      | inl found ↦
          let full = rw found at least in
          inl (alloc_block_none s found, λ k lt. full k (omega arith) lt)
      | inr (frame, found) ↦
          let (lo, hi, free, below) = rw found at least in
          let at : u32 (frame * 4096) ≡ frame * 4096 = omega arith in
          let low : frame < 2 ^ 20 = omega arith in
          let s1 = pmm_set frame s in
          let counted = set_count frame s in
          let s' : Pmm = record s1 { used_blocks = u32 (s1.used_blocks + 1); interrupts = true } in
          let up : s'.used_blocks ≡ s.used_blocks + 1 = rw counted (omega arith) in
          inr (
            frame,
            s',
            alloc_block_found s frame pos found ∙ rw at refl,
            hi,
            free,
            (λ k lt. below k (omega arith) lt),
            (λ n. taken-pmm_set frame n s),
            up,
            (λ n. rw at at (free_restores s frame n free low)),
            free_count (frame * 4096) s' ∙ rw counted (omega arith),
          )
    ]
