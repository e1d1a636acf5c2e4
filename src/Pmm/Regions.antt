-- ===== src/Pmm/Regions.antt =====
-- What the manager holds after its start, and after a region is handed over.
use jslk.Base.{
  ℕ, zero, suc, refl, ap, true, some, map, arith, ltb, leb, ◌+◌, ◌-◌, ◌*◌, ◌/◌, ◌%◌, ◌^◌, ◌≤◌, ◌<◌,
  ◌≡◌, ◌∙◌, ◌&&◌, ◌==◌, if◌then◌else◌,
}
use jslk.Pmm.Blocks.{as_frames, taken, taken-pmm_set, taken-pmm_unset}
use jslk.Pmm.{
  Pmm, pmm_unset, pmm_map_first_free, pmm_init, fill_bytes, unset_blocks, pmm_init_region,
}
use jslk.Paging.Step.{first_frame_is}
use jslk.Heap.{u32}
use jslk.Frames.Bitmap.{used}
use jslk.Frames.{first_frame}
use jslk.Base.Bits.{bit}

unset_step :
    (x y z align n k : ℕ)
    → x ≡ (if k == align then 0 else y)
    → z ≡ (if leb (align + 1) k && ltb k (align + 1 + n) then 0 else x)
    → z ≡ (if leb align k && ltb k (align + suc n) then 0 else y)
unset_step x y z align n k first rest = ground arith

taken-unset_blocks :
    (n align k : ℕ) (s : Pmm)
    → taken (unset_blocks n align s) k ≡ (if leb align k && ltb k (align + n) then 0 else taken s k)
unfolding unset_blocks
taken-unset_blocks zero align k s = ground arith
taken-unset_blocks (suc n) align k s =
    let s1 = pmm_unset align s in
    let s' : Pmm = record s1 { used_blocks = u32 (s1.used_blocks + 2 ^ 32 - 1) } in
    unset_step _ _ _ align n k (taken-pmm_unset align k s) (taken-unset_blocks n (align + 1) k s')

-- `pmmInitRegion` frees the blocks of a region, those that begin in it counted from its first page
-- on, and no other; block 0 it marks as used, also when it lies in the region.
pub pmm_init_region-taken :
    (base size k : ℕ) (s : Pmm)
    → taken (pmm_init_region base size s) k ≡ (
        if k == 0
        then 1
        else if leb (base / 4096) k && ltb k (base / 4096 + size / 4096)
        then 0
        else taken s k)
unfolding pmm_init_region
pmm_init_region-taken base size k s =
    taken-pmm_set 0 k (unset_blocks (size / 4096) (base / 4096) s)
    ∙ ap (λ (x : ℕ). if k == 0 then 1 else x) (taken-unset_blocks (size / 4096) (base / 4096) k s)

first_word : (n : ℕ) (map : ℕ → ℕ) → 4 ≤ n → fill_bytes n map 0 ≡ 0x0F0F0F0F
unfolding fill_bytes
first_word n map enough = let whole : leb 4 n ≡ true = ground arith in rw whole refl

low_digits : (j : ℕ) → j < 4 → bit 0x0F0F0F0F j ≡ 1
unfolding bit
low_digits zero lt = refl
low_digits (suc zero) lt = refl
low_digits (suc (suc zero)) lt = refl
low_digits (suc (suc (suc zero))) lt = refl
low_digits (suc (suc (suc (suc j)))) lt = absurd (omega arith)

filled_digit :
    (n j : ℕ) (map : ℕ → ℕ)
    → 4 ≤ n
    → j < 32
    → bit (fill_bytes n map (j / 32)) (j % 32) ≡ bit 0x0F0F0F0F j
filled_digit n j map enough lt =
    let word : j / 32 ≡ 0 = omega arith in
    let digit : j % 32 ≡ j = omega arith in rw (word, digit, first_word n map enough) refl

-- `pmmInit` is meant to mark every block as used. With 32 blocks or more it marks the first four
-- and leaves the fifth free, where the next allocation is.
pub pmm_init_leaves_free :
    (mem_size : ℕ) (bitmap : ℕ → ℕ) (s : Pmm)
    → 128 ≤ mem_size
    → mem_size < 2 ^ 22
    → pmm_map_first_free (pmm_init mem_size bitmap s) ≡ some 4
unfolding pmm_map_first_free first_frame pmm_init used bit
pmm_init_leaves_free mem_size bitmap s enough small =
    let count = u32 (mem_size * 1024) / 4096 in
    let bytes : 4 ≤ count / 8 = omega arith in
    first_frame_is (as_frames (pmm_init mem_size bitmap s)) 4 (omega arith) (omega arith)
      (filled_digit (count / 8) 4 bitmap bytes (omega arith))
      (λ j lt. filled_digit (count / 8) j bitmap bytes (omega arith) ∙ low_digits j lt)
