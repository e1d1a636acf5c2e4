-- ===== src/Paging/Reserve.antt =====
-- Which frames the regions of the memory map take, and how long the loops over them run.
use jslk.Base.{
  ℕ, zero, suc, refl, inl, inr, true, false, arith, ltb, leb, ltb→lt, ltb→le, lt→ltb, le→ltb,
  Bool-cases, ◌+◌, ◌-◌, ◌*◌, ◌/◌, ◌%◌, ◌^◌, ◌≤◌, ◌<◌, ◌≡◌, ◌∙◌,
}
use jslk.Base.Bits.{bit_and-page64}
use jslk.Base.Outcome.{done, Returns}
use jslk.Frames.{FrameMap, set_frame}
use jslk.Frames.Bitmap.{used}
use jslk.Heap.{u32}
use jslk.Paging.Regions.{
  MemoryMap, reserve_from, reserve_region, page_part, deinit_from, deinit_region, clear_bytes,
  start_bitmap,
}

reserve_end : (n i : ℕ) (m : FrameMap) → reserve_from (suc n) i 0 m ≡ done m
unfolding reserve_from
reserve_end n i m = rw (le→ltb i 0 (omega arith)) refl

reserve_none : (i : ℕ) (m : FrameMap) → reserve_from (2 ^ 20) i 0 m ≡ done m
reserve_none i m = reserve_end (2 ^ 20 - 1) i m

-- A region of type 2 that ends at 2^32: the sum of its base and its length is 0, and no frame of it
-- is marked.
pub reserve_region_top :
    (region : MemoryMap) (m : FrameMap)
    → 0 < region.base_addr_low
    → region.base_addr_low + 0xFFF < 2 ^ 32 - 1
    → region.base_addr_low + region.length_low ≡ 2 ^ 32
    → reserve_region region m ≡ done m
unfolding reserve_region
reserve_region_top region m pos low top =
    let base = region.base_addr_low in
    let start : page_part (u32 (base + 0xFFF)) ≡ (base + 0xFFF) / 0x1000 * 0x1000 =
      bit_and-page64 (u32 (base + 0xFFF)) (omega arith) ∙ omega arith in
    let stop : page_part (u32 (base + region.length_low)) ≡ 0 =
      bit_and-page64 (u32 (base + region.length_low)) (omega arith) ∙ omega arith in
    let below : ltb ((base + 0xFFF) / 0x1000 * 0x1000) 0xFFFFFFFF ≡ true =
      lt→ltb _ _ (omega arith) in
    rw (start, stop) (rw below (reserve_none ((base + 0xFFF) / 0x1000 * 0x1000) m))

deinit_from-Returns :
    (n address size : ℕ) (m : FrameMap)
    → size ≤ 2 ^ 32 - 0x1000
    → size ≤ address + n * 0x1000
    → m.nframes < 2 ^ 32
    → Returns
        (λ m'. m'.nframes ≡ (m.nframes + 2 ^ 32 - (size - address + 0xFFF) / 0x1000) % 2 ^ 32)
        (deinit_from n address size m)
unfolding deinit_from set_frame
deinit_from-Returns zero address size m top enough word =
    rw (le→ltb address size (omega arith)) (m, refl, omega arith)
deinit_from-Returns (suc n) address size m top enough word = elim (Bool-cases (ltb address size)) [
  | inr e ↦ (let le = ltb→le address size e in rw e (m, refl, omega arith))
  | inl e ↦
      let lt = ltb→lt address size e in
      let m1 = set_frame m address in
      let (m', run, count) =
        deinit_from-Returns n (u32 (address + 0x1000)) size
          (record m1 { nframes = u32 (m1.nframes + 2 ^ 32 - 1) }) top (omega arith) (omega arith) in
      rw e (m', run, count ∙ omega arith)
]

-- `deinit_region` ends, for a size that stays a page below 2^32, after at most size / 0x1000 + 1
-- rounds. The address that it counts with is the number of the first frame: it takes one frame off
-- `nframes` for each step of 0x1000 from that number up to the size.
pub deinit_region-Returns :
    (rounds addr size : ℕ) (m : FrameMap)
    → size ≤ 2 ^ 32 - 0x1000
    → size / 0x1000 < rounds
    → m.nframes < 2 ^ 32
    → Returns
        (λ m'. m'.nframes ≡ (m.nframes + 2 ^ 32 - (size - addr / 0x1000 + 0xFFF) / 0x1000) % 2 ^ 32)
        (deinit_region rounds addr size m)
unfolding deinit_region
deinit_region-Returns rounds addr size m top enough word =
    deinit_from-Returns rounds (addr / 0x1000) size m top (omega arith) word

-- `start_pmm` clears as many bytes as the bitmap has words: from the word nframes / 128 + 1 on, a
-- frame is used or free by what the memory happened to hold.
pub start_bitmap-used :
    (fresh : ℕ → ℕ) (mem_size n : ℕ) (m : FrameMap)
    → m.frames ≡ fresh
    → mem_size / 0x1000 / 32 ≤ 4 * (n / 32)
    → used (start_bitmap fresh mem_size) n ≡ used m n
unfolding start_bitmap clear_bytes used
start_bitmap-used fresh mem_size n m e late =
    let bytes = mem_size / 0x1000 / 32 in
    let word = n / 32 in
    let not_all : leb (4 * word + 4) bytes ≡ false = ground arith in
    let not_any : leb bytes (4 * word) ≡ true = ground arith in rw (not_all, not_any, e) refl
