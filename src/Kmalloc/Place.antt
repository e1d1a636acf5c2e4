-- ===== src/Kmalloc/Place.antt =====
-- Placement of memory before there is a heap.
use jslk.Base.{
  ℕ, refl, Bool, none, some, arith, leb, ◌+◌, ◌-◌, ◌*◌, ◌/◌, ◌^◌, ◌≤◌, ◌<◌, ◌≡◌, ◌&&◌, ◌==◌,
  if◌then◌else◌,
}
use jslk.Base.Bits.{bit_and-page}
use jslk.Base.Outcome.{done}
use jslk.Heap.{u32}
use jslk.Heap.Resize.{Pager}
use jslk.Kmalloc.{Kernel, align_placement, kmalloc_int}

align_placement_lem :
    (align p : ℕ)
    → p < 2 ^ 32 - 0x1000
    → align_placement align p
      ≡ (if (align == 1) && leb 0x1000 p then (p / 0x1000 + 1) * 0x1000 else p)
unfolding align_placement
align_placement_lem align p low = rw (bit_and-page p (omega arith)) (ground arith)

-- While there is no heap and the block ends below 2^32, `kmalloc_int` succeeds and returns an
-- address not below the placement address, which it leaves right behind the block; it stores the
-- same address as the physical one. An aligned block starts at the page boundary above the
-- placement address, a whole page further where that was aligned, except in the first page, where
-- nothing is aligned.
pub kmalloc_int-placement :
    {W : Type 0} (pager : Pager W) (frame_of : ℕ → W → ℕ) (rounds sz align : ℕ) (phys : Bool)
    (k : Kernel W)
    → k.kheap ≡ none
    → k.placement_address + 0x1000 + sz < 2 ^ 32
    → let p = k.placement_address in
      let addr = if (align == 1) && leb 0x1000 p then (p / 0x1000 + 1) * 0x1000 else p in
      (kmalloc_int pager frame_of rounds sz align phys k
        ≡ done (addr, if phys then some addr else none, record k { placement_address = addr + sz }))
      × (p ≤ addr)
unfolding kmalloc_int
kmalloc_int-placement pager frame_of rounds sz align phys k no_heap low =
    let p = k.placement_address in
    let addr = if (align == 1) && leb 0x1000 p then (p / 0x1000 + 1) * 0x1000 else p in
    let above : p ≤ addr = ground arith in
    let below : addr ≤ p + 0x1000 = ground arith in
    let wrap : u32 (addr + sz) ≡ addr + sz = omega arith in
    (rw no_heap (rw (align_placement_lem align p (omega arith)) (rw wrap refl)), above)
