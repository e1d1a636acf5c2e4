-- ===== src/Heap/Serve.antt =====
-- `alloc` when the index has a hole for the request.
use jslk.Base.{ℕ, suc, refl, some, arith, ◌+◌, ◌-◌, ◌^◌, ◌≤◌, ◌<◌, ◌≡◌}
use jslk.Base.Outcome.{done}
use jslk.Heap.{Heap, u32, header_size, fits, find_smallest_hole}
use jslk.Heap.Resize.{Pager}
use jslk.Heap.Search.{FirstFit, find_smallest_hole-FirstFit}
use jslk.Heap.Alloc.{Fit, alloc, alloc_in}
use jslk.Heap.Block.{IsPlaced, alloc_in-IsPlaced}

-- A round of `alloc` that finds a hole.
pub alloc_found :
    {W : Type 0} (pager : Pager W) (rounds size iterator p : ℕ) (h h' : Heap) (w : W)
    → find_smallest_hole (u32 (size + 20)) 0 h ≡ some iterator
    → alloc_in size 0 iterator h ≡ done (p, h')
    → alloc pager (suc rounds) size 0 h w ≡ done (p, h', w)
unfolding alloc
alloc_found pager rounds size iterator p h h' w found run = rw (alloc, found) (rw run refl)

-- The hole that is found is an entry of the index with room for the request.
pub found_fits :
    (size iterator : ℕ) (h : Heap)
    → find_smallest_hole size 0 h ≡ some iterator
    → (iterator < h.index.size) × (size ≤ header_size h.memory (h.index.array iterator))
unfolding fits
found_fits size iterator h found =
    let first : FirstFit h.memory h.index.array size 0 0 h.index.size (some iterator) =
      rw found at (find_smallest_hole-FirstFit size 0 h) in
    (first.1, ground (arith, first.2))

-- A request that need not be aligned, with its header and footer below 2^32 and a hole that
-- `find_smallest_hole` finds, is served in one round and without the pager: `alloc` returns the
-- address behind the header of a block at the place of the hole. The block has its header and its
-- footer, and room for the request between them, lies in the hole, and no byte outside the hole
-- changes.
pub alloc-IsPlaced :
    {W : Type 0} (pager : Pager W) (rounds size iterator : ℕ) (h : Heap) (w : W)
    → let pos = h.index.array iterator in
      let hole_size = header_size h.memory pos in
      size + 20 < 2 ^ 32
      → find_smallest_hole (size + 20) 0 h ≡ some iterator
      → pos + hole_size < 2 ^ 32
      → (f : Fit) × (h' : Heap) × (alloc pager (suc rounds) size 0 h w ≡ done (pos + 12, h', w))
        × IsPlaced f h.memory h'.memory
        × (f.pos ≡ pos)
        × (f.hole_size ≡ hole_size)
        × (f.new_size ≤ hole_size)
        × (pos + 12 + size ≤ pos + f.new_size - 8)
alloc-IsPlaced pager rounds size iterator h w small found low =
    let array = h.index.array in
    let (inside, enough) = found_fits (size + 20) iterator h found in
    let new_size : u32 (size + 20) ≡ size + 20 = omega arith in
    let (f, h', run, placed, at, hole, new, room) =
      alloc_in-IsPlaced size iterator h inside enough low in
    (
      f,
      h',
      alloc_found pager rounds size iterator (array iterator + 12) h h' w (rw new_size found) run,
      placed,
      at,
      hole,
      new,
      room,
    )
