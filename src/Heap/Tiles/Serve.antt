-- ===== src/Heap/Tiles/Serve.antt =====
-- `alloc` on the row of blocks: the hole that is found becomes a block, with a hole behind it if
-- there is room for one.
use jslk.Base.{
  ℕ, suc, refl, sym, ap, inl, inr, some, List, arith, ltb, ltb→le, Bool-cases, ◌+◌, ◌^◌, ◌≤◌, ◌<◌,
  ◌≡◌, ◌∙◌, ◌∷◌, ◌++◌,
}
use jslk.Base.Outcome.{done}
use jslk.OrderedArray.Contents.{Holds-remove, Holds-member, Holds, Holds-eq}
use jslk.OrderedArray
use jslk.Heap.Serve.{alloc_found, found_fits}
use jslk.Heap.Resize.{Pager}
use jslk.Heap.{find_smallest_hole, header_size, Heap, u32}
use jslk.Heap.Alloc.{alloc, alloc_in, Fit, take_whole, place_block}
use jslk.Heap.Block.{without, alloc_in-place_block, take_whole-IsFit, IsFit}
use jslk.Heap.Tiles.{
  hole_addresses_few, AreTiles-split, hole_at, Tile, hole, total, total-append, hole_addresses,
  IsTile, AreTiles, IsTiled,
}
use jslk.Heap.Tiles.Place.{
  carve, all_of, part_of, take_whole-all, take_whole-part, place_block-used, place_block-carved,
}
use jslk.Heap.Tiles.Row.{hole_addresses-hole, others}

-- The hole of entry `iterator` of the index, in the row of blocks.
module _ (h : Heap) (tiles : List Tile) (v : IsTiled h tiles) where
  hole_of_entry :
      (iterator : ℕ)
      → iterator < h.index.size
      → (ls rs : List Tile) × (n : ℕ) × (tiles ≡ ls ++ hole n ∷ rs)
        × (h.start_address + total ls ≡ h.index.array iterator)
  hole_of_entry iterator inside =
      hole_at (h.index.array iterator) h.start_address tiles
        (Holds-member iterator v.indexed inside)

-- What a row says of one of its holes.
hole_header :
    (h : Heap) (ls rs : List Tile) (n : ℕ)
    → IsTiled h (ls ++ hole n ∷ rs)
    → (header_size h.memory (h.start_address + total ls) ≡ n)
      × (h.start_address + total ls + n ≤ h.end_address)
unfolding AreTiles IsTile total
hole_header h ls rs n v =
    let (_, (tile, _)) =
      AreTiles-split h.memory h.end_address h.start_address ls (hole n ∷ rs) v.row.tiled in
    (tile.0.size_eq, omega (arith, v.row.whole, total-append ls (hole n ∷ rs)))

index_bound : (h : Heap) (tiles : List Tile) → IsTiled h tiles → h.index.size < 2 ^ 32
index_bound h tiles v = omega (
  arith,
  hole_addresses_few h.memory h.end_address h.start_address tiles v.row.tiled,
  v.indexed.count,
  v.row.whole,
  v.row.low,
)

-- Taking the entry of a hole out of the index leaves those of the others.
entry_removed :
    (iterator n : ℕ) (h : Heap) (ls rs : List Tile)
    → IsTiled h (ls ++ hole n ∷ rs)
    → iterator < h.index.size
    → h.start_address + total ls ≡ h.index.array iterator
    → Holds (OrderedArray.remove iterator h.index) (others h.start_address n ls rs)
entry_removed iterator n h ls rs v inside at =
    let s = h.start_address in
    let left = hole_addresses s ls in
    let right = hole_addresses (s + total ls + n) rs in
    let split : left ++ h.index.array iterator ∷ right ≡ hole_addresses s (ls ++ hole n ∷ rs) =
      ap (λ p. left ++ p ∷ right) (sym at) ∙ sym (hole_addresses-hole s n ls rs) in
    Holds-remove iterator left right inside (index_bound h (ls ++ hole n ∷ rs) v)
      (Holds-eq split v.indexed)

alloc_in-IsTiled :
    (size iterator n : ℕ) (h : Heap) (ls rs : List Tile)
    → IsTiled h (ls ++ hole n ∷ rs)
    → iterator < h.index.size
    → h.start_address + total ls ≡ h.index.array iterator
    → size + 20 ≤ n
    → (h' : Heap) × (alloc_in size 0 iterator h ≡ done (h.start_address + total ls + 12, h'))
      × IsTiled h' (ls ++ (carve n (size + 20) ++ rs))
unfolding carve
alloc_in-IsTiled size iterator n h ls rs v inside at fits =
    let pos = h.start_address + total ls in
    let (header, within) = hole_header h ls rs n v in
    let low = v.row.low in
    let h0 = without iterator h in
    let gone : Holds h0.index (others h.start_address n ls rs) =
      entry_removed iterator n h ls rs v inside at in
    let start : alloc_in size 0 iterator h ≡ place_block (take_whole pos n size) h0 =
      alloc_in-place_block size iterator h inside
      ∙ ap (λ p. place_block (take_whole p (header_size h.memory p) size) h0) (sym at)
      ∙ ap (λ s. place_block (take_whole pos s size) h0) header in
    let fit : IsFit (take_whole pos n size) = (take_whole-IsFit pos n size fits (omega arith)).0 in
    elim (Bool-cases (ltb n (size + 20 + 20))) [
      | inl few ↦
          let f = all_of pos n size fits (omega arith) in
          let shape : take_whole pos n size ≡ f =
            take_whole-all pos n size fits (omega arith) few in
          let (h', run, v') = place_block-used f h0 ls rs v.row gone refl (rw shape at fit) refl in
          (h', start ∙ ap (λ (g : Fit). place_block g h0) shape ∙ run, rw few v')
      | inr many ↦
          let f = part_of pos n size fits (omega arith) in
          let shape : take_whole pos n size ≡ f =
            take_whole-part pos n size fits (omega arith) many in
          let more = ltb→le _ _ many in
          let (h', run, v') =
            place_block-carved f h0 ls rs v.row gone refl (rw shape at fit) (omega arith) in
          (h', start ∙ ap (λ (g : Fit). place_block g h0) shape ∙ run, rw many v')
    ]

-- A request that need not be aligned, with its header and footer below 2^32 and a hole that
-- `find_smallest_hole` finds, is served from a heap that is a row of blocks and holes, with every
-- hole once in the index: the heap is such a row again. The hole that was found has become a block
-- of at least the request with its header and footer, and what was more than that a hole behind it,
-- if it has room for a header and a footer; every other block and hole is where it was, and the
-- pointer returned is behind the new block's header.
pub alloc-IsTiled :
    {W : Type 0} (pager : Pager W) (rounds size iterator : ℕ) (h : Heap) (w : W) (tiles : List Tile)
    → IsTiled h tiles
    → size + 20 < 2 ^ 32
    → find_smallest_hole (size + 20) 0 h ≡ some iterator
    → (ls rs : List Tile) × (n : ℕ) × (h' : Heap) × (tiles ≡ ls ++ hole n ∷ rs)
      × (size + 20 ≤ n)
      × (alloc pager (suc rounds) size 0 h w ≡ done (h.start_address + total ls + 12, h', w))
      × IsTiled h' (ls ++ (carve n (size + 20) ++ rs))
alloc-IsTiled pager rounds size iterator h w tiles v small found =
    let (inside, enough) = found_fits (size + 20) iterator h found in
    let (ls, rs, n, e, at) = hole_of_entry h tiles v iterator inside in
    let v' : IsTiled h (ls ++ hole n ∷ rs) = rw e at v in
    let size_n : header_size h.memory (h.index.array iterator) ≡ n =
      ap (header_size h.memory) (sym at) ∙ (hole_header h ls rs n v').0 in
    let fits : size + 20 ≤ n = omega (arith, enough, size_n) in
    let new_size : u32 (size + 20) ≡ size + 20 = omega arith in
    let (h', run, tiled) = alloc_in-IsTiled size iterator n h ls rs v' inside at fits in
    (
      ls,
      rs,
      n,
      h',
      e,
      fits,
      alloc_found pager rounds size iterator (h.start_address + total ls + 12) h h' w
          (rw new_size found) run,
      tiled,
    )
