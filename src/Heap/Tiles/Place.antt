-- ===== src/Heap/Tiles/Place.antt =====
-- `alloc` puts a block into a hole of the row: the whole hole, or a part with a hole behind it.
use jslk.Base.{
  ℕ, refl, ap, inr, true, false, List, [], arith, ltb, ltb→lt, ltb→le, lt→ltb, le→ltb, ◌+◌, ◌-◌,
  ◌^◌, ◌≤◌, ◌<◌, ◌≡◌, ◌∙◌, ◌∷◌, ◌++◌, if◌then◌else◌,
}
use jslk.Base.Outcome.{Outcome, done, ◌>>=◌}
use jslk.OrderedArray.Contents.{Holds, Holds-eq}
use jslk.Heap.{Heap, u32, sub32}
use jslk.Heap.Layout.{IsFooter}
use jslk.Heap.Alloc.{Fit, take_whole, place_block}
use jslk.Heap.Block.{IsFit, place_block_whole, place_block_split}
use jslk.Heap.Tiles.{
  Tile, used, hole, total, total-append, hole_addresses, IsTile, AreTiles, AreTiles-at, IsRow,
  IsTiled,
}
use jslk.Heap.Tiles.Row.{IsRow-replace, others, hole_addresses-carved, hole_addresses-used}
use jslk.Heap.Tiles.Index.{index_insert-IsTiled}

-- What becomes of a hole of `n` bytes that a block of `need` bytes is put into.
unfoldable pub carve : (n need : ℕ) → List Tile
carve n need = if ltb n (need + 20) then used n ∷ [] else used need ∷ hole (n - need) ∷ []

module _ (pos n size : ℕ) (fits : size + 20 ≤ n) (low : n < 2 ^ 32) where
  -- The block takes the whole hole, or a part of it.
  abbrev pub all_of : Fit
  all_of = record { pos = pos; hole_size = n; size = n - 20; new_size = n }

  abbrev pub part_of : Fit
  part_of = record { pos = pos; hole_size = n; size = size; new_size = size + 20 }

  pub take_whole-all : ltb n (size + 20 + 20) ≡ true → take_whole pos n size ≡ all_of
  unfolding take_whole
  take_whole-all few =
      let less = ltb→lt _ _ few in
      let slack : ltb (sub32 n (u32 (size + 20))) 20 ≡ true = lt→ltb _ _ (omega arith) in
      let grown : u32 (size + sub32 n (u32 (size + 20))) ≡ n - 20 = omega arith in
      rw (slack, grown) refl

  pub take_whole-part : ltb n (size + 20 + 20) ≡ false → take_whole pos n size ≡ part_of
  unfolding take_whole
  take_whole-part many =
      let more = ltb→le _ _ many in
      let slack : ltb (sub32 n (u32 (size + 20))) 20 ≡ false = le→ltb _ _ (omega arith) in
      let new_size : u32 (size + 20) ≡ size + 20 = omega arith in rw slack (rw new_size refl)

module _ (f : Fit) (h : Heap) (ls rs : List Tile) where
  pub place_block-used :
      IsRow h.memory h.start_address h.end_address (ls ++ hole f.hole_size ∷ rs)
      → Holds h.index (others h.start_address f.hole_size ls rs)
      → f.pos ≡ h.start_address + total ls
      → IsFit f
      → f.new_size ≡ f.hole_size
      → (h' : Heap) × (place_block f h ≡ done (f.pos + 12, h'))
        × IsTiled h' (ls ++ used f.hole_size ∷ rs)
  unfolding total AreTiles IsTile hole_addresses
  place_block-used row v at fit same =
      let n = f.hole_size in
      let s = h.start_address in
      let e = h.end_address in
      let (m, run, placed) = place_block_whole f h fit same in
      let tile : AreTiles m e f.pos (used n ∷ []) =
        ((rw same at placed.header, rw same at placed.footer, omega arith), tt) in
      let row' =
        IsRow-replace h.memory m s e ls (hole n ∷ []) (used n ∷ []) rs row
          (λ j apart. placed.outside j (omega arith)) (AreTiles-at m e (used n ∷ []) at tile)
          refl in
      (
        record h { memory = m },
        run,
        record { row = row'; indexed = Holds-eq (hole_addresses-used s n ls rs) v },
      )

  pub place_block-carved :
      IsRow h.memory h.start_address h.end_address (ls ++ hole f.hole_size ∷ rs)
      → Holds h.index (others h.start_address f.hole_size ls rs)
      → f.pos ≡ h.start_address + total ls
      → IsFit f
      → f.new_size + 20 ≤ f.hole_size
      → (h' : Heap) × (place_block f h ≡ done (f.pos + 12, h'))
        × IsTiled h' (ls ++ used f.new_size ∷ hole (f.hole_size - f.new_size) ∷ rs)
  unfolding total AreTiles IsTile hole_addresses
  place_block-carved row v at fit room =
      let n = f.hole_size in
      let new = f.new_size in
      let s = h.start_address in
      let e = h.end_address in
      let us = used new ∷ hole (n - new) ∷ [] in
      let (m, run, placed, rest) = place_block_split f h fit room in
      let inside : f.pos + n ≤ e = omega (arith, row.whole, total-append ls (hole n ∷ rs)) in
      let below : ltb (f.pos + n - 8) e ≡ true = lt→ltb _ _ (omega arith) in
      let rest_footer : IsFooter m (f.pos + n - 8) (f.pos + new) = rw below at rest.footer in
      let footer_at : f.pos + n - 8 ≡ f.pos + new + (n - new) - 8 = omega arith in
      let tiles : AreTiles m e f.pos us = (
        (placed.header, placed.footer, omega arith),
        ((rest.header, inr (rw (← footer_at) rest_footer), omega arith), tt),
      ) in
      let row' =
        IsRow-replace h.memory m s e ls (hole n ∷ []) us rs row
          (λ j apart. placed.outside j (omega arith)) (AreTiles-at m e us at tiles) (omega arith) in
      let (h', insert, same, v') =
        index_insert-IsTiled (record h { memory = m }) (f.pos + new) (hole_addresses s ls)
          (hole_addresses (s + total ls + n) rs) (ls ++ (us ++ rs)) row'
          (hole_addresses-carved s n new (f.pos + new) ls rs fit.inside (omega arith)) v in
      (h', run ∙ ap (λ (r : Outcome Heap). r >>= λ h''. done (f.pos + 12, h'')) insert, v')
