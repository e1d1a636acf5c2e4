-- ===== src/Heap/Tiles/GiveBack.antt =====
-- `free` of a block in front of another: the block stays a hole of its own, or becomes a part of the
-- hole in front of it.
use jslk.Base.{
  ℕ, refl, sym, ap, inl, inr, Bool, true, false, List, [], arith, eq→==, ne→==, Bool-cases, ◌+◌,
  ◌-◌, ◌^◌, ◌≤◌, ◌<◌, ◌≡◌, ◌∙◌, ◌≢◌, ◌∷◌, ◌++◌, ◌==◌, if◌then◌else◌,
}
use jslk.Base.Memory.{Memory, store8, store8_outside}
use jslk.Base.Outcome.{Outcome, done, ◌>>=◌}
use jslk.OrderedArray.Contents.{Holds-eq}
use jslk.Heap.{
  Heap, heap_magic, header_magic, header_is_hole, footer_magic, u32, sub32, index_insert,
}
use jslk.Heap.Layout.{IsHeader, IsFooter}
use jslk.Heap.Resize.{Pager}
use jslk.Heap.Free.{Joined, unify_left, unify_right, free, mark_hole-IsHeader}
use jslk.Heap.Tiles.{
  Tile, used, hole, total, total-append, hole_addresses, IsTile, AreTiles, AreTiles-split, IsTiled,
  IsHeader-same, IsFooter-same,
}
use jslk.Heap.Tiles.Row.{IsRow-replace, hole_addresses-hole, hole_addresses-used}
use jslk.Heap.Tiles.Index.{index_insert-IsTiled}
use jslk.Heap.Tiles.Join.{
  joined, joined-IsHeader, joined-IsFooter, joined-SameOutside, unify_left_joins,
}

unify_right_used :
    (j : Joined) (h : Heap)
    → header_is_hole h.memory (u32 (j.footer + 8)) ≡ 0
    → unify_right j h ≡ done (j, h)
unfolding unify_right
unify_right_used j h e =
    elim (Bool-cases (header_magic h.memory (u32 (j.footer + 8)) == heap_magic)) [
      | inl magic ↦ rw (magic, e) refl
      | inr magic ↦ rw magic refl
    ]

module _ {W : Type 0} (pager : Pager W) (h : Heap) (w : W) (pos n : ℕ) where
  -- `free` of a block in front of another, from what `unify_left` comes to.
  free_run :
      (hd : ℕ) (add : Bool) (m : Memory)
      → IsHeader h.memory pos 0 n
      → IsFooter h.memory (pos + n - 8) pos
      → 20 ≤ n
      → pos + n < 2 ^ 32
      → pos + n ≢ h.end_address
      → unify_left pos (pos + n - 8) (store8 h.memory (pos + 4) 1)
        ≡ (record { header = hd; footer = pos + n - 8; do_add = add }, m)
      → header_is_hole m (pos + n) ≡ 0
      → free pager (pos + 12) h w ≡ (
          if add
          then (index_insert (record h { memory = m }) hd >>= λ h3. done (h3, w))
          else done (record h { memory = m }, w))
  unfolding free
  free_run hd add m block end large low not_last left right =
      let h1 : Heap = record h { memory = m } in
      let j : Joined = record { header = hd; footer = pos + n - 8; do_add = add } in
      let back : sub32 (pos + 12) 12 ≡ pos = omega arith in
      let foot : sub32 (u32 (pos + n)) 8 ≡ pos + n - 8 = omega arith in
      let next : u32 (pos + n - 8 + 8) ≡ pos + n = omega arith in
      let some_ptr : (pos + 12 == 0) ≡ false = ne→== _ _ (omega arith) in
      let good : (header_magic h.memory pos == heap_magic) ≡ true = eq→== _ _ block.magic in
      let good' : (footer_magic h.memory (pos + n - 8) == heap_magic) ≡ true =
        eq→== _ _ end.magic in
      let unified : unify_right j h1 ≡ done (j, h1) = unify_right_used j h1 (rw next right) in
      let inner : (pos + n == h.end_address) ≡ false = ne→== _ _ not_last in
      rw (some_ptr, back, block.size_eq)
        (rw (foot, good) (rw (good', left) (rw unified (rw (next, inner) refl))))

-- What a row says of a block in use in front of another.
record IsInside (h : Heap) (pos n r : ℕ) : Type 0 where
  block : IsHeader h.memory pos 0 n
  end : IsFooter h.memory (pos + n - 8) pos
  next : IsHeader h.memory (pos + n) 0 r
  large : 20 ≤ n
  low : pos + n < 2 ^ 32
  not_last : pos + n ≢ h.end_address

used-IsInside :
    (h : Heap) (pos n r : ℕ) (rs : List Tile)
    → AreTiles h.memory h.end_address pos (used n ∷ used r ∷ rs)
    → pos + total (used n ∷ used r ∷ rs) ≡ h.end_address
    → h.end_address < 2 ^ 32
    → IsInside h pos n r
unfolding AreTiles IsTile total
used-IsInside h pos n r rs (tile, (next, _)) within low =
    let large = next.2 in
    record {
      block = tile.0;
      end = tile.1;
      next = next.0;
      large = tile.2;
      low = omega arith;
      not_last = omega arith;
    }

-- Joining a block with the hole in front of it leaves the addresses of the holes.
holes_joined :
    (s k n r : ℕ) (ls rs : List Tile)
    → hole_addresses s (ls ++ hole (k + n) ∷ used r ∷ rs)
      ≡ hole_addresses s (ls ++ hole k ∷ used n ∷ used r ∷ rs)
unfolding hole_addresses
holes_joined s k n r ls rs =
    let left = s + total ls in
    let end : left + (k + n) ≡ left + k + n = omega arith in
    hole_addresses-hole s (k + n) ls (used r ∷ rs)
    ∙ ap (λ a. hole_addresses s ls ++ left ∷ hole_addresses (a + r) rs) end
    ∙ sym (hole_addresses-hole s k ls (used n ∷ used r ∷ rs))

module _ {W : Type 0} (pager : Pager W) (h : Heap) (w : W) (ls rs : List Tile) (n r : ℕ) where
  -- The block stays a hole of its own.
  pub free_alone :
      h.index.size < h.index.max_size
      → IsTiled h (ls ++ used n ∷ used r ∷ rs)
      → let pos = h.start_address + total ls in
        unify_left pos (pos + n - 8) (store8 h.memory (pos + 4) 1) ≡ (
          record { header = pos; footer = pos + n - 8; do_add = true },
          store8 h.memory (pos + 4) 1,
        )
        → (h' : Heap) × (free pager (pos + 12) h w ≡ done (h', w))
          × IsTiled h' (ls ++ hole n ∷ used r ∷ rs)
          × (h'.index.size ≤ h'.index.max_size)
  unfolding AreTiles IsTile total
  free_alone room v left =
      let pos = h.start_address + total ls in
      let us = used n ∷ used r ∷ rs in
      let i =
        used-IsInside h pos n r rs
          (AreTiles-split h.memory h.end_address h.start_address ls us v.row.tiled).1
          (omega (arith, v.row.whole, total-append ls us)) v.row.low in
      let m = store8 h.memory (pos + 4) 1 in
      let h1 : Heap = record h { memory = m } in
      let large = i.large in
      let end : IsFooter m (pos + n - 8) pos =
        IsFooter-same (λ j p q. store8_outside h.memory (pos + 4) 1 j (omega arith)) i.end in
      let row =
        IsRow-replace h.memory m h.start_address h.end_address ls (used n ∷ []) (hole n ∷ [])
          (used r ∷ rs) v.row (λ j apart. store8_outside h.memory (pos + 4) 1 j (omega arith))
          ((mark_hole-IsHeader i.block, inr end, i.large), tt) refl in
      let next : IsHeader m (pos + n) 0 r =
        IsHeader-same (λ j p q. store8_outside h.memory (pos + 4) 1 j (omega arith)) i.next in
      let (h', insert, same, v') =
        index_insert-IsTiled h1 pos (hole_addresses h.start_address ls)
          (hole_addresses (pos + n) (used r ∷ rs)) (ls ++ hole n ∷ used r ∷ rs) row
          (hole_addresses-hole h.start_address n ls (used r ∷ rs))
          (Holds-eq (sym (hole_addresses-used h.start_address n ls (used r ∷ rs))) v.indexed) in
      (
        h',
        free_run pager h w pos n pos true m i.block i.end i.large i.low i.not_last left next.hole
            ∙ ap (λ (o : Outcome Heap). o >>= λ h3. done (h3, w)) insert,
        v',
        omega (arith, same.same_max, same.one_more),
      )

  -- The block becomes a part of the hole in front of it.
  pub free_joined :
      (k : ℕ)
      → h.index.size < h.index.max_size
      → IsTiled h (ls ++ hole k ∷ used n ∷ used r ∷ rs)
      → (h' : Heap) × (free pager (h.start_address + total ls + k + 12) h w ≡ done (h', w))
        × IsTiled h' (ls ++ hole (k + n) ∷ used r ∷ rs)
        × (h'.index.size ≤ h'.index.max_size)
  unfolding AreTiles IsTile total
  free_joined k room v =
      let left = h.start_address + total ls in
      let pos = left + k in
      let s = h.start_address in
      let e = h.end_address in
      let us = hole k ∷ used n ∷ used r ∷ rs in
      let (_, (front, back)) = AreTiles-split h.memory e s ls us v.row.tiled in
      let whole : pos + total (used n ∷ used r ∷ rs) ≡ e =
        omega (arith, v.row.whole, total-append ls us) in
      let i = used-IsInside h pos n r rs back whole v.row.low in
      let large = i.large in
      let large_k = front.2 in
      let low = i.low in
      let footer : IsFooter h.memory (pos - 8) left = elim front.1 [
        | inl last ↦ absurd (omega arith)
        | inr footer ↦ footer
      ] in
      let m = joined h.memory left k pos n in
      let header' = joined-IsHeader h.memory left k pos n refl front.2 i.large i.low front.0 in
      let footer' = joined-IsFooter h.memory left k pos n refl front.2 i.large i.low i.end in
      let outside = joined-SameOutside h.memory left k pos n refl front.2 i.large i.low in
      let at : pos + n - 8 ≡ left + (k + n) - 8 = omega arith in
      let row =
        IsRow-replace h.memory m s e ls (hole k ∷ used n ∷ []) (hole (k + n) ∷ []) (used r ∷ rs)
          v.row (λ j apart. outside j (omega arith))
          ((header', inr (rw (← at) footer'), omega arith), tt) (omega arith) in
      let next : IsHeader m (pos + n) 0 r =
        IsHeader-same (λ j p q. outside j (inl (omega arith))) i.next in
      let unified =
        unify_left_joins h.memory left k pos n refl front.2 i.large i.low front.0 footer i.block in
      (
        record h { memory = m },
        free_run pager h w pos n left false m i.block i.end i.large i.low i.not_last unified
            next.hole,
        record { row = row; indexed = Holds-eq (holes_joined s k n r ls rs) v.indexed },
        omega arith,
      )
