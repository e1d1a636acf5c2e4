-- ===== src/Heap/Tiles/Stale.antt =====
-- `free` of a block with a hole behind it: what the missing write of the footer leaves.
use jslk.Heap.Tiles.JoinRight.{
  index_of_found, grown, grown_outside, grown-IsHeader, unify_right_joins,
}
use jslk.Heap.Block.{index_insert_memory}
use jslk.Heap.Tiles.Release.{unify_left_behind}
use mathlib.Core.List.{append_assoc}
use jslk.Heap.Tiles.Row.{hole_addresses-hole}
use jslk.OrderedArray.Contents.{occurrences_here}
use jslk.Base.{
  ℕ, refl, sym, ap, inl, inr, true, false, some, List, [], arith, eq→==, ne→==, ◌+◌, ◌-◌, ◌^◌, ◌≤◌,
  ◌<◌, ◌≡◌, ◌∙◌, ◌≢◌, ◌∷◌, ◌++◌, ◌==◌,
}
use jslk.Base.Memory.{Apart, store8, store8_outside}
use jslk.Base.Outcome.{done}
use jslk.OrderedArray
use jslk.OrderedArray.View.{items, occurrences}
use jslk.Heap.{
  footer_header, Heap, heap_magic, header_magic, footer_magic, u32, sub32, index_insert,
}
use jslk.Heap.Layout.{IsHeader, IsFooter}
use jslk.Heap.Resize.{Pager}
use jslk.Heap.Free.{index_of, unify_left, free, mark_hole-IsHeader}
use jslk.Heap.Tiles.{
  IsFooter-same, IsTiled, AreTiles-split, AreTiles, IsTile, hole_addresses, total-append, total,
  hole, used, Tile, IsHeader-same,
}

-- The heap `free` has given a block back to, when a hole lies behind that block.
pub record IsStale (h' : Heap) (pos n k : ℕ) : Type 0 where
  pub header : IsHeader h'.memory pos 1 (n + k)
  pub footer : IsFooter h'.memory (pos + n + k - 8) (pos + n)
  pub old_header : IsHeader h'.memory (pos + n) 1 k

module _ {W : Type 0} (pager : Pager W) (h : Heap) (w : W) (pos n k it : ℕ) where
  -- `free` of a block behind which there is a hole, from what `unify_left` comes to.
  free_right :
      (h' : Heap)
      → IsHeader h.memory pos 0 n
      → IsFooter h.memory (pos + n - 8) pos
      → IsHeader h.memory (pos + n) 1 k
      → 20 ≤ n
      → 20 ≤ k
      → pos + n + k < 2 ^ 32
      → pos + n + k ≢ h.end_address
      → unify_left pos (pos + n - 8) (store8 h.memory (pos + 4) 1) ≡ (
        record { header = pos; footer = pos + n - 8; do_add = true },
        store8 h.memory (pos + 4) 1,
      )
      → index_of h.index.array (pos + n) h.index.size 0 ≡ some it
      → index_insert
          (record h { memory = grown h.memory pos n k; index = OrderedArray.remove it h.index })
          pos
        ≡ done h'
      → free pager (pos + 12) h w ≡ done (h', w)
  unfolding free
  free_right h' block end next large large_k low inside left found insert =
      let m1 = store8 h.memory (pos + 4) 1 in
      let back : sub32 (pos + 12) 12 ≡ pos = omega arith in
      let foot : sub32 (u32 (pos + n)) 8 ≡ pos + n - 8 = omega arith in
      let some_ptr : (pos + 12 == 0) ≡ false = ne→== _ _ (omega arith) in
      let good : (header_magic h.memory pos == heap_magic) ≡ true = eq→== _ _ block.magic in
      let good' : (footer_magic h.memory (pos + n - 8) == heap_magic) ≡ true =
        eq→== _ _ end.magic in
      let after : u32 (pos + n + k - 8 + 8) ≡ pos + n + k = omega arith in
      let joined =
        unify_right_joins h h.memory pos n k it true (mark_hole-IsHeader block)
          (IsHeader-same (λ j p q. store8_outside h.memory (pos + 4) 1 j (omega arith)) next) large
          low large_k found in
      let last : (pos + n + k == h.end_address) ≡ false = ne→== _ _ inside in
      rw (some_ptr, back, block.size_eq)
        (rw (foot, good) (rw (good', left) (rw joined (rw (after, last) (rw insert refl)))))

-- The entry of a hole in the index.
hole_entry :
    (h : Heap) (ls rs : List Tile) (k : ℕ)
    → IsTiled h (ls ++ hole k ∷ rs)
    → (it : ℕ) × (index_of h.index.array (h.start_address + total ls) h.index.size 0 ≡ some it)
hole_entry h ls rs k v =
    let at = h.start_address + total ls in
    let left = hole_addresses h.start_address ls in
    let right = hole_addresses (at + k) rs in
    let listed : 0 < occurrences at (items h.index.array 0 h.index.size) =
      rw (v.indexed.each at, hole_addresses-hole h.start_address k ls rs)
        (occurrences_here at left right) in
    let (it, run, _, _) = index_of_found h.index.array at h.index.size 0 listed in (it, run)

-- A hole in front of a block has a footer that points to it.
hole-IsFooter :
    (h : Heap) (ls rs : List Tile) (n r : ℕ)
    → IsTiled h (ls ++ hole n ∷ used r ∷ rs)
    → IsFooter h.memory (h.start_address + total ls + n - 8) (h.start_address + total ls)
unfolding AreTiles IsTile total
hole-IsFooter h ls rs n r v =
    let us = hole n ∷ used r ∷ rs in
    let (_, (tile, (next, _))) =
      AreTiles-split h.memory h.end_address h.start_address ls us v.row.tiled in
    let whole : h.start_address + total ls + (n + (r + total rs)) ≡ h.end_address =
      omega (arith, v.row.whole, total-append ls us) in
    let large = next.2 in elim tile.1 [ inl last ↦ absurd (omega arith) | inr footer ↦ footer ]

stale_owner :
    (h' : Heap) (ls rs : List Tile) (pos q n k r : ℕ)
    → h'.start_address + total ls + q ≡ pos
    → 20 ≤ n
    → IsStale h' pos n k
    → ¬ IsTiled h' (ls ++ used q ∷ hole (n + k) ∷ used r ∷ rs)
unfolding total
stale_owner h' ls rs pos q n k r at large stale v =
    let fs = used q ∷ [] in
    let us = hole (n + k) ∷ used r ∷ rs in
    let start : h'.start_address + total (ls ++ fs) ≡ pos = omega (arith, total-append ls fs) in
    let end : h'.start_address + total (ls ++ fs) + (n + k) - 8 ≡ pos + n + k - 8 = omega arith in
    let own = hole-IsFooter h' (ls ++ fs) rs (n + k) r (rw (append_assoc ls fs us) v) in
    let same = sym own.owner ∙ ap (footer_header h'.memory) end ∙ stale.footer.owner in
    absurd (omega (arith, same))

-- `free` of a block between a block in use and a hole, in a heap that is a row of blocks and holes
-- with every hole once in the index, joins the two in the header alone: the header has the size of
-- both, the footer at its end still points to the hole's old header, and that header is still there
-- with its old size. The heap is not the row in which the two are one hole. A block in use stands
-- behind the hole.
pub free_right-IsStale :
    {W : Type 0} (pager : Pager W) (h : Heap) (w : W) (ls rs : List Tile) (q n k r : ℕ)
    → IsTiled h (ls ++ used q ∷ used n ∷ hole k ∷ used r ∷ rs)
    → let pos = h.start_address + total ls + q in
      (h' : Heap) × (free pager (pos + 12) h w ≡ done (h', w))
      × IsStale h' pos n k
      × ¬ IsTiled h' (ls ++ used q ∷ hole (n + k) ∷ used r ∷ rs)
unfolding AreTiles IsTile total
free_right-IsStale pager h w ls rs q n k r v =
    let s = h.start_address in
    let pos = s + total ls + q in
    let us = used q ∷ used n ∷ hole k ∷ used r ∷ rs in
    let (_, (_, (block, (next, (after, _))))) =
      AreTiles-split h.memory h.end_address s ls us v.row.tiled in
    let whole : pos + (n + (k + (r + total rs))) ≡ h.end_address =
      omega (arith, v.row.whole, total-append ls us) in
    let low = v.row.low in
    let large_n = block.2 in
    let large_k = next.2 in
    let large_r = after.2 in
    let fs = used q ∷ used n ∷ [] in
    let at : s + total (ls ++ fs) ≡ pos + n = omega (arith, total-append ls fs) in
    let (it, entry) =
      hole_entry h (ls ++ fs) (used r ∷ rs) k (rw (append_assoc ls fs (hole k ∷ used r ∷ rs)) v) in
    let found : index_of h.index.array (pos + n) h.index.size 0 ≡ some it =
      ap (λ a. index_of h.index.array a h.index.size 0) (sym at) ∙ entry in
    let h0 : Heap = record h {
      memory = grown h.memory pos n k;
      index = OrderedArray.remove it h.index;
    } in
    let (h', insert, same, same_start, _) = index_insert_memory h0 pos in
    let left = unify_left_behind h ls (used n ∷ hole k ∷ used r ∷ rs) q n v in
    let old_end : IsFooter h.memory (pos + n + k - 8) (pos + n) = elim next.1 [
      | inl last ↦ absurd (omega arith)
      | inr footer ↦ footer
    ] in
    let kept = λ (j : ℕ) (apart : Apart pos 12 j 1). grown_outside h.memory pos n k j apart in
    let stale : IsStale h' pos n k = record {
      header = rw same (grown-IsHeader h.memory pos n k (omega arith) block.0);
      footer = rw same (IsFooter-same (λ j p q'. kept j (inl (omega arith))) old_end);
      old_header = rw same (IsHeader-same (λ j p q'. kept j (inl (omega arith))) next.0);
    } in
    (
      h',
      free_right pager h w pos n k it h' block.0 block.1 next.0 large_n large_k (omega arith)
          (omega arith) left found insert,
      stale,
      (λ v'.
          stale_owner h' ls rs pos q n k r (ap (λ a. a + total ls + q) same_start) large_n stale
            v'),
    )
