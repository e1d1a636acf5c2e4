-- ===== src/Heap/Tiles/Release.antt =====
-- `free` on the row of blocks: a block becomes a hole, or a part of the hole in front of it.
use jslk.Base.{
  ℕ, refl, sym, ap, inl, inr, true, List, [], arith, ne→==, ◌+◌, ◌-◌, ◌^◌, ◌≤◌, ◌<◌, ◌≡◌, ◌∙◌, ◌≢◌,
  ◌⊎◌, ◌∷◌, ◌++◌,
}
use jslk.Base.Memory.{Memory, store8, Memory, store8}
use jslk.Base.Outcome.{done}
use jslk.Heap.{Heap, heap_magic, footer_magic, sub32}
use jslk.Heap.Resize.{Pager}
use jslk.Heap.Tiles.Join.{unify_left_used}
use jslk.Heap.Free.{unify_left, unify_left_none, footer_magic-store8, unify_left, free}
use jslk.Heap.Tiles.{
  Tile, used, hole, total, total-append, IsTile, AreTiles, AreTiles-split, IsTiled,
}
use mathlib.Core.List.{append_assoc}
use jslk.Heap.Tiles.GiveBack.{free_alone, free_joined}

-- A block of `n` bytes that is given back joins a hole in front of it.
unfoldable pub join : Tile → ℕ → List Tile
join (used k) n = used k ∷ hole n ∷ []
join (hole k) n = hole (k + n) ∷ []

-- What a row and the block of `n` bytes behind it become when that block is given back.
unfoldable pub release : List Tile → ℕ → List Tile
unfolding join
release [] n = hole n ∷ []
release (t ∷ []) n = join t n
release (t ∷ u ∷ ts) n = t ∷ release (u ∷ ts) n

release-append : (ls : List Tile) (t : Tile) (n : ℕ) → release (ls ++ t ∷ []) n ≡ ls ++ join t n
unfolding release
release-append [] t n = refl
release-append (l ∷ []) t n = refl
release-append (l ∷ l' ∷ ls) t n = ap (λ r. l ∷ r) (release-append (l' ∷ ls) t n)

-- A row is empty or has a last block.
last_of : (ls : List Tile) → (ls ≡ []) ⊎ ((ls' : List Tile) × (t : Tile) × (ls ≡ ls' ++ t ∷ []))
last_of [] = inl refl
last_of (t ∷ []) = inr ([], t, refl)
last_of (t ∷ u ∷ ts) = elim (last_of (u ∷ ts)) [
  | inl e ↦ inr ([], t, ap (λ r. t ∷ r) e)
  | inr (ls', t', e) ↦ inr (t ∷ ls', t', ap (λ r. t ∷ r) e)
]

-- A block that is given back behind a block in use is a hole of its own.
release-used :
    (ls us : List Tile) (k n : ℕ)
    → release (ls ++ used k ∷ []) n ++ us ≡ (ls ++ used k ∷ []) ++ hole n ∷ us
unfolding join
release-used ls us k n =
    ap (λ r. r ++ us) (release-append ls (used k) n)
    ∙ append_assoc ls (used k ∷ hole n ∷ []) us
    ∙ sym (append_assoc ls (used k ∷ []) (hole n ∷ us))

release_hole :
    (ls us : List Tile) (k n : ℕ) → release (ls ++ hole k ∷ []) n ++ us ≡ ls ++ hole (k + n) ∷ us
unfolding join
release_hole ls us k n =
    ap (λ r. r ++ us) (release-append ls (hole k) n) ∙ append_assoc ls (hole (k + n) ∷ []) us

-- `unify_left` of the first block, and of one behind a block in use.
unify_left_first :
    (m : Memory) (pos n : ℕ)
    → 8 ≤ pos
    → pos < 2 ^ 32
    → footer_magic m (pos - 8) ≢ heap_magic
    → unify_left pos (pos + n - 8) (store8 m (pos + 4) 1)
      ≡ (record { header = pos; footer = pos + n - 8; do_add = true }, store8 m (pos + 4) 1)
unify_left_first m pos n above low guard =
    let prev : sub32 pos 8 ≡ pos - 8 = omega arith in
    unify_left_none pos (pos + n - 8) (store8 m (pos + 4) 1) (
      rw prev (
        ne→== _ _
          λ e. guard (sym (footer_magic-store8 m (pos + 4) 1 (pos - 8) (inr (omega arith))) ∙ e)))

pub unify_left_behind :
    (h : Heap) (ls us : List Tile) (k n : ℕ)
    → IsTiled h (ls ++ used k ∷ us)
    → let pos = h.start_address + total ls + k in
      unify_left pos (pos + n - 8) (store8 h.memory (pos + 4) 1)
      ≡ (record { header = pos; footer = pos + n - 8; do_add = true }, store8 h.memory (pos + 4) 1)
unfolding AreTiles IsTile total
unify_left_behind h ls us k n v =
    let left = h.start_address + total ls in
    let (_, (tile, _)) =
      AreTiles-split h.memory h.end_address h.start_address ls (used k ∷ us) v.row.tiled in
    let low : left + k < 2 ^ 32 =
      omega (arith, v.row.whole, v.row.low, total-append ls (used k ∷ us)) in
    unify_left_used h.memory left k (left + k) n refl tile.2 low tile.0 tile.1

module _ {W : Type 0} (pager : Pager W) (h : Heap) (w : W) (rs : List Tile) (n r : ℕ) where
  -- What `free` does to the block behind `ls`.
  abbrev FreesBehind : List Tile → Type 0
  FreesBehind ls =
      h.index.size < h.index.max_size
      → IsTiled h (ls ++ used n ∷ used r ∷ rs)
      → (h' : Heap) × (free pager (h.start_address + total ls + 12) h w ≡ done (h', w))
        × IsTiled h' (release ls n ++ used r ∷ rs)
        × (h'.index.size ≤ h'.index.max_size)

  free_first : FreesBehind []
  unfolding release total
  free_first room v =
      let s = h.start_address in
      let above = v.row.above in
      let at : s - 8 ≡ s + 0 - 8 = omega arith in
      let low : s + 0 < 2 ^ 32 = omega (arith, v.row.whole, v.row.low) in
      free_alone pager h w [] rs n r room v (
        unify_left_first h.memory (s + 0) n (omega arith) low
          λ e. v.row.guard (ap (footer_magic h.memory) at ∙ e))

  free_behind_used : (ls : List Tile) (k : ℕ) → FreesBehind (ls ++ used k ∷ [])
  unfolding total
  free_behind_used ls k room v =
      let us = used n ∷ used r ∷ rs in
      let at : h.start_address + total ls + k ≡ h.start_address + total (ls ++ used k ∷ []) =
        omega (arith, total-append ls (used k ∷ [])) in
      let left = unify_left_behind h ls us k n (rw (append_assoc ls (used k ∷ []) us) at v) in
      let (h', run, v', fits) =
        free_alone pager h w (ls ++ used k ∷ []) rs n r room v (rw (← at) left) in
      (h', run, rw (release-used ls (used r ∷ rs) k n) v', fits)

  free_behind_hole : (ls : List Tile) (k : ℕ) → FreesBehind (ls ++ hole k ∷ [])
  unfolding total
  free_behind_hole ls k room v =
      let at : h.start_address + total ls + k ≡ h.start_address + total (ls ++ hole k ∷ []) =
        omega (arith, total-append ls (hole k ∷ [])) in
      let (h', run, v', fits) =
        free_joined pager h w ls rs n r k room
          (rw (append_assoc ls (hole k ∷ []) (used n ∷ used r ∷ rs)) at v) in
      (h', rw (← at) run, rw (release_hole ls (used r ∷ rs) k n) v', fits)

  -- `free` of a block in use that lies in front of another block in use, in a heap that is a row of
  -- blocks and holes with every hole once in the index, makes it such a row again: the block has
  -- become a hole, which is one with the hole in front of it if there is one, and every other block
  -- and hole is where it was. The index has a free cell before, and its holes are in its cells
  -- afterwards.
  pub free-IsTiled :
      (ls : List Tile)
      → h.index.size < h.index.max_size
      → IsTiled h (ls ++ used n ∷ used r ∷ rs)
      → (h' : Heap) × (free pager (h.start_address + total ls + 12) h w ≡ done (h', w))
        × IsTiled h' (release ls n ++ used r ∷ rs)
        × (h'.index.size ≤ h'.index.max_size)
  free-IsTiled ls = elim (last_of ls) [
    | inl e ↦ rw e free_first
    | inr (ls', used k, e) ↦ rw e (free_behind_used ls' k)
    | inr (ls', hole k, e) ↦ rw e (free_behind_hole ls' k)
  ]
