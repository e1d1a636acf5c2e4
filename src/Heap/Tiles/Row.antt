-- ===== src/Heap/Tiles/Row.antt =====
-- A part of the row of blocks is replaced by another of the same length.
use jslk.Base.{ℕ, sym, ap, inl, inr, List, arith, ◌+◌, ◌-◌, ◌≤◌, ◌<◌, ◌≡◌, ◌∙◌, ◌∷◌, ◌++◌}
use jslk.Base.Memory.{Memory, load32_same}
use jslk.Heap.{footer_magic}
use jslk.Heap.Block.{SameOutside}
use jslk.Heap.Tiles.{
  Tile, used, hole, total, total-append, hole_addresses, hole_addresses-append, AreTiles,
  AreTiles-at, AreTiles-append, AreTiles-split, AreTiles-same, IsRow,
}

footer_magic-same :
    (m m' : Memory) (a : ℕ)
    → ((j : ℕ) → a ≤ j → j < a + 4 → m' j ≡ m j)
    → footer_magic m' a ≡ footer_magic m a
unfolding footer_magic
footer_magic-same m m' a same = load32_same m m' a same

module _ (m m' : Memory) (start end : ℕ) (ls vs us rs : List Tile) where
  pub IsRow-replace :
      IsRow m start end (ls ++ (vs ++ rs))
      → SameOutside (start + total ls) (total vs) m m'
      → AreTiles m' end (start + total ls) us
      → total us ≡ total vs
      → IsRow m' start end (ls ++ (us ++ rs))
  IsRow-replace row same new size =
      let at = start + total ls in
      let (left, rest) = AreTiles-split m end start ls (vs ++ rs) row.tiled in
      let (_, right) = AreTiles-split m end at vs rs rest in
      let left' = AreTiles-same {m' = m'} end start ls (λ j p q. same j (inr (omega arith))) left in
      let right' =
        AreTiles-same {m' = m'} end (at + total vs) rs (λ j p q. same j (inl (omega arith)))
          right in
      let above = row.above in
      record {
        tiled =
            AreTiles-append m' end start ls (us ++ rs) left'
              (AreTiles-append m' end at us rs new (AreTiles-at m' end rs (omega arith) right'));
        whole = omega (
          arith,
          row.whole,
          size,
          total-append ls (us ++ rs),
          total-append us rs,
          total-append ls (vs ++ rs),
          total-append vs rs,
        );
        above = row.above;
        low = row.low;
        guard = λ e.
            row.guard
              (sym (footer_magic-same m m' (start - 8) λ j p q. same j (inr (omega arith))) ∙ e);
      }

module _ (start n : ℕ) (ls rs : List Tile) where
  -- The holes of a row without what stands at one place of it.
  abbrev pub others : List ℕ
  others = hole_addresses start ls ++ hole_addresses (start + total ls + n) rs

  pub hole_addresses-hole :
      hole_addresses start (ls ++ hole n ∷ rs)
      ≡ hole_addresses start ls ++ (start + total ls) ∷ hole_addresses (start + total ls + n) rs
  unfolding hole_addresses
  hole_addresses-hole = hole_addresses-append start ls (hole n ∷ rs)

  pub hole_addresses-used : hole_addresses start (ls ++ used n ∷ rs) ≡ others
  unfolding hole_addresses
  hole_addresses-used = hole_addresses-append start ls (used n ∷ rs)

-- A block in front of a hole, in the place of one hole.
pub hole_addresses-carved :
    (start n k p : ℕ) (ls rs : List Tile)
    → k ≤ n
    → p ≡ start + total ls + k
    → hole_addresses start (ls ++ used k ∷ hole (n - k) ∷ rs)
      ≡ hole_addresses start ls ++ p ∷ hole_addresses (start + total ls + n) rs
unfolding hole_addresses
hole_addresses-carved start n k p ls rs h e =
    let end : start + total ls + k + (n - k) ≡ start + total ls + n = omega arith in
    hole_addresses-append start ls (used k ∷ hole (n - k) ∷ rs)
    ∙ ap (λ a. hole_addresses start ls ++ (start + total ls + k) ∷ hole_addresses a rs) end
    ∙ ap (λ a. hole_addresses start ls ++ a ∷ hole_addresses (start + total ls + n) rs) (sym e)
