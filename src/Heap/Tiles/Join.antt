-- ===== src/Heap/Tiles/Join.antt =====
-- What `free` writes when a block joins the hole in front of it.
use jslk.Base.{
  ℕ, refl, inl, inr, true, false, arith, eq→==, ◌+◌, ◌-◌, ◌^◌, ◌≤◌, ◌<◌, ◌≡◌, ◌∙◌, ◌==◌,
}
use jslk.Base.Memory.{
  Memory, store8, Apart, load32-store8-Apart, load32-store32-Apart, load32-store32_self,
  store8_outside, store32_outside,
}
use jslk.Heap.{
  heap_magic, header_magic, header_is_hole, header_size, footer_magic, footer_header, u32, sub32,
  set_header_size,
}
use jslk.Heap.Layout.{IsHeader, IsFooter}
use jslk.Heap.Block.{SameOutside}
use jslk.Heap.Tiles.{IsHeader-same, IsFooter-same}
use jslk.Heap.Free.{mark_hole-IsHeader, set_footer_header, unify_left}

set_footer_header_outside :
    (m : Memory) (a header j : ℕ) → Apart a 8 j 1 → set_footer_header m a header j ≡ m j
unfolding set_footer_header
set_footer_header_outside m a header j apart = store32_outside m (a + 4) header j (omega arith)

module _ (m : Memory) (left k pos n : ℕ) where
  -- The memory after the block at `pos` is marked as a hole, its footer points to the hole at
  -- `left`, and that hole has the size of both.
  abbrev pub joined : Memory
  joined =
      set_header_size (set_footer_header (store8 m (pos + 4) 1) (pos + n - 8) left) left (k + n)

  module _ (at : left + k ≡ pos) (large_k : 20 ≤ k) (large_n : 20 ≤ n)
      (low : pos + n < 2 ^ 32) where
    pub joined-IsHeader : IsHeader m left 1 k → IsHeader joined left 1 (k + n)
    unfolding header_magic header_is_hole header_size set_header_size set_footer_header
    joined-IsHeader v = record {
      magic =
          load32-store32-Apart _ (left + 8) (k + n) left (inr (omega arith))
          ∙ load32-store32-Apart _ (pos + n - 8 + 4) left left (inr (omega arith))
          ∙ load32-store8-Apart m (pos + 4) 1 left (inr (omega arith))
          ∙ v.magic;
      hole =
          store32_outside _ (left + 8) (k + n) (left + 4) (inr (omega arith))
          ∙ store32_outside _ (pos + n - 8 + 4) left (left + 4) (inr (omega arith))
          ∙ store8_outside m (pos + 4) 1 (left + 4) (omega arith)
          ∙ v.hole;
      size_eq = load32-store32_self _ (left + 8) (k + n) (omega arith);
    }

    pub joined-IsFooter : IsFooter m (pos + n - 8) pos → IsFooter joined (pos + n - 8) left
    unfolding footer_magic footer_header set_header_size set_footer_header
    joined-IsFooter v = record {
      magic =
          load32-store32-Apart _ (left + 8) (k + n) (pos + n - 8) (inl (omega arith))
          ∙ load32-store32-Apart _ (pos + n - 8 + 4) left (pos + n - 8) (inr (omega arith))
          ∙ load32-store8-Apart m (pos + 4) 1 (pos + n - 8) (inl (omega arith))
          ∙ v.magic;
      owner =
          load32-store32-Apart _ (left + 8) (k + n) (pos + n - 8 + 4) (inl (omega arith))
          ∙ load32-store32_self _ (pos + n - 8 + 4) left (omega arith);
    }

    pub joined-SameOutside : SameOutside left (k + n) m joined
    unfolding set_header_size set_footer_header
    joined-SameOutside j apart =
        store32_outside _ (left + 8) (k + n) j (omega arith)
        ∙ store32_outside _ (pos + n - 8 + 4) left j (omega arith)
        ∙ store8_outside m (pos + 4) 1 j (omega arith)

    -- `unify_left` of a block behind a hole with its footer.
    pub unify_left_joins :
        IsHeader m left 1 k
        → IsFooter m (pos - 8) left
        → IsHeader m pos 0 n
        → unify_left pos (pos + n - 8) (store8 m (pos + 4) 1)
          ≡ (record { header = left; footer = pos + n - 8; do_add = false }, joined)
    unfolding unify_left
    unify_left_joins header footer block =
        let m1 = store8 m (pos + 4) 1 in
        let test_footer : sub32 pos 8 ≡ pos - 8 = omega arith in
        let header1 : IsHeader m1 left 1 k =
          IsHeader-same (λ j p q. store8_outside m (pos + 4) 1 j (omega arith)) header in
        let footer1 : IsFooter m1 (pos - 8) left =
          IsFooter-same (λ j p q. store8_outside m (pos + 4) 1 j (omega arith)) footer in
        let header2 : IsHeader (set_footer_header m1 (pos + n - 8) left) left 1 k =
          IsHeader-same (λ j p q. set_footer_header_outside m1 (pos + n - 8) left j (omega arith))
            header1 in
        let magic : (footer_magic m1 (pos - 8) == heap_magic) ≡ true = eq→== _ _ footer1.magic in
        let is_hole : (header_is_hole m1 left == 1) ≡ true = eq→== _ _ header1.hole in
        let own = (mark_hole-IsHeader block).size_eq in
        let sum : u32 (k + n) ≡ k + n = omega arith in
        rw (test_footer, magic)
          (rw (footer1.owner, is_hole) (rw (header2.size_eq, own) (rw sum refl)))

  -- `unify_left` of a block behind a block in use.
  pub unify_left_used :
      left + k ≡ pos
      → 20 ≤ k
      → pos < 2 ^ 32
      → IsHeader m left 0 k
      → IsFooter m (pos - 8) left
      → unify_left pos (pos + n - 8) (store8 m (pos + 4) 1)
        ≡ (record { header = pos; footer = pos + n - 8; do_add = true }, store8 m (pos + 4) 1)
  unfolding unify_left
  unify_left_used at large low header footer =
      let m1 = store8 m (pos + 4) 1 in
      let test_footer : sub32 pos 8 ≡ pos - 8 = omega arith in
      let header1 : IsHeader m1 left 0 k =
        IsHeader-same (λ j p q. store8_outside m (pos + 4) 1 j (omega arith)) header in
      let footer1 : IsFooter m1 (pos - 8) left =
        IsFooter-same (λ j p q. store8_outside m (pos + 4) 1 j (omega arith)) footer in
      let magic : (footer_magic m1 (pos - 8) == heap_magic) ≡ true = eq→== _ _ footer1.magic in
      rw (test_footer, magic) (rw (footer1.owner, header1.hole) refl)
