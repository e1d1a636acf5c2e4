-- ===== src/Heap/Free.antt =====
-- `free`: marking a block as a hole, joining it with its neighbours, and giving back the end.
use jslk.Base.{
  ◌∙◌, sym, eq→==, ◌^◌, inr, ◌<◌, ne→==, inl, ◌≤◌, Bool-cases, arith, ◌≢◌, ◌≡◌, ◌-◌, ℕ, zero, suc,
  Bool, true, false, not, Option, none, some, ltb, ◌+◌, ◌&&◌, ◌==◌, if◌then◌else◌,
}
use jslk.Base.Memory.{Memory, store8, store32, load32-store8-Apart, store8_self, Apart}
use jslk.Base.Outcome.{Outcome, done, panic, ◌>>=◌, ◌>>◌, assert}
use jslk.OrderedArray
use jslk.OrderedArray.{OrderedArray}
use jslk.Heap.{
  Heap, heap_magic, header_bytes, footer_bytes, u32, sub32, header_magic, header_is_hole,
  header_size, footer_magic, footer_header, set_header_size, set_footer, index_insert,
}
use jslk.Heap.Layout.{IsHeader, IsFooter}
use jslk.Heap.Block.{index_insert_memory}
use jslk.Heap.Resize.{Pager, contract}

-- The search of the index for a header, with `n` entries left.
unfoldable pub index_of : (ℕ → ℕ) → (header n iterator : ℕ) → Option ℕ
index_of array header zero iterator = none
index_of array header (suc n) iterator =
    let rest = index_of array header n (iterator + 1) in
    if array iterator == header then some iterator else rest

-- The local variables that the parts of `free` pass on.
pub record Joined : Type 0 where
  pub header : ℕ
  pub footer : ℕ
  pub do_add : Bool

-- `footer->header = header`
unfoldable pub set_footer_header : Memory → (a header : ℕ) → Memory
set_footer_header m a header = store32 m (a + 4) header

-- Unify left: a hole that ends where the block begins takes the block in.
unfoldable pub unify_left : (header footer : ℕ) → Memory → Joined × Memory
unfolding set_footer_header
unify_left header footer m =
    let test_footer = sub32 header footer_bytes in
    let left = footer_header m test_footer in
    if (footer_magic m test_footer == heap_magic) && (header_is_hole m left == 1)
    then (let m' = set_footer_header m footer left in
        (
          record { header = left; footer = footer; do_add = false },
          set_header_size m' left (u32 (header_size m' left + header_size m header)),
        ))
    else (record { header = header; footer = footer; do_add = true }, m)

-- Unify right: a hole that begins where the block ends is taken in, and leaves the index. The
-- footer of that hole is found, and not written.
unfoldable pub unify_right : Joined → Heap → Outcome (Joined × Heap)
unfolding index_of
unify_right j h =
    let test_header = u32 (j.footer + footer_bytes) in
    let m = h.memory in
    if (header_magic m test_header == heap_magic) && not (header_is_hole m test_header == 0)
    then (let m' =
          set_header_size m j.header (u32 (header_size m j.header + header_size m test_header)) in
        let footer = sub32 (u32 (test_header + header_size m' test_header)) footer_bytes in
        elim (index_of h.index.array test_header h.index.size 0) [
          | none ↦ panic
          | some iterator ↦ done (
            record j { footer = footer },
            record h { memory = m'; index = OrderedArray.remove iterator h.index },
          )
        ])
    else done (j, h)

-- The end of the hole is the end of the heap. `test_header` is what `unify_right` looked at.
module _ {W : Type 0} (pager : Pager W) where
  unfoldable pub give_back : (j : Joined) (test_header : ℕ) → Heap → W → Outcome (Heap × W)
  unfolding index_of
  give_back j test_header h w =
      let old_length = sub32 h.end_address h.start_address in
      contract pager (sub32 j.header h.start_address) h w >>= λ (new_length, h', w').
      let shrunk = sub32 old_length new_length in
      let size = sub32 (header_size h'.memory j.header) shrunk in
      if ltb 0 size
      then (let m = set_header_size h'.memory j.header size in
          done (
            record h' {
              memory = set_footer m (sub32 (u32 (j.header + size)) footer_bytes) j.header;
            },
            w',
          ))
      else elim (index_of h'.index.array test_header h'.index.size 0) [
        | none ↦ done (h', w')
        | some iterator ↦ done (record h' { index = OrderedArray.remove iterator h'.index }, w')
      ]

  unfoldable pub free : (p : ℕ) → Heap → W → Outcome (Heap × W)
  free p h w =
      let header = sub32 p header_bytes in
      let footer = sub32 (u32 (header + header_size h.memory header)) footer_bytes in
      let left = unify_left header footer (store8 h.memory (header + 4) 1) in
      let rest : Outcome (Heap × W) =
        assert (header_magic h.memory header == heap_magic)
        >> assert (footer_magic h.memory footer == heap_magic)
        >> (unify_right left.0 (record h { memory = left.1 }) >>= λ (j, h1).
            (if u32 (j.footer + footer_bytes) == h1.end_address
              then give_back j (u32 (left.0.footer + footer_bytes)) h1 w
              else done (h1, w))
            >>= λ (h2, w2).
                if j.do_add
                then (index_insert h2 j.header >>= λ h3. done (h3, w2))
                else done (h2, w2)) in
      if p == 0 then done (h, w) else rest

-- `free` panics, before it changes anything, on a pointer whose header or footer has no magic
-- number.
pub free_checks_magic :
    {W : Type 0} (pager : Pager W) (p : ℕ) (h : Heap) (w : W)
    → let header = sub32 p header_bytes in
      let footer = sub32 (u32 (header + header_size h.memory header)) footer_bytes in
      p ≢ 0
      → (header_magic h.memory header == heap_magic) && (footer_magic h.memory footer == heap_magic)
        ≡ false
      → free pager p h w ≡ panic
unfolding free
free_checks_magic pager p h w ne bad =
    let header = sub32 p header_bytes in
    let footer = sub32 (u32 (header + header_size h.memory header)) footer_bytes in
    elim (Bool-cases (header_magic h.memory header == heap_magic)) [
      | inl e ↦ rw (ne→== p 0 ne, e) (rw (rw e at bad))
      | inr e ↦ rw (ne→== p 0 ne, e)
    ]

-- A block of the heap in use, with no footer before it and no header behind it, and not at the end
-- of the heap; and an index with a free cell.
pub record IsIsolated (h : Heap) (header size : ℕ) : Type 0 where
  pub block : IsHeader h.memory header 0 size
  pub end : IsFooter h.memory (header + size - 8) header
  pub above : 8 ≤ header
  pub inside : h.start_address ≤ header
  pub room : h.index.size < h.index.max_size
  pub large : 20 ≤ size
  pub low : header + size < 2 ^ 32
  pub left_used : footer_magic h.memory (header - 8) ≢ heap_magic
  pub right_used : header_magic h.memory (header + size) ≢ heap_magic
  pub not_last : header + size ≢ h.end_address

pub footer_magic-store8 :
    (m : Memory) (a v b : ℕ) → Apart a 1 b 4 → footer_magic (store8 m a v) b ≡ footer_magic m b
unfolding footer_magic
footer_magic-store8 m a v b h = load32-store8-Apart m a v b h

header_magic-store8 :
    (m : Memory) (a v b : ℕ) → Apart a 1 b 4 → header_magic (store8 m a v) b ≡ header_magic m b
unfolding header_magic
header_magic-store8 m a v b h = load32-store8-Apart m a v b h

pub mark_hole-IsHeader :
    {m : Memory} {a old size : ℕ} → IsHeader m a old size → IsHeader (store8 m (a + 4) 1) a 1 size
unfolding header_magic header_is_hole header_size
mark_hole-IsHeader {m} {a} v = record {
  magic = load32-store8-Apart m (a + 4) 1 a (inr (omega arith)) ∙ v.magic;
  hole = store8_self m (a + 4) 1;
  size_eq = load32-store8-Apart m (a + 4) 1 (a + 8) (inl (omega arith)) ∙ v.size_eq;
}

pub unify_left_none :
    (header footer : ℕ) (m : Memory)
    → (footer_magic m (sub32 header footer_bytes) == heap_magic) ≡ false
    → unify_left header footer m ≡ (record { header = header; footer = footer; do_add = true }, m)
unfolding unify_left
unify_left_none header footer m e = rw e

unify_right_none :
    (j : Joined) (h : Heap)
    → (header_magic h.memory (u32 (j.footer + footer_bytes)) == heap_magic) ≡ false
    → unify_right j h ≡ done (j, h)
unfolding unify_right
unify_right_none j h e = rw e

-- `free` of a block in use, of at least 20 bytes and ending below 2^32, with no footer right before
-- it and no header right after it, and not at the end of the heap, marks it as a hole of the same
-- size, changes no other byte of the heap's memory, and puts it into the index. The block lies at or
-- above the start address of the heap, and the index, which lies below it, has a free cell.
pub free_isolated :
    {W : Type 0} (pager : Pager W) (header size : ℕ) (h : Heap) (w : W)
    → IsIsolated h header size
    → (h' : Heap) × (free pager (header + 12) h w ≡ done (h', w))
      × (h'.memory ≡ store8 h.memory (header + 4) 1)
      × IsHeader h'.memory header 1 size
      × (index_insert (record h { memory = h'.memory }) header ≡ done h')
unfolding free
free_isolated {W} pager header size h w v =
    let m1 = store8 h.memory (header + 4) 1 in
    let h1 : Heap = record h { memory = m1 } in
    let (h', run, same, _, _) = index_insert_memory h1 header in
    let back : sub32 (header + 12) 12 ≡ header = omega arith in
    let foot : sub32 (u32 (header + size)) 8 ≡ header + size - 8 = omega arith in
    let next : u32 (header + size - 8 + 8) ≡ header + size = omega arith in
    let prev : sub32 header 8 ≡ header - 8 = omega arith in
    let some_ptr : (header + 12 == 0) ≡ false = ne→== _ _ (omega arith) in
    let good : (header_magic h.memory header == heap_magic) ≡ true = eq→== _ _ v.block.magic in
    let good' : (footer_magic h.memory (header + size - 8) == heap_magic) ≡ true =
      eq→== _ _ v.end.magic in
    let j : Joined = record { header = header; footer = header + size - 8; do_add = true } in
    let left : unify_left header (header + size - 8) m1 ≡ (j, m1) =
      unify_left_none header (header + size - 8) m1 (
        rw prev (
          ne→== _ _ λ e. v.left_used (
            sym (footer_magic-store8 h.memory (header + 4) 1 (header - 8) (inr (omega arith)))
            ∙ e))) in
    let right : unify_right j h1 ≡ done (j, h1) = unify_right_none j h1 (
      rw next (
        ne→== _ _ λ e. v.right_used (
          sym (header_magic-store8 h.memory (header + 4) 1 (header + size) (inl (omega arith)))
          ∙ e))) in
    let inner : (header + size == h.end_address) ≡ false = ne→== _ _ v.not_last in
    (
      h',
      rw (some_ptr, back, v.block.size_eq)
          (rw (foot, good) (rw (good', left) (rw right (rw (next, inner) (rw run))))),
      same,
      rw same (mark_hole-IsHeader v.block),
      rw same run,
    )
