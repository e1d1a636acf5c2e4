-- ===== src/Heap/Block.antt =====
-- The block that `alloc` makes in a hole, and what is left of the hole.
use jslk.Base.{
  ℕ, refl, ap, inl, inr, true, arith, ltb, ltb→lt, ltb→le, lt→ltb, Bool-cases, ◌+◌, ◌-◌, ◌^◌, ◌≤◌,
  ◌<◌, ◌≡◌, ◌∙◌, ◌⊎◌, if◌then◌else◌,
}
use jslk.Base.Memory.{Memory, Apart}
use jslk.Base.Outcome.{Outcome, done, ◌>>=◌}
use jslk.OrderedArray
use jslk.OrderedArray.{OrderedArray}
use jslk.Heap.{header_size, Heap, u32, sub32, set_header, set_footer, index_insert}
use jslk.Heap.Layout.{
  IsFooter-set_footer, IsFooter-set_header, IsHeader-set_header, IsHeader, IsFooter,
  set_header-IsHeader, set_footer-IsFooter, IsHeader-set_footer, byte-set_header, byte-set_footer,
}
use jslk.Heap.Alloc.{alloc_in, place_block, Fit, take_whole}

-- The block is the request with its header and footer; it takes the whole hole or leaves room for a
-- header and a footer; and the hole lies below 2^32.
pub record IsFit (f : Fit) : Type 0 where
  pub exact : f.new_size ≡ f.size + 20
  pub inside : f.new_size ≤ f.hole_size
  pub room : (f.new_size ≡ f.hole_size) ⊎ (f.new_size + 20 ≤ f.hole_size)
  pub low : f.pos + f.hole_size < 2 ^ 32

-- A request that fits its hole makes such a block, at the place of the hole, no smaller than asked.
pub take_whole-IsFit :
    (pos hole_size size : ℕ)
    → size + 20 ≤ hole_size
    → pos + hole_size < 2 ^ 32
    → let f = take_whole pos hole_size size in
      IsFit f × (f.pos ≡ pos) × (f.hole_size ≡ hole_size) × (size ≤ f.size)
unfolding take_whole
take_whole-IsFit pos hole_size size fits low =
    elim (Bool-cases (ltb (sub32 hole_size (u32 (size + 20))) 20)) [
      | inl e ↦
          let slack = ltb→lt _ _ e in
          rw e (
            record { exact = omega arith; inside = omega arith; room = inl refl; low = low },
            refl,
            refl,
            omega arith,
          )
      | inr e ↦
          let slack = ltb→le _ _ e in
          rw e (
            record {
              exact = omega arith;
              inside = omega arith;
              room = inr (omega arith);
              low = low;
            },
            refl,
            refl,
            omega arith,
          )
    ]

-- Putting a hole into the index succeeds and touches neither the memory nor the bounds of the heap.
pub index_insert_memory :
    (h : Heap) (item : ℕ)
    → (h' : Heap) × (index_insert h item ≡ done h')
      × (h'.memory ≡ h.memory)
      × (h'.start_address ≡ h.start_address)
      × (h'.end_address ≡ h.end_address)
unfolding index_insert OrderedArray.insert
index_insert_memory h item = (_, refl, refl, refl, refl)

abbrev pub SameOutside : (pos size : ℕ) → Memory → Memory → Type 0
SameOutside pos size m m' = (j : ℕ) → Apart pos size j 1 → m' j ≡ m j

-- What stands in the memory at a block of `new_size` bytes at `pos` in a hole of `hole_size`.
pub record IsPlaced (f : Fit) (m m' : Memory) : Type 0 where
  pub header : IsHeader m' f.pos 0 f.new_size
  pub footer : IsFooter m' (f.pos + f.new_size - 8) f.pos
  pub outside : SameOutside f.pos f.hole_size m m'

-- The header and the footer of the block, before the rest of the hole is written.
module _ (f : Fit) (m : Memory) (v : IsFit f) where
  block_written :
      (data_end : ℕ)
      → data_end ≡ f.pos + f.new_size - 8
      → IsPlaced f m (set_footer (set_header m f.pos 0 f.new_size) data_end f.pos)
  block_written data_end e = record {
    header =
        IsHeader-set_footer data_end f.pos (set_header-IsHeader m f.pos 0 f.new_size (omega arith))
          (omega arith);
    footer =
        rw (← e)
          (set_footer-IsFooter (set_header m f.pos 0 f.new_size) data_end f.pos (omega arith));
    outside = λ j apart.
        byte-set_footer (set_header m f.pos 0 f.new_size) data_end f.pos j (omega arith)
        ∙ byte-set_header m f.pos 0 f.new_size j (omega arith);
  }

-- The rest of the hole, a hole of its own behind the block; its footer is written only below the
-- end of the heap.
pub record IsRest (f : Fit) (end : ℕ) (m' : Memory) : Type 0 where
  pub header : IsHeader m' (f.pos + f.new_size) 1 (f.hole_size - f.new_size)
  pub footer :
      if ltb (f.pos + f.hole_size - 8) end
      then IsFooter m' (f.pos + f.hole_size - 8) (f.pos + f.new_size)
      else Unit

module _ (f : Fit) (h : Heap) (v : IsFit f) where
  pub place_block_whole :
      f.new_size ≡ f.hole_size
      → (m : Memory) × (place_block f h ≡ done (f.pos + 12, record h { memory = m }))
        × IsPlaced f h.memory m
  unfolding place_block
  place_block_whole same =
      let data_end : u32 (f.pos + 12 + f.size) ≡ f.pos + f.new_size - 8 = omega arith in
      let rest : sub32 f.hole_size f.new_size ≡ 0 = omega arith in
      let p : u32 (f.pos + 12) ≡ f.pos + 12 = omega arith in
      (
        set_footer (set_header h.memory f.pos 0 f.new_size) (u32 (f.pos + 12 + f.size)) f.pos,
        rw (rest, p),
        block_written f h.memory v (u32 (f.pos + 12 + f.size)) data_end,
      )

  module _ (room : f.new_size + 20 ≤ f.hole_size) where
    -- What is written behind the block.
    with_rest : (m : Memory) (hole rest foot : ℕ) → Memory
    with_rest m hole rest foot =
        if ltb foot h.end_address
        then set_footer (set_header m hole 1 rest) foot hole
        else set_header m hole 1 rest

    IsRest-written :
        (m : Memory) (hole rest foot : ℕ)
        → hole ≡ f.pos + f.new_size
        → rest ≡ f.hole_size - f.new_size
        → foot ≡ f.pos + f.hole_size - 8
        → IsPlaced f h.memory m
        → IsPlaced f h.memory (with_rest m hole rest foot)
          × IsRest f h.end_address (with_rest m hole rest foot)
    unfolding with_rest
    IsRest-written m hole rest foot eh er ef placed =
        let m' = set_header m hole 1 rest in
        let header' : IsHeader m' f.pos 0 f.new_size =
          IsHeader-set_header hole 1 rest placed.header (omega arith) in
        let footer' : IsFooter m' (f.pos + f.new_size - 8) f.pos =
          IsFooter-set_header hole 1 rest placed.footer (omega arith) in
        let outside' : SameOutside f.pos f.hole_size h.memory m' =
          λ j apart. byte-set_header m hole 1 rest j (omega arith) ∙ placed.outside j apart in
        let own : IsHeader m' hole 1 rest = set_header-IsHeader m hole 1 rest (omega arith) in
        elim (Bool-cases (ltb foot h.end_address)) [
          | inl below ↦ rw below (
            record {
              header = IsHeader-set_footer foot hole header' (omega arith);
              footer = IsFooter-set_footer foot hole footer' (omega arith);
              outside = λ j apart. byte-set_footer m' foot hole j (omega arith) ∙ outside' j apart;
            },
            record {
              header = rw (← eh, ← er) (IsHeader-set_footer foot hole own (omega arith));
              footer = rw (← ef, below, ← eh) (set_footer-IsFooter m' foot hole (omega arith));
            },
          )
          | inr above ↦ rw above (
            record { header = header'; footer = footer'; outside = outside' },
            record { header = rw (← eh, ← er) own; footer = rw (← ef, above) tt },
          )
        ]

    pub place_block_split :
        (m : Memory) × (place_block f h ≡ (
          index_insert (record h { memory = m }) (f.pos + f.new_size) >>= λ h'.
          done (f.pos + 12, h')))
        × IsPlaced f h.memory m
        × IsRest f h.end_address m
    unfolding place_block with_rest
    place_block_split =
        let data_end = u32 (f.pos + 12 + f.size) in
        let m = set_footer (set_header h.memory f.pos 0 f.new_size) data_end f.pos in
        let rest = sub32 f.hole_size f.new_size in
        let hole = u32 (data_end + 8) in
        let foot = sub32 (u32 (hole + rest)) 8 in
        let at_end : data_end ≡ f.pos + f.new_size - 8 = omega arith in
        let at : hole ≡ f.pos + f.new_size = omega arith in
        let positive : ltb 0 rest ≡ true = lt→ltb 0 rest (omega arith) in
        let p : u32 (f.pos + 12) ≡ f.pos + 12 = omega arith in
        let h1 : Heap = record h { memory = with_rest m hole rest foot } in
        let written =
          IsRest-written m hole rest foot at (omega arith) (omega arith)
            (block_written f h.memory v data_end at_end) in
        (
          with_rest m hole rest foot,
          rw positive (
              ap (λ (t : ℕ). index_insert h1 hole >>= λ h'. done (t, h')) p
              ∙ ap (λ (t : ℕ). index_insert h1 t >>= λ h'. done (f.pos + 12, h')) at),
          written.0,
          written.1,
        )

-- The heap that `alloc` places a block in: the hole is out of the index.
abbrev pub without : (iterator : ℕ) → Heap → Heap
without iterator h = record h { index = OrderedArray.remove iterator h.index }

pub alloc_in-place_block :
    (size iterator : ℕ) (h : Heap)
    → iterator < h.index.size
    → let pos = h.index.array iterator in
      alloc_in size 0 iterator h
      ≡ place_block (take_whole pos (header_size h.memory pos) size) (without iterator h)
unfolding alloc_in OrderedArray.lookup
alloc_in-place_block size iterator h inside = rw (lt→ltb iterator h.index.size inside) refl

-- `alloc` of a hole of the index, for a request that need not be aligned and that the hole has room
-- for: it returns the address behind the block's header. The block has a valid header, marked as in
-- use, and a valid footer at its end that points to it. Its data, from the returned address to the
-- footer, is at least as long as the request, and the block lies inside the hole. Memory outside
-- the hole is as before.
pub alloc_in-IsPlaced :
    (size iterator : ℕ) (h : Heap)
    → let pos = h.index.array iterator in
      let hole_size = header_size h.memory pos in
      iterator < h.index.size
      → size + 20 ≤ hole_size
      → pos + hole_size < 2 ^ 32
      → (f : Fit) × (h' : Heap) × (alloc_in size 0 iterator h ≡ done (pos + 12, h'))
        × IsPlaced f h.memory h'.memory
        × (f.pos ≡ pos)
        × (f.hole_size ≡ hole_size)
        × (f.new_size ≤ hole_size)
        × (pos + 12 + size ≤ pos + f.new_size - 8)
alloc_in-IsPlaced size iterator h inside fits low =
    let pos = h.index.array iterator in
    let hole_size = header_size h.memory pos in
    let f = take_whole pos hole_size size in
    let (v, at, whole, large) = take_whole-IsFit pos hole_size size fits low in
    let h0 = without iterator h in
    let start = alloc_in-place_block size iterator h inside in
    elim v.room [
      | inl same ↦
          let (m, run, placed) = place_block_whole f h0 v same in
          let h' : Heap = record h0 { memory = m } in
          (
            f,
            h',
            start ∙ run ∙ ap (λ (t : ℕ). done (t + 12, h')) at,
            placed,
            at,
            whole,
            omega arith,
            omega arith,
          )
      | inr room ↦
          let (m, run, placed, _) = place_block_split f h0 v room in
          let (h', insert, same, _, _) =
            index_insert_memory (record h0 { memory = m }) (f.pos + f.new_size) in
          (
            f,
            h',
            start
                ∙ run
                ∙ ap (λ (r : Outcome Heap). r >>= λ h''. done (f.pos + 12, h'')) insert
                ∙ ap (λ (t : ℕ). done (t + 12, h')) at,
            rw same placed,
            at,
            whole,
            omega arith,
            omega arith,
          )
    ]
