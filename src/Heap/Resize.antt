-- ===== src/Heap/Resize.antt =====
-- `expand` and `contract`: how large the heap becomes, and which pages are mapped on the way.
use jslk.Base.{
  refl, inl, inr, Bool-cases, ◌∙◌, fun_ext, ap, lt→ltb, le→ltb, ◌&&◌, arith, ◌*◌, ◌/◌, ◌≤◌, ◌-◌,
  ◌%◌, ◌≡◌, ◌<◌, ℕ, zero, suc, bit_and, Bool, not, ltb, leb, ◌+◌, ◌^◌, ◌==◌, if◌then◌else◌,
}
use jslk.Base.Outcome.{panic, Outcome, done, no_fuel, ◌>>=◌, ◌>>◌, assert}
use jslk.Base.Bits.{bit_and-pow, bit, bit_and_mask, bit_and-page}
use jslk.Heap.{Heap, heap_min_size, u32, sub32}

-- What the heap asks of the paging code: `map` is `alloc_frame(get_page(address, 1,
-- kernel_directory), supervisor?1:0, readonly?0:1)` and `unmap` is `free_frame(get_page(address, 0,
-- kernel_directory))`, on the paging code's state.
pub record Pager (W : Type 0) : Type 0 where
  pub map_page : (address : ℕ) → (supervisor writeable : Bool) → W → Outcome W
  pub unmap_page : (address : ℕ) → W → Outcome W

-- The rounds that the loops are given: the number of pages in the address space.
abbrev pub all_pages : ℕ
all_pages = 2 ^ 20

module _ {W : Type 0} (pager : Pager W) where
  unfoldable pub map_pages : (rounds i new_size : ℕ) → Heap → W → Outcome W
  map_pages zero i new_size h w = if ltb i new_size then no_fuel else done w
  map_pages (suc n) i new_size h w =
      let rest : Outcome W = (do
        w' ←
            pager.map_page (u32 (h.start_address + i)) (not (h.supervisor == 0)) (h.readonly == 0) w
        map_pages n (u32 (i + 0x1000)) new_size h w') in
      if ltb i new_size then rest else done w

  unfoldable pub unmap_pages : (rounds i new_size : ℕ) → Heap → W → Outcome W
  unmap_pages zero i new_size h w = if ltb new_size i then no_fuel else done w
  unmap_pages (suc n) i new_size h w =
      let rest : Outcome W = (do
        w' ← pager.unmap_page (u32 (h.start_address + i)) w
        unmap_pages n (sub32 i 0x1000) new_size h w') in
      if ltb new_size i then rest else done w

-- `if (new_size&0xFFFFF000 != 0)`: `!=` binds tighter than `&`, so the test is of the lowest bit.
unfoldable pub expanded_size : ℕ → ℕ
expanded_size new_size =
    if bit_and new_size (if 0xFFFFF000 == 0 then 0 else 1) == 0
    then new_size
    else u32 (bit_and new_size 0xFFFFF000 + 0x1000)

-- `new_size&0x1000` and `new_size &= 0x1000` keep one bit of the size.
unfoldable pub contracted_size : ℕ → ℕ
contracted_size new_size =
    let rounded : ℕ =
      if bit_and new_size 0x1000 == 0 then new_size else u32 (bit_and new_size 0x1000 + 0x1000) in
    if ltb rounded heap_min_size then heap_min_size else rounded

module _ {W : Type 0} (pager : Pager W) where
  unfoldable pub expand : (new_size : ℕ) → Heap → W → Outcome (Heap × W)
  expand new_size h w = do
    assert (ltb (sub32 h.end_address h.start_address) new_size)
    assert (leb (u32 (h.start_address + expanded_size new_size)) h.max_address)
    w' ←
        map_pages pager all_pages (sub32 h.end_address h.start_address) (expanded_size new_size) h w
    done (record h { end_address = u32 (h.start_address + expanded_size new_size) }, w')

  unfoldable pub contract : (new_size : ℕ) → Heap → W → Outcome (ℕ × Heap × W)
  contract new_size h w = do
    assert (ltb new_size (sub32 h.end_address h.start_address))
    w' ←
        unmap_pages pager all_pages (sub32 (sub32 h.end_address h.start_address) 0x1000)
          (contracted_size new_size) h w
    done (
      contracted_size new_size,
      record h { end_address = u32 (h.start_address + contracted_size new_size) },
      w',
    )

-- For a size that stays a page below 2^32, `expand` rounds the new size up exactly when it is odd,
-- and then past the end of its page. An even size stays as it is, whether or not it is a whole
-- number of pages.
pub expanded_size-parity :
    (new_size : ℕ)
    → new_size < 2 ^ 32 - 0x1000
    → expanded_size new_size
      ≡ (if new_size % 2 == 0 then new_size else (new_size / 0x1000 + 1) * 0x1000)
unfolding expanded_size
expanded_size-parity new_size h =
    let low : bit_and new_size 1 ≡ new_size % 2 = bit_and_mask new_size 1 in
    let page = bit_and-page new_size (omega arith) in rw (low, page) (ground arith)

-- `contract` turns every size whose page number is odd, and every size below the minimum, into the
-- minimum, and leaves every other size as it is: it rounds nothing up.
pub contracted_size-odd_page :
    (new_size : ℕ)
    → contracted_size new_size ≡ (
        if (new_size / 0x1000 % 2 == 0) && leb heap_min_size new_size
        then new_size
        else heap_min_size)
unfolding contracted_size bit
contracted_size-odd_page n =
    let digit : bit n 12 ≡ n / 0x1000 % 2 = omega arith in ground (arith, bit_and-pow n 12, digit)

-- A call of `contract` for a size above the minimum and below the present one, whose page number is
-- odd, ends the heap below the size that was asked for, if the pager does not fail and the
-- addresses stay below 2^32.
pub contract_cuts :
    {W : Type 0} (pager : Pager W) (new_size : ℕ) (h : Heap) (w w' : W)
    → unmap_pages pager all_pages
        (sub32 (sub32 h.end_address h.start_address) 0x1000)
        heap_min_size
        h
        w
      ≡ done w'
    → new_size < sub32 h.end_address h.start_address
    → heap_min_size < new_size
    → new_size / 0x1000 % 2 ≡ 1
    → h.start_address + new_size < 2 ^ 32
    → (h' : Heap) × (contract pager new_size h w ≡ done (heap_min_size, h', w'))
      × (h'.end_address < h.start_address + new_size)
unfolding contract
contract_cuts pager new_size h w w' run below above odd small =
    let size : contracted_size new_size ≡ heap_min_size =
      ground (arith, contracted_size-odd_page new_size) in
    (
      record h { end_address = u32 (h.start_address + heap_min_size) },
      rw (lt→ltb _ _ below) (rw size (rw run)),
      omega arith,
    )

-- The pages that `expand` maps: `count` of them, from `i` on.
module _ {W : Type 0} (pager : Pager W) where
  unfoldable pub map_in_order : (count i : ℕ) → Heap → W → Outcome W
  map_in_order zero i h w = done w
  map_in_order (suc n) i h w = do
    w' ← pager.map_page (u32 (h.start_address + i)) (not (h.supervisor == 0)) (h.readonly == 0) w
    map_in_order n (i + 0x1000) h w'

  map_pages-in_order :
      (rounds count i new_size : ℕ) (h : Heap) (w : W)
      → count ≤ rounds
      → (new_size - i + 0xFFF) / 0x1000 ≡ count
      → new_size ≤ 2 ^ 32 - 0x1000
      → map_pages pager rounds i new_size h w ≡ map_in_order count i h w
  unfolding map_pages map_in_order
  map_pages-in_order zero zero i new_size h w le e small = rw (le→ltb i new_size (omega arith))
  map_pages-in_order zero (suc c) i new_size h w le e small = absurd (omega arith)
  map_pages-in_order (suc n) zero i new_size h w le e small = rw (le→ltb i new_size (omega arith))
  map_pages-in_order (suc n) (suc c) i new_size h w le e small =
      let wrap : u32 (i + 0x1000) ≡ i + 0x1000 = omega arith in
      rw (lt→ltb i new_size (omega arith)) (
        ap
          (λ k.
            pager.map_page (u32 (h.start_address + i)) (not (h.supervisor == 0)) (h.readonly == 0) w
            >>= k)
          (fun_ext λ w'.
            ap (λ (t : ℕ). map_pages pager n t new_size h w') wrap
            ∙ map_pages-in_order n c (i + 0x1000) new_size h w' (omega arith) (omega arith) small))

-- With an expanded size that stays a page below 2^32, `expand` asserts that the heap grows and
-- stays below its maximum. It then maps one page for each step of 0x1000 from the old size up to
-- the expanded one, in order, and moves the end of the heap, and nothing else of it, to the
-- expanded size.
pub expand_lem :
    {W : Type 0} (pager : Pager W) (new_size : ℕ) (h : Heap) (w : W)
    → expanded_size new_size ≤ 2 ^ 32 - 0x1000
    → let old_size = sub32 h.end_address h.start_address in
      let end = u32 (h.start_address + expanded_size new_size) in
      expand pager new_size h w ≡ (
        if ltb old_size new_size && leb end h.max_address
        then map_in_order pager ((expanded_size new_size - old_size + 0xFFF) / 0x1000) old_size h w
          >>= (λ w'. done (record h { end_address = end }, w'))
        else panic)
unfolding expand
expand_lem pager new_size h w small =
    let old_size = sub32 h.end_address h.start_address in
    let size = expanded_size new_size in
    let pages : map_pages pager all_pages old_size size h w ≡ _ =
      map_pages-in_order pager all_pages ((size - old_size + 0xFFF) / 0x1000) old_size size h w
        (omega arith) refl small in
    elim (Bool-cases (ltb old_size new_size)) [
      | inr e ↦ rw e
      | inl e ↦ elim (Bool-cases (leb (u32 (h.start_address + size)) h.max_address)) [
        | inr f ↦ rw (e, f)
        | inl f ↦ rw (e, f, pages)
      ]
    ]
