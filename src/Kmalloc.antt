-- ===== src/Kmalloc.antt =====
-- hal/x86/memory/kheap.c: `kmalloc`, which places memory behind the kernel until there is a heap.
pub mod Place
mod Tests
use jslk.Base.{
  ℕ, zero, suc, min, max, bit_and, bit_or, refl, sym, ap, fun_ext, inl, inr, Bool, true, false, not,
  Option, none, some, List, [], map, arith, ltb, leb, ltb→lt, ltb→le, lt→ltb, le→ltb, ==→eq, ==→ne,
  eq→==, ne→==, Bool-cases, tests, write, write_self, write_ne, length, get_or, length-append, ◌+◌,
  ◌-◌, ◌*◌, ◌/◌, ◌%◌, ◌^◌, ◌≤◌, ◌<◌, ◌≡◌, ◌∙◌, ◌≢◌, ◌↔◌, ◌⊎◌, ◌&&◌, ◌||◌, ◌∷◌, ◌++◌, ◌==◌,
  if◌then◌else◌,
}
use jslk.Base.Outcome.{Outcome, done, ◌>>=◌}
use jslk.Heap.{Heap, u32}
use jslk.Heap.Resize.{Pager}
use jslk.Heap.Alloc.{alloc}
use jslk.Heap.Free.{free}

-- `placement_address`, `kheap` (none where it is 0), and the paging code's state.
pub record Kernel (W : Type 0) : Type 0 where
  pub placement_address : ℕ
  pub kheap : Option Heap
  pub pages : W

-- Where `kmalloc_int` places the next block.
unfoldable pub align_placement : (align placement_address : ℕ) → ℕ
align_placement align placement_address =
    if (align == 1) && not (bit_and placement_address 0xFFFFF000 == 0)
    then u32 (bit_and placement_address 0xFFFFF000 + 0x1000)
    else placement_address

-- `frame_of` is the frame of the page that `get_page` finds for an address. The second value is
-- what is stored behind `phys`, if that is not a null pointer.
module _ {W : Type 0} (pager : Pager W) (frame_of : ℕ → W → ℕ) where
  unfoldable pub kmalloc_int :
      (rounds sz align : ℕ) → (phys : Bool) → Kernel W → Outcome (ℕ × Option ℕ × Kernel W)
  unfolding align_placement
  kmalloc_int rounds sz align phys k = elim k.kheap [
    | some kheap ↦ alloc pager rounds sz (align % 2 ^ 8) kheap k.pages >>= λ (addr, kheap', w).
        let stored = bit_and (u32 (frame_of addr w * 0x1000 + addr)) 0xFFF in
        done (addr, if phys then some stored else none, record k { kheap = some kheap'; pages = w })
    | none ↦
        let tmp = align_placement align k.placement_address in
        done (tmp, if phys then some tmp else none, record k { placement_address = u32 (tmp + sz) })
  ]

  unfoldable pub kfree : (p : ℕ) → (kheap : Heap) → Kernel W → Outcome (Kernel W)
  kfree p kheap k = free pager p kheap k.pages >>= λ (kheap', w).
      done (record k { kheap = some kheap'; pages = w })

  abbrev pub kmalloc_a : (rounds sz : ℕ) → Kernel W → Outcome (ℕ × Option ℕ × Kernel W)
  kmalloc_a rounds sz k = kmalloc_int rounds sz 1 false k

  abbrev pub kmalloc_p : (rounds sz : ℕ) → Kernel W → Outcome (ℕ × Option ℕ × Kernel W)
  kmalloc_p rounds sz k = kmalloc_int rounds sz 0 true k

  abbrev pub kmalloc_ap : (rounds sz : ℕ) → Kernel W → Outcome (ℕ × Option ℕ × Kernel W)
  kmalloc_ap rounds sz k = kmalloc_int rounds sz 1 true k

  abbrev pub kmalloc : (rounds sz : ℕ) → Kernel W → Outcome (ℕ × Option ℕ × Kernel W)
  kmalloc rounds sz k = kmalloc_int rounds sz 0 false k
