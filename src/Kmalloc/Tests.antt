-- ===== src/Kmalloc/Tests.antt =====
-- The theorem at a kernel whose image ends in its first megabyte.
use jslk.Base.{ℕ, refl, true, none, some, arith, ◌≤◌, ◌≡◌}
use jslk.Base.Outcome.{done}
use jslk.Heap.Resize.{Pager}
use jslk.Kmalloc.{Kernel, kmalloc_int}
use jslk.Kmalloc.Place.{kmalloc_int-placement}

abbrev no_pager : Pager ℕ
no_pager = record { map_page = λ a s r w. done w; unmap_page = λ a w. done w }

abbrev booting : Kernel ℕ
booting = record { placement_address = 0x10500; kheap = none; pages = 0 }

kmalloc_int-placement_example :
    (kmalloc_int no_pager (λ a w. 0) 1 0x20 1 true booting
      ≡ done (0x11000, some 0x11000, record booting { placement_address = 0x11020 }))
    × (0x10500 ≤ 0x11000)
kmalloc_int-placement_example =
    kmalloc_int-placement no_pager (λ a w. 0) 1 0x20 1 true booting refl (omega arith)
