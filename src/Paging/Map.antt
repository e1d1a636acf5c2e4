-- ===== src/Paging/Map.antt =====
-- The pages that the heap asks for, `map_page` and `unmap_page`: a table, a frame and the bitmap.
use jslk.Base.{
  write, write_ne, write_self, ℕ, refl, sym, ap, inl, inr, Bool, some, arith, ==→eq, ne→==,
  Bool-cases, ◌/◌, ◌%◌, ◌^◌, ◌≤◌, ◌<◌, ◌≡◌, ◌∙◌, ◌≢◌, ◌&&◌, ◌==◌, if◌then◌else◌,
}
use jslk.Base.Outcome.{done}
use jslk.Frames.{page_size, FrameMap, Page, first_frame, free_frame}
use jslk.Frames.Bitmap.{used}
use jslk.Frames.Alloc.{mapped, alloc_frame-FirstFree, used-free_frame}
use jslk.Paging.{
  Allocator, PagePtr, Paging, read_page, write_page, get_page, alloc_frame_at, free_frame_at,
  map_page, unmap_page,
}
use jslk.Paging.Directory.{get_page_there}

module _ {A : Type 0} where
  pub pages-write_page :
      (p : PagePtr) (page : Page) (s : Paging A) (t i : ℕ)
      → (write_page p page s).pages t i
        ≡ (if (t == p.table) && (i == p.index) then page else s.pages t i)
  pages-write_page p page s t i = elim (Bool-cases (t == p.table)) [
    | inr e ↦ rw e refl
    | inl e ↦ elim (Bool-cases (i == p.index)) [
      | inl f ↦ rw (e, f) refl
      | inr f ↦ rw (e, f) (ap (λ (x : ℕ). s.pages x i) (sym (==→eq t p.table e)))
    ]
  ]

  pub write_page_self :
      (p : PagePtr) (page : Page) (s : Paging A)
      → (write_page p page s).pages p.table p.index ≡ page
  write_page_self p page s =
      ap (λ (f : ℕ → Page). f p.index)
        (write_self s.pages p.table (write (s.pages p.table) p.index page))
      ∙ write_self (s.pages p.table) p.index page

  pub write_page_table :
      (p : PagePtr) (page : Page) (s : Paging A) (t i : ℕ)
      → t ≢ p.table
      → (write_page p page s).pages t i ≡ s.pages t i
  write_page_table p page s t i ne =
      ap (λ (f : ℕ → Page). f i)
        (write_ne s.pages p.table t (write (s.pages p.table) p.index page) ne)

  pub write_page_index :
      (p : PagePtr) (page : Page) (s : Paging A) (i : ℕ)
      → i ≢ p.index
      → (write_page p page s).pages p.table i ≡ s.pages p.table i
  write_page_index p page s i ne =
      ap (λ (f : ℕ → Page). f i) (write_self s.pages p.table (write (s.pages p.table) p.index page))
      ∙ write_ne (s.pages p.table) p.index i page ne

module _ {A : Type 0} (kmalloc : Allocator A) (undefined : ℕ) where
  -- `map_page` of an address that has a table and whose page has no frame, with a lowest free frame
  -- `idx` among the whole words of the bitmap: `get_page` then finds the page of the address with
  -- that frame and the flags asked for. The frame was free and is now used; no other frame and no
  -- other page changes.
  pub map_page_lem :
      (address table idx : ℕ) (k w : Bool) (s : Paging A)
      → (s.directories s.kernel_directory).tables (address / 0x1000 / 1024) ≡ table
      → table ≢ 0
      → (s.pages table (address / 0x1000 % 1024)).frame ≡ 0
      → s.frame_map.used_frames ≢ s.frame_map.nframes
      → s.frame_map.nframes ≤ 2 ^ 20
      → first_frame s.frame_map ≡ some idx
      → let p : PagePtr = record { table = table; index = address / 0x1000 % 1024 } in
        (s' : Paging A) × (map_page kmalloc undefined address k w s ≡ done s')
        × (get_page kmalloc undefined address 0 s'.kernel_directory s' ≡ done (p, s'))
        × ((t i : ℕ)
            → s'.pages t i ≡ (
                if (t == table) && (i == address / 0x1000 % 1024)
                then mapped (read_page p s) idx k w
                else s.pages t i))
        × (used s.frame_map idx ≡ 0)
        × ((n : ℕ) → used s'.frame_map n ≡ (if n == idx then 1 else used s.frame_map n))
  unfolding map_page alloc_frame_at
  map_page_lem address table idx k w s there ne no_frame left small found =
      let p : PagePtr = record { table = table; index = address / 0x1000 % 1024 } in
      let page = read_page p s in
      let (m', run, free, _, marks) =
        alloc_frame-FirstFree undefined idx s.frame_map page k w left no_frame small found in
      let s' = write_page p (mapped page idx k w) (record s { frame_map = m' }) in
      (
        s',
        rw (get_page_there kmalloc undefined address 1 s.kernel_directory table s there ne)
            (rw run refl),
        get_page_there kmalloc undefined address 0 s.kernel_directory table s' there ne,
        pages-write_page p (mapped page idx k w) (record s { frame_map = m' }),
        free,
        marks,
      )

  free_frame_page :
      (m : FrameMap) (page : Page)
      → page.frame ≢ 0
      → (free_frame m page).1 ≡ record page { frame = 0 }
  unfolding free_frame
  free_frame_page m page ne = rw (ne→== page.frame 0 ne) refl

  -- `unmap_page` of an address whose page has the frame `idx`, other than 0 and below 2^20, takes
  -- the frame number from the page and changes no other page. The page keeps its other fields, also
  -- `present`, and the bit of the frame stays as it was: a frame in use stays used.
  pub unmap_page_leaks :
      (address table idx : ℕ) (s : Paging A)
      → (s.directories s.kernel_directory).tables (address / 0x1000 / 1024) ≡ table
      → table ≢ 0
      → (s.pages table (address / 0x1000 % 1024)).frame ≡ idx
      → 0 < idx
      → idx < 2 ^ 20
      → let p : PagePtr = record { table = table; index = address / 0x1000 % 1024 } in
        (s' : Paging A) × (unmap_page kmalloc undefined address s ≡ done s')
        × ((t i : ℕ)
            → s'.pages t i ≡ (
                if (t == table) && (i == address / 0x1000 % 1024)
                then record (read_page p s) { frame = 0 }
                else s.pages t i))
        × (used s'.frame_map idx ≡ used s.frame_map idx)
  unfolding unmap_page free_frame_at
  unmap_page_leaks address table idx s there ne frame pos small =
      let p : PagePtr = record { table = table; index = address / 0x1000 % 1024 } in
      let page = read_page p s in
      let some_frame : page.frame ≢ 0 = λ z. absurd (omega arith) in
      let freed = free_frame s.frame_map page in
      (
        write_page p freed.1 (record s { frame_map = freed.0 }),
        rw (get_page_there kmalloc undefined address 0 s.kernel_directory table s there ne) refl,
        λ t i.
            pages-write_page p freed.1 (record s { frame_map = freed.0 }) t i
            ∙ ap
                (λ (x : Page).
                  if (t == table) && (i == address / 0x1000 % 1024) then x else s.pages t i)
                (free_frame_page s.frame_map page some_frame),
        (used-free_frame s.frame_map page idx some_frame).0
            ∙ rw (frame, ne→== idx (idx / page_size) (λ z. absurd (omega arith))) refl,
      )
