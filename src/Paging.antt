-- ===== src/Paging.antt =====
-- hal/x86/memory/paging.c, second part: page tables and page directories.
pub mod Directory
pub mod Taken
pub mod Copy
pub mod Clone
pub mod Share
pub mod Map
pub mod Regions
pub mod Reserve
pub mod Start
pub mod Step
pub mod Identity
mod Tests
use jslk.Base.{
  ℕ, zero, suc, min, max, bit_and, bit_or, refl, sym, ap, fun_ext, inl, inr, Bool, true, false, not,
  Option, none, some, List, [], map, arith, ltb, leb, ltb→lt, ltb→le, lt→ltb, le→ltb, ==→eq, ==→ne,
  eq→==, ne→==, Bool-cases, tests, write, write_self, write_ne, length, get_or, length-append, ◌+◌,
  ◌-◌, ◌*◌, ◌/◌, ◌%◌, ◌^◌, ◌≤◌, ◌<◌, ◌≡◌, ◌∙◌, ◌≢◌, ◌↔◌, ◌⊎◌, ◌&&◌, ◌||◌, ◌∷◌, ◌++◌, ◌==◌,
  if◌then◌else◌,
}
use jslk.Base.Outcome.{Outcome, done, ◌>>=◌}
use jslk.Frames
use jslk.Frames.{FrameMap, Page, Status}
use jslk.Heap.Resize.{Pager}

-- What the paging code asks of `kmalloc`: the address of a block, and its physical address.
pub record Allocator (A : Type 0) : Type 0 where
  pub kmalloc_int : (sz align : ℕ) → A → Outcome (ℕ × ℕ × A)

pub record PageDirectory : Type 0 where
  pub tables : ℕ → ℕ
  pub tables_physical : ℕ → ℕ
  pub physical_addr : ℕ

-- A `page_t *`: a page table and an index in it. The null pointer is the first page at address 0.
pub record PagePtr : Type 0 where
  pub table : ℕ
  pub index : ℕ

abbrev pub null_page : PagePtr
null_page = record { table = 0; index = 0 }

-- The variables of the paging code. Page tables and page directories are found by their addresses.
-- `copies` are the pages that were copied, source and destination, the latest first; `cr3` and
-- `enabled` are what the processor was told. `allocator` is the state of `kmalloc`.
pub record Paging (A : Type 0) : Type 0 where
  pub frame_map : FrameMap
  pub pages : ℕ → ℕ → Page
  pub directories : ℕ → PageDirectory
  pub kernel_directory : ℕ
  pub current_directory : ℕ
  pub copies : List (ℕ × ℕ)
  pub cr3 : ℕ
  pub enabled : Bool
  pub allocator : A

abbrev pub blank_page : Page
blank_page = record {
  present = 0;
  rw = 0;
  user = 0;
  accessed = 0;
  dirty = 0;
  unused = 0;
  frame = 0;
}

abbrev pub blank_directory : PageDirectory
blank_directory = record { tables = λ i. 0; tables_physical = λ i. 0; physical_addr = 0 }

module _ {A : Type 0} where
  abbrev pub write_page : PagePtr → Page → Paging A → Paging A
  write_page p page s = record s {
    pages = write s.pages p.table (write (s.pages p.table) p.index page);
  }

  abbrev pub read_page : PagePtr → Paging A → Page
  read_page p s = s.pages p.table p.index

  abbrev pub set_table : (dir i table physical : ℕ) → Paging A → Paging A
  set_table dir i table physical s =
      let d = s.directories dir in
      record s {
        directories = write s.directories dir (record d {
          tables = write d.tables i table;
          tables_physical = write d.tables_physical i physical;
        });
      }

  unfoldable pub switch_page_directory : (dir : ℕ) → Paging A → Paging A
  switch_page_directory dir s = record s {
    current_directory = dir;
    cr3 = (s.directories dir).physical_addr;
    enabled = true;
  }

-- `undefined` is what `alloc_frame` reads where `first_frame` has no value.
module _ {A : Type 0} (kmalloc : Allocator A) (undefined : ℕ) where
  -- `sizeof(page_table_t)` is 0x1000.
  unfoldable pub get_page : (address make dir : ℕ) → Paging A → Outcome (PagePtr × Paging A)
  get_page address make dir s =
      let page = address / 0x1000 in
      let table_idx = page / 1024 in
      let d = s.directories dir in
      if not (d.tables table_idx == 0)
      then done (record { table = d.tables table_idx; index = page % 1024 }, s)
      else if not (make == 0)
      then (kmalloc.kmalloc_int 0x1000 1 s.allocator >>= λ (table, tmp, a). done (
        record { table = table; index = page % 1024 },
        record s {
          directories = write s.directories dir (record d {
            tables = write d.tables table_idx table;
            tables_physical = write d.tables_physical table_idx (bit_or tmp 0x7);
          });
          allocator = a;
        },
      ))
      else done (null_page, s)

  -- `alloc_frame` and `free_frame` at a page of a table.
  unfoldable pub alloc_frame_at :
      PagePtr → (is_kernel is_writeable : Bool) → Paging A → Outcome (Paging A)
  alloc_frame_at p is_kernel is_writeable s =
      Frames.alloc_frame undefined s.frame_map (read_page p s) is_kernel is_writeable
      >>= λ (m, page, _). done (write_page p page (record s { frame_map = m }))

  unfoldable pub free_frame_at : PagePtr → Paging A → Paging A
  free_frame_at p s =
      let (m, page) = Frames.free_frame s.frame_map (read_page p s) in
      write_page p page (record s { frame_map = m })

  -- What the heap calls: `alloc_frame(get_page(address, 1, kernel_directory), ...)` and
  -- `free_frame(get_page(address, 0, kernel_directory))`.
  unfoldable pub map_page :
      (address : ℕ) → (supervisor writeable : Bool) → Paging A → Outcome (Paging A)
  unfolding get_page alloc_frame_at
  map_page address supervisor writeable s = get_page address 1 s.kernel_directory s >>= λ (p, s').
      alloc_frame_at p supervisor writeable s'

  unfoldable pub unmap_page : (address : ℕ) → Paging A → Outcome (Paging A)
  unfolding get_page free_frame_at
  unmap_page address s =
      get_page address 0 s.kernel_directory s >>= λ (p, s'). done (free_frame_at p s')

  abbrev pub pager : Pager (Paging A)
  pager = record { map_page = map_page; unmap_page = unmap_page }

-- `memset(table, 0, sizeof(page_directory_t))`: the size is 0x2004, so that the two page tables
-- behind `table` lose their entries too, the second of them its first.
module _ {A : Type 0} where
  unfoldable pub clear_table : (table : ℕ) → Paging A → Paging A
  clear_table table s = record s {
    pages =
        write (write (write s.pages table (λ i. blank_page)) (table + 0x1000) (λ i. blank_page))
          (table + 0x2000) (write (s.pages (table + 0x2000)) 0 blank_page);
  }

-- The flags that are set in the source are set in the copy.
abbrev pub join_flags : (source copy : Page) → Page
join_flags source copy = record copy {
  present = if source.present == 0 then copy.present else 1;
  rw = if source.rw == 0 then copy.rw else 1;
  user = if source.user == 0 then copy.user else 1;
  accessed = if source.accessed == 0 then copy.accessed else 1;
  dirty = if source.dirty == 0 then copy.dirty else 1;
}

module _ {A : Type 0} (kmalloc : Allocator A) (undefined : ℕ) where
  unfoldable pub clone_entry : (src table i : ℕ) → Paging A → Outcome (Paging A)
  clone_entry src table i s =
      let p : PagePtr = record { table = table; index = i } in
      let copied : Outcome (Paging A) = alloc_frame_at kmalloc undefined p false false s >>= λ s1.
      let source = s1.pages src i in
      let s2 = write_page p (join_flags source (s1.pages table i)) s1 in
      done (record s2 {
        copies = ((s2.pages src i).frame * 0x1000, (s2.pages table i).frame * 0x1000) ∷ s2.copies;
      }) in
      if (s.pages src i).frame == 0 then done s else copied

  unfoldable pub clone_entries : (n src table i : ℕ) → Paging A → Outcome (Paging A)
  clone_entries zero src table i s = done s
  clone_entries (suc n) src table i s =
      clone_entry src table i s >>= λ s'. clone_entries n src table (i + 1) s'

  -- The value is the new table, with its physical address.
  unfoldable pub clone_table : (src : ℕ) → Paging A → Outcome (ℕ × ℕ × Paging A)
  unfolding clone_entries clear_table
  clone_table src s = do
    (table, phys, a) ← kmalloc.kmalloc_int 0x1000 1 s.allocator
    s' ← clone_entries 1024 src table 0 (clear_table table (record s { allocator = a }))
    done (table, phys, s')

  unfoldable pub clone_directory_entry : (src dir i : ℕ) → Paging A → Outcome (Paging A)
  unfolding clone_table
  clone_directory_entry src dir i s =
      let source = s.directories src in
      let table = source.tables i in
      let own : Outcome (Paging A) =
        clone_table table s >>= λ (t, phys, s'). done (set_table dir i t (bit_or phys 0x07) s') in
      if table == 0
      then done s
      else if (s.directories s.kernel_directory).tables i == table
      then done (set_table dir i table (source.tables_physical i) s)
      else own

  unfoldable pub clone_directory_entries : (n src dir i : ℕ) → Paging A → Outcome (Paging A)
  clone_directory_entries zero src dir i s = done s
  clone_directory_entries (suc n) src dir i s =
      clone_directory_entry src dir i s >>= λ s'. clone_directory_entries n src dir (i + 1) s'

  -- `sizeof(page_directory_t)` is 0x2004, and `tablesPhysical` lies 0x1000 bytes into it.
  unfoldable pub clone_directory : (src : ℕ) → Paging A → Outcome (ℕ × Paging A)
  unfolding clone_directory_entries
  clone_directory src s = do
    (dir, phys, a) ← kmalloc.kmalloc_int 0x2004 1 s.allocator
    let blank : PageDirectory = record blank_directory { physical_addr = (phys + 0x1000) % 2 ^ 32 }
    s' ←
        clone_directory_entries 1024 src dir 0
          (record s { directories = write s.directories dir blank; allocator = a })
    done (dir, s')
