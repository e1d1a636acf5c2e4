-- ===== src/Paging/Share.antt =====
-- `clone_directory` of the kernel's own directory.
use jslk.Base.{
  true, sym, ltb, leb, not, ◌&&◌, eq→==, ◌&&◌, leb, write, write_self, write_ne, ℕ, zero, suc, refl,
  ap, inl, inr, Bool, false, arith, ==→eq, ==→ne, Bool-cases, ◌+◌, ◌%◌, ◌^◌, ◌<◌, ◌≡◌, ◌∙◌, ◌≢◌,
  ◌==◌, if◌then◌else◌,
}
use jslk.Base.Outcome.{done, Returns}
use jslk.Paging.{
  blank_directory, clone_directory, set_table, PageDirectory, clone_directory_entry,
  clone_directory_entries, Allocator, Paging,
}
use jslk.Paging.Directory.{IsAllocator}

abbrev pub entry_of : PageDirectory → ℕ → ℕ × ℕ
entry_of d j = (d.tables j, d.tables_physical j)

abbrev in_range : (i n j : ℕ) → Bool
in_range i n j = leb i j && ltb j (i + n)

-- The entry `j` once the entries from `i` up to `i + n` are shared with the kernel.
abbrev shared : (kernel d : PageDirectory) → (i n j : ℕ) → ℕ × ℕ
shared kernel d i n j =
    if in_range i n j && not (kernel.tables j == 0) then entry_of kernel j else entry_of d j

module _ (i n : ℕ) where
  in_range_other : (j : ℕ) → j ≢ i → in_range (i + 1) n j ≡ in_range i (suc n) j
  in_range_other j ne = ground arith

  in_range_first : in_range i (suc n) i ≡ true
  in_range_first = ground arith

  in_range_past : in_range (i + 1) n i ≡ false
  in_range_past = ground arith

  shared_skip :
      (kernel d : PageDirectory) (j : ℕ)
      → (kernel.tables i == 0) ≡ true
      → shared kernel d (i + 1) n j ≡ shared kernel d i (suc n) j
  shared_skip kernel d j e = elim (Bool-cases (j == i)) [
    | inl f ↦ (let at = ==→eq j i f in rw (at, in_range_past, in_range_first, e) refl)
    | inr f ↦ rw (in_range_other j (==→ne j i f)) refl
  ]

  shared_take :
      (kernel d d' : PageDirectory) (j : ℕ)
      → (kernel.tables i == 0) ≡ false
      → entry_of d' i ≡ entry_of kernel i
      → ((k : ℕ) → k ≢ i → entry_of d' k ≡ entry_of d k)
      → shared kernel d' (i + 1) n j ≡ shared kernel d i (suc n) j
  shared_take kernel d d' j e taken kept = elim (Bool-cases (j == i)) [
    | inl f ↦ (let at = ==→eq j i f in rw (at, in_range_past, in_range_first, e) taken)
    | inr f ↦
        let ne = ==→ne j i f in
        rw (in_range_other j ne) (
          ap
            (λ (x : ℕ × ℕ).
              if in_range i (suc n) j && not (kernel.tables j == 0) then entry_of kernel j else x)
            (kept j ne))
  ]

copied_entry :
    (kernel d' : PageDirectory) (addr j : ℕ)
    → entry_of d' j ≡ shared kernel (record blank_directory { physical_addr = addr }) 0 1024 j
    → j < 1024
    → (d'.tables j ≡ kernel.tables j)
      × (if kernel.tables j == 0
          then d'.tables_physical j ≡ 0
          else d'.tables_physical j ≡ kernel.tables_physical j)
copied_entry kernel d' addr j h lt =
    let inside : in_range 0 1024 j ≡ true = ground arith in
    elim (Bool-cases (kernel.tables j == 0)) [
      | inl e ↦
          let p : entry_of d' j ≡ (0, 0) = h ∙ rw (inside, e) refl in
          (
            ap (λ (x : ℕ × ℕ). x.0) p ∙ sym (==→eq (kernel.tables j) 0 e),
            rw e (ap (λ (x : ℕ × ℕ). x.1) p),
          )
      | inr e ↦
          let p : entry_of d' j ≡ entry_of kernel j = h ∙ rw (inside, e) refl in
          (ap (λ (x : ℕ × ℕ). x.0) p, rw e (ap (λ (x : ℕ × ℕ). x.1) p))
    ]

module _ {A : Type 0} (kmalloc : Allocator A) (undefined : ℕ) (mark : A → ℕ) (Room : ℕ → A → Type 0)
    (lawful : IsAllocator kmalloc mark Room) where
  -- The entry `i` of the copy of the kernel's directory.
  clone_kernel_entry :
      (dir i : ℕ) (s : Paging A)
      → let table = (s.directories s.kernel_directory).tables i in
        clone_directory_entry kmalloc undefined s.kernel_directory dir i s
        ≡ done (
            if table == 0
            then s
            else set_table dir i table ((s.directories s.kernel_directory).tables_physical i) s)
  unfolding clone_directory_entry
  clone_kernel_entry dir i s =
      let table = (s.directories s.kernel_directory).tables i in
      elim (Bool-cases (table == 0)) [
        | inl e ↦ rw e refl
        | inr e ↦ rw (e, eq→== table table refl) refl
      ]

  -- The copy of the kernel's directory shares all of its tables.
  clone_kernel_entries :
      (n dir i : ℕ) (kernel : PageDirectory) (s : Paging A)
      → dir ≢ s.kernel_directory
      → s.directories s.kernel_directory ≡ kernel
      → Returns
          (λ s'.
            (s'.pages ≡ s.pages)
            × (s'.frame_map ≡ s.frame_map)
            × ((s'.directories dir).physical_addr ≡ (s.directories dir).physical_addr)
            × ((j : ℕ) → entry_of (s'.directories dir) j ≡ shared kernel (s.directories dir) i n j))
          (clone_directory_entries kmalloc undefined n s.kernel_directory dir i s)
  unfolding clone_directory_entries
  clone_kernel_entries zero dir i kernel s ne own = (s, refl, (refl, refl, refl, λ j. ground arith))
  clone_kernel_entries (suc n) dir i kernel s ne own =
      let table = kernel.tables i in
      let phys = kernel.tables_physical i in
      let entry : clone_directory_entry kmalloc undefined s.kernel_directory dir i s
          ≡ done (if table == 0 then s else set_table dir i table phys s) =
        rw own at (clone_kernel_entry dir i s) in
      elim (Bool-cases (table == 0)) [
        | inl e ↦
            let (s', run, (pages, frames, addr, tables)) =
              clone_kernel_entries n dir (i + 1) kernel s ne own in
            (
              s',
              rw (entry, e) run,
              (pages, frames, addr, λ j. tables j ∙ shared_skip i n kernel (s.directories dir) j e),
            )
        | inr e ↦
            let d = s.directories dir in
            let d' : PageDirectory = record d {
              tables = write d.tables i table;
              tables_physical = write d.tables_physical i phys;
            } in
            let s1 = set_table dir i table phys s in
            let own1 : s1.directories s1.kernel_directory ≡ kernel =
              write_ne s.directories dir s.kernel_directory d' (λ z. ne (sym z)) ∙ own in
            let at : s1.directories dir ≡ d' = write_self s.directories dir d' in
            let (s', run, (pages, frames, addr, tables)) =
              clone_kernel_entries n dir (i + 1) kernel s1 ne own1 in
            (
              s',
              rw (entry, e) run,
              (
                pages,
                frames,
                addr ∙ ap (λ (x : PageDirectory). x.physical_addr) at,
                λ j.
                    tables j
                    ∙ ap (λ (x : PageDirectory). shared kernel x (i + 1) n j) at
                    ∙ shared_take i n kernel d d' j e
                        (rw (write_self d.tables i table, write_self d.tables_physical i phys) refl)
                        (λ k z.
                          rw (write_ne d.tables i k table z, write_ne d.tables_physical i k phys z)
                            refl),
              ),
            )
      ]

  -- With room for a directory, and the kernel's directory below the allocator's mark, the copy that
  -- `clone_directory` makes of it is elsewhere and has all of its tables: the same page tables, not
  -- copies, at the same physical addresses. No page and no frame changes.
  pub clone_directory_kernel :
      (s : Paging A) (j : ℕ)
      → Room 0x2004 s.allocator
      → s.kernel_directory < mark s.allocator
      → j < 1024
      → let kernel = s.directories s.kernel_directory in
        Returns
          (λ (dir, s').
            (dir ≢ s.kernel_directory)
            × ((s'.directories dir).tables j ≡ kernel.tables j)
            × (if kernel.tables j == 0
                then (s'.directories dir).tables_physical j ≡ 0
                else (s'.directories dir).tables_physical j ≡ kernel.tables_physical j)
            × (s'.pages ≡ s.pages)
            × (s'.frame_map ≡ s.frame_map))
          (clone_directory kmalloc undefined s.kernel_directory s)
  unfolding clone_directory
  clone_directory_kernel s j room below lt =
      let kernel = s.directories s.kernel_directory in
      let (dir, phys, a, run, _, le, _) = lawful.gives 0x2004 s.allocator room in
      let blank : PageDirectory = record blank_directory {
        physical_addr = (phys + 0x1000) % 2 ^ 32;
      } in
      let s1 : Paging A = record s { directories = write s.directories dir blank; allocator = a } in
      let ne : dir ≢ s.kernel_directory = λ z. absurd (omega arith) in
      let own : s1.directories s1.kernel_directory ≡ kernel =
        write_ne s.directories dir s.kernel_directory blank (λ z. ne (sym z)) in
      let at : s1.directories dir ≡ blank = write_self s.directories dir blank in
      let (s', run', (pages, frames, _, tables)) =
        clone_kernel_entries 1024 dir 0 kernel s1 ne own in
      let entry : entry_of (s'.directories dir) j ≡ shared kernel blank 0 1024 j =
        tables j ∙ ap (λ (x : PageDirectory). shared kernel x 0 1024 j) at in
      let both = copied_entry kernel (s'.directories dir) ((phys + 0x1000) % 2 ^ 32) j entry lt in
      ((dir, s'), rw run (rw run' refl), (ne, both.0, both.1, pages, frames))
