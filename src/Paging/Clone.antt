-- ===== src/Paging/Clone.antt =====
-- `clone_table`: what the new table holds, and what the clearing of it costs.
use jslk.Base.{ℕ, refl, ap, arith, write, write_self, write_ne, ◌+◌, ◌≤◌, ◌<◌, ◌≡◌, ◌∙◌, ◌≢◌}
use jslk.Base.Outcome.{Returns}
use jslk.Frames.{Page}
use jslk.Paging.{clone_table, clear_table, Allocator, Paging, blank_page}
use jslk.Paging.Directory.{IsAllocator}
use jslk.Paging.Taken.{IsReady, IsCopy}
use jslk.Paging.Copy.{clone_entries-IsCopy}

module _ {A : Type 0} (table k : ℕ) (s : Paging A) where
  abbrev cleared_one : ℕ → ℕ → Page
  cleared_one = write s.pages table (λ i. blank_page)

  abbrev cleared_two : ℕ → ℕ → Page
  cleared_two = write cleared_one (table + 0x1000) (λ i. blank_page)

  clear_table_outside :
      (t : ℕ) → t ≢ table + 0x2000 → (clear_table table s).pages t k ≡ cleared_two t k
  unfolding clear_table
  clear_table_outside t ne =
      ap (λ (f : ℕ → Page). f k)
        (write_ne cleared_two (table + 0x2000) t (write (s.pages (table + 0x2000)) 0 blank_page) ne)

  clear_table_self : (clear_table table s).pages table k ≡ blank_page
  clear_table_self =
      clear_table_outside table (λ z. absurd (omega arith))
      ∙ ap (λ (f : ℕ → Page). f k)
          (write_ne cleared_one (table + 0x1000) table (λ i. blank_page) (λ z. absurd (omega arith))
            ∙ write_self s.pages table (λ i. blank_page))

  clear_table_next : (clear_table table s).pages (table + 0x1000) k ≡ blank_page
  clear_table_next =
      clear_table_outside (table + 0x1000) (λ z. absurd (omega arith))
      ∙ ap (λ (f : ℕ → Page). f k) (write_self cleared_one (table + 0x1000) (λ i. blank_page))

  clear_table_below : (t : ℕ) → t < table → (clear_table table s).pages t k ≡ s.pages t k
  clear_table_below t lt =
      clear_table_outside t (λ z. absurd (omega arith))
      ∙ ap (λ (f : ℕ → Page). f k)
          (write_ne cleared_one (table + 0x1000) t (λ i. blank_page) (λ z. absurd (omega arith))
            ∙ write_ne s.pages table t (λ i. blank_page) (λ z. absurd (omega arith)))

module _ {A : Type 0} (kmalloc : Allocator A) (undefined : ℕ) (mark : A → ℕ) (Room : ℕ → A → Type 0)
    (lawful : IsAllocator kmalloc mark Room) where
  -- With frames left and room for a table, `clone_table` of a table below the allocator's mark
  -- returns a table at or above it. Each entry of it is blank where the source has no frame, and
  -- else maps a frame with the flags that are set in the source or by `alloc_frame`; the page of
  -- memory of the source's frame has been copied to that frame, which was free before and is used
  -- afterwards, unless all frames of the bitmap's whole words are used afterwards. The source
  -- stays as it was, and so do the directories; but the table behind the new one is blank too.
  pub clone_table-IsCopy :
      (src j : ℕ) (s : Paging A)
      → IsReady undefined s.frame_map
      → Room 0x1000 s.allocator
      → src + 0x1000 ≤ mark s.allocator
      → j < 1024
      → Returns
          (λ (t, phys, s').
            (t ≢ 0)
            × (mark s.allocator ≤ t)
            × IsCopy s.frame_map s'.frame_map s'.copies (s.pages src j) (s'.pages t j)
            × (s'.pages src j ≡ s.pages src j)
            × (s'.directories ≡ s.directories)
            × (s'.pages (t + 0x1000) j ≡ blank_page))
          (clone_table kmalloc undefined src s)
  unfolding clone_table
  clone_table-IsCopy src j s v room below lt =
      let (t, phys, a, run, ne, le, fits) = lawful.gives 0x1000 s.allocator room in
      let s0 : Paging A = record s { allocator = a } in
      let s1 = clear_table t s0 in
      let (s2, run', (same, copied, _)) =
        clone_entries-IsCopy kmalloc undefined 1024 src t 0 s1 v (λ z. absurd (omega arith))
          (λ k z. clear_table_self t k s0) in
      let source : s1.pages src j ≡ s.pages src j = clear_table_below t j s0 src (omega arith) in
      (
        (t, phys, s2),
        rw run (rw run' refl),
        (
          ne,
          le,
          rw source at (copied j (omega arith) (omega arith)),
          same.other src j (λ z. absurd (omega arith)) ∙ source,
          same.directories_eq,
          same.other (t + 0x1000) j (λ z. absurd (omega arith)) ∙ clear_table_next t j s0,
        ),
      )
