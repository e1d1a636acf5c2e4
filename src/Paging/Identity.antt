-- ===== src/Paging/Identity.antt =====
-- The identity mapping of the kernel's own pages.
use jslk.Base.{
  ℕ, zero, suc, bit_or, refl, ap, inl, inr, true, false, some, arith, ltb, leb, ==→eq, ==→ne, eq→==,
  Bool-cases, write, write_self, ◌+◌, ◌*◌, ◌/◌, ◌%◌, ◌^◌, ◌≤◌, ◌<◌, ◌≡◌, ◌∙◌, ◌≢◌, ◌&&◌, ◌==◌,
  if◌then◌else◌,
}
use jslk.Base.Outcome.{done, Returns}
use jslk.Frames.{Page, set_frame, first_frame}
use jslk.Frames.Bitmap.{used}
use jslk.Frames.Alloc.{mapped}
use jslk.Heap.{u32}
use jslk.Paging.{PageDirectory, Allocator, Paging, alloc_frame_at, map_page}
use jslk.Paging.Directory.{get_page_new, get_page_there}
use jslk.Paging.Map.{write_page_index, pages-write_page}
use jslk.Paging.Start.{identity_map}
use jslk.Paging.Step.{
  taken, alloc_frame_first, nframes_kept, used_taken, finished, ones_next, zero_next, used_step,
  no_page, page_step, first_frame_is,
}

module _ {A : Type 0} (kmalloc : Allocator A) (undefined : ℕ) where
  map_page_taken :
      (table k : ℕ) (s : Paging A)
      → (s.directories s.kernel_directory).tables 0 ≡ table
      → table ≢ 0
      → k < 1024
      → (s.pages table k).frame ≡ 0
      → s.frame_map.used_frames ≢ s.frame_map.nframes
      → s.frame_map.nframes ≤ 2 ^ 20
      → first_frame s.frame_map ≡ some k
      → map_page kmalloc undefined (k * 0x1000) false false s ≡ done (taken table k s)
  unfolding map_page alloc_frame_at
  map_page_taken table k s there ne low no_frame left small found =
      let first : k * 0x1000 / 0x1000 / 1024 ≡ 0 = omega arith in
      let index : k * 0x1000 / 0x1000 % 1024 ≡ k = omega arith in
      let run =
        alloc_frame_first undefined k s.frame_map (s.pages table k) left no_frame found
          (omega arith) in
      rw
        (
          get_page_there kmalloc undefined (k * 0x1000) 1 s.kernel_directory table s
              (rw first there) ne,
          index,
          run,
        )
        refl

  -- The loop, from the page `k` on.
  identity_map-mapped :
      (placement : A → ℕ) (n rounds k table : ℕ) (s : Paging A)
      → (s.directories s.kernel_directory).tables 0 ≡ table
      → table ≢ 0
      → n ≤ 1024
      → k ≤ n
      → n ≤ k + rounds
      → placement s.allocator + 0x1000 ≤ n * 0x1000
      → n * 0x1000 < placement s.allocator + 0x2000
      → s.frame_map.used_frames ≢ s.frame_map.nframes
      → s.frame_map.nframes ≤ 2 ^ 20
      → n ≤ s.frame_map.nframes / 32 * 32
      → ((i : ℕ) → k ≤ i → i < n → (s.pages table i).frame ≡ 0)
      → ((j : ℕ) → j < k → used s.frame_map j ≡ 1)
      → ((j : ℕ) → k ≤ j → j < n → used s.frame_map j ≡ 0)
      → Returns
          (λ s'.
            ((t i : ℕ)
              → s'.pages t i ≡ (
                  if (t == table) && (leb k i && ltb i n)
                  then mapped (s.pages t i) i false false
                  else s.pages t i))
            × ((j : ℕ) → used s'.frame_map j ≡ (if ltb j n then 1 else used s.frame_map j))
            × ((s'.directories s'.kernel_directory).tables 0 ≡ table))
          (identity_map kmalloc undefined placement rounds (k * 0x1000) s)
  unfolding identity_map
  identity_map-mapped placement n zero k table s there ne low le enough up down left small inside
        blank below free =
      let stop : ltb (k * 0x1000) (u32 (placement s.allocator + 0x1000)) ≡ false = ground arith in
      rw stop (
        s,
        refl,
        (
          λ t i. rw (no_page t table i k n (omega arith)) refl,
          λ j. finished s.frame_map j n (λ lt. below j (omega arith)),
          there,
        ),
      )
  identity_map-mapped placement n (suc r) k table s there ne low le enough up down left small inside
        blank below free =
      elim (Bool-cases (k == n)) [
        | inl e ↦
            let at = ==→eq k n e in
            let stop : ltb (k * 0x1000) (u32 (placement s.allocator + 0x1000)) ≡ false =
              ground arith in
            rw stop (
              s,
              refl,
              (
                λ t i. rw (no_page t table i k n (omega arith)) refl,
                λ j. finished s.frame_map j n (λ lt. below j (omega arith)),
                there,
              ),
            )
        | inr e ↦
            let more = ==→ne k n e in
            let go_on : ltb (k * 0x1000) (u32 (placement s.allocator + 0x1000)) ≡ true =
              ground arith in
            let found =
              first_frame_is s.frame_map k small (omega arith) (free k (omega arith) (omega arith))
                below in
            let run =
              map_page_taken table k s there ne (omega arith) (blank k (omega arith) (omega arith))
                left small found in
            let next : k * 0x1000 + 0x1000 ≡ (k + 1) * 0x1000 = omega arith in
            rw (go_on, run, next)
              (let frames' = set_frame s.frame_map (k * 0x1000 % 2 ^ 32) in
                let (counts, counts') = nframes_kept s.frame_map (k * 0x1000 % 2 ^ 32) in
                let marks : (j : ℕ) → used frames' j ≡ (if j == k then 1 else used s.frame_map j) =
                  λ j. used_taken s.frame_map k j (omega arith) in
                let pages' =
                  pages-write_page (record { table = table; index = k })
                    (mapped (s.pages table k) k false false) (record s { frame_map = frames' }) in
                let (s', run', (pages'', used'', there')) =
                  identity_map-mapped placement n r (k + 1) table (taken table k s) there ne low
                    (omega arith) (omega arith) up down (rw (counts, counts') left)
                    (rw counts small) (rw counts inside)
                    (λ i lo hi.
                      ap (λ (x : Page). x.frame)
                        (write_page_index (record { table = table; index = k })
                          (mapped (s.pages table k) k false false)
                          (record s { frame_map = frames' }) i (omega arith))
                      ∙ blank i (omega arith) hi)
                    (λ j lt. ones_next _ _ k j (marks j) (below j) lt)
                    (λ j lo hi. zero_next _ _ k j (marks j) (free j (omega arith) hi) lo) in
                (
                  s',
                  run',
                  (
                    λ t i.
                        page_step s.pages ((taken table k s).pages t i) (s'.pages t i) t table i k n
                          (omega arith) (pages' t i) (pages'' t i),
                    λ j. used_step _ _ _ k j n (marks j) (used'' j) (omega arith),
                    there',
                  ),
                ))
      ]

  -- The directory with a table made for the first 4 MB, which `kmalloc` has left at `table`.
  abbrev with_table : (table phys : ℕ) (a' : A) → Paging A → Paging A
  with_table table phys a' s = record s {
    directories =
        write s.directories s.kernel_directory (record (s.directories s.kernel_directory) {
          tables = write (s.directories s.kernel_directory).tables 0 table;
          tables_physical =
              write (s.directories s.kernel_directory).tables_physical 0 (bit_or phys 0x7);
        });
    allocator = a';
  }

  with_table_there :
      (table phys : ℕ) (a' : A) (s : Paging A)
      → let s1 = with_table table phys a' s in (s1.directories s1.kernel_directory).tables 0 ≡ table
  with_table_there table phys a' s =
      let d = s.directories s.kernel_directory in
      ap (λ (x : PageDirectory). x.tables 0) (write_self s.directories s.kernel_directory _)
      ∙ write_self d.tables 0 table

  -- The first page makes the table; it is mapped as if the table had been there.
  map_page_first :
      (table phys : ℕ) (a' : A) (s : Paging A)
      → (s.directories s.kernel_directory).tables 0 ≡ 0
      → kmalloc.kmalloc_int 0x1000 1 s.allocator ≡ done (table, phys, a')
      → table ≢ 0
      → map_page kmalloc undefined 0 false false s
        ≡ map_page kmalloc undefined 0 false false (with_table table phys a' s)
  unfolding map_page
  map_page_first table phys a' s none_yet made ne =
      let s1 = with_table table phys a' s in
      rw
        (
          get_page_new kmalloc undefined 0 s.kernel_directory s table phys a' (eq→== _ _ none_yet)
              made,
          get_page_there kmalloc undefined 0 1 s.kernel_directory table s1
              (with_table_there table phys a' s) ne,
        )
        refl

  identity_map_first :
      (placement : A → ℕ) (rounds table phys : ℕ) (a' : A) (s : Paging A)
      → (s.directories s.kernel_directory).tables 0 ≡ 0
      → kmalloc.kmalloc_int 0x1000 1 s.allocator ≡ done (table, phys, a')
      → table ≢ 0
      → placement s.allocator ≤ placement a'
      → placement a' + 0x1000 < 2 ^ 32
      → identity_map kmalloc undefined placement (suc rounds) 0 s
        ≡ identity_map kmalloc undefined placement (suc rounds) 0 (with_table table phys a' s)
  unfolding identity_map
  identity_map_first placement rounds table phys a' s none_yet made ne grows low =
      let more : ltb 0 (u32 (placement s.allocator + 0x1000)) ≡ true = ground arith in
      let more' : ltb 0 (u32 (placement a' + 0x1000)) ≡ true = ground arith in
      rw (more, more', map_page_first table phys a' s none_yet made ne) refl

  -- The kernel's pages are mapped to themselves. Let the directory have no table for the first 4 MB,
  -- as it has when the loop starts, and let `kmalloc` return one, in memory that holds no frames;
  -- let the first `n` frames be free, among the whole words of the bitmap, `n` being the pages up to
  -- the mark that `kmalloc` has then and one more. Then the loop returns, given `n` rounds: the
  -- directory has that table; each of its first `n` pages has the frame of its own number, present
  -- and read-only, and no other page changes; just these frames are now used.
  pub identity_map-identity :
      (placement : A → ℕ) (n rounds table phys : ℕ) (a' : A) (s : Paging A)
      → (s.directories s.kernel_directory).tables 0 ≡ 0
      → kmalloc.kmalloc_int 0x1000 1 s.allocator ≡ done (table, phys, a')
      → table ≢ 0
      → placement s.allocator ≤ placement a'
      → n ≤ 1024
      → n ≤ rounds
      → placement a' + 0x1000 ≤ n * 0x1000
      → n * 0x1000 < placement a' + 0x2000
      → s.frame_map.used_frames ≢ s.frame_map.nframes
      → s.frame_map.nframes ≤ 2 ^ 20
      → n ≤ s.frame_map.nframes / 32 * 32
      → ((i : ℕ) → i < n → (s.pages table i).frame ≡ 0)
      → ((j : ℕ) → j < n → used s.frame_map j ≡ 0)
      → Returns
          (λ s'.
            ((s'.directories s'.kernel_directory).tables 0 ≡ table)
            × ((t i : ℕ)
                → s'.pages t i ≡ (
                    if (t == table) && ltb i n
                    then mapped (s.pages t i) i false false
                    else s.pages t i))
            × ((j : ℕ) → used s'.frame_map j ≡ (if ltb j n then 1 else used s.frame_map j)))
          (identity_map kmalloc undefined placement rounds 0 s)
  identity_map-identity placement n zero table phys a' s none_yet made ne grows low enough up down
        left small inside blank free =
      absurd (omega arith)
  identity_map-identity placement n (suc r) table phys a' s none_yet made ne grows low enough up
        down left small inside blank free =
      let s1 = with_table table phys a' s in
      let (s', run, (pages', used', there)) =
        identity_map-mapped placement n (suc r) 0 table s1 (with_table_there table phys a' s) ne low
          (omega arith) (omega arith) up down left small inside (λ i lo hi. blank i hi)
          (λ j lt. absurd (omega arith)) (λ j lo hi. free j hi) in
      let first =
        identity_map_first placement r table phys a' s none_yet made ne grows (omega arith) in
      (
        s',
        first ∙ run,
        (there, (λ t i. let any : leb 0 i ≡ true = ground arith in rw any at (pages' t i)), used'),
      )
