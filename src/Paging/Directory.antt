-- ===== src/Paging/Directory.antt =====
-- `get_page`: which page an address has, and when a table is made for it.
use jslk.Base.{
  ℕ, bit_or, refl, sym, ap, inl, inr, true, none, some, arith, leb, ==→eq, ==→ne, ne→==, Bool-cases,
  write, write_self, write_ne, ◌+◌, ◌*◌, ◌/◌, ◌%◌, ◌^◌, ◌≤◌, ◌<◌, ◌≡◌, ◌∙◌, ◌≢◌, ◌==◌,
  if◌then◌else◌,
}
use jslk.Base.Outcome.{done, ◌>>=◌}
use jslk.Kmalloc.{Kernel, kmalloc_int}
use jslk.Kmalloc.Place.{kmalloc_int-placement}
use jslk.Heap.Resize.{Pager}
use jslk.Paging.{Allocator, PageDirectory, PagePtr, Paging, get_page}

-- What the paging code relies on: with room for a block, `kmalloc` returns one that is not at
-- address 0 and lies between the mark before the call and the mark after it.
pub record IsAllocator {A : Type 0} (kmalloc : Allocator A) (mark : A → ℕ) (Room : ℕ → A → Type 0)
    : Type 0 where
  pub gives :
      (sz : ℕ) (a : A)
      → Room sz a
      → (table : ℕ) × (phys : ℕ) × (a' : A) × (kmalloc.kmalloc_int sz 1 a ≡ done (table, phys, a'))
        × (table ≢ 0)
        × (mark a ≤ table)
        × (table + sz ≤ mark a')

-- `kmalloc` before there is a heap, as the paging code uses it.
abbrev pub no_pager : Pager Unit
no_pager = record { map_page = λ a s r w. done w; unmap_page = λ a w. done w }

abbrev pub early : Allocator (Kernel Unit)
early = record {
  kmalloc_int = λ sz align k.
      kmalloc_int no_pager (λ a w. 0) 0 sz align true k >>= λ (addr, phys, k').
      done (addr, (elim phys [ some p ↦ p | none ↦ 0 ]), k');
}

abbrev pub EarlyRoom : ℕ → Kernel Unit → Type 0
EarlyRoom sz k =
    (k.kheap ≡ none) × (0 < k.placement_address) × (k.placement_address + 0x1000 + sz < 2 ^ 32)

pub early-IsAllocator : IsAllocator early (λ k. k.placement_address) EarlyRoom
early-IsAllocator = record {
  gives = λ sz k room.
      let p = k.placement_address in
      let addr = if leb 0x1000 p then (p / 0x1000 + 1) * 0x1000 else p in
      let (run, above) = kmalloc_int-placement no_pager (λ a w. 0) 0 sz 1 true k room.0 room.2 in
      (
        addr,
        addr,
        record k { placement_address = addr + sz },
        rw run refl,
        (λ e. absurd (omega arith)),
        above,
        omega arith,
      );
}

module _ {A : Type 0} (kmalloc : Allocator A) (undefined : ℕ) where
  -- The page of an address whose table is there.
  pub get_page_there :
      (address make dir table : ℕ) (s : Paging A)
      → (s.directories dir).tables (address / 0x1000 / 1024) ≡ table
      → table ≢ 0
      → get_page kmalloc undefined address make dir s
        ≡ done (record { table = table; index = address / 0x1000 % 1024 }, s)
  unfolding get_page
  get_page_there address make dir table s e ne = rw (e, ne→== table 0 ne) refl

  -- The page of an address whose table is made.
  pub get_page_new :
      (address dir : ℕ) (s : Paging A) (table phys : ℕ) (a' : A)
      → ((s.directories dir).tables (address / 0x1000 / 1024) == 0) ≡ true
      → kmalloc.kmalloc_int 0x1000 1 s.allocator ≡ done (table, phys, a')
      → let d = s.directories dir in
        let i = address / 0x1000 / 1024 in
        get_page kmalloc undefined address 1 dir s
        ≡ done (
          record { table = table; index = address / 0x1000 % 1024 },
          record s {
            directories = write s.directories dir (record d {
              tables = write d.tables i table;
              tables_physical = write d.tables_physical i (bit_or phys 0x7);
            });
            allocator = a';
          },
        )
  unfolding get_page
  get_page_new address dir s table phys a' e run = rw (e, run) refl

-- The tables of a directory are apart, and lie below the mark of the allocator.
pub record IsDirectory (d : PageDirectory) (mark : ℕ) : Type 0 where
  pub below : (i : ℕ) → d.tables i ≢ 0 → d.tables i + 0x1000 ≤ mark
  pub apart : (i j : ℕ) → d.tables i ≢ 0 → d.tables i ≡ d.tables j → i ≡ j

module _ {A : Type 0} (kmalloc : Allocator A) (undefined : ℕ) (mark : A → ℕ) (Room : ℕ → A → Type 0)
    (lawful : IsAllocator kmalloc mark Room) where
  IsDirectory-write :
      (d : PageDirectory) (i table low high : ℕ) (physical : ℕ → ℕ)
      → IsDirectory d low
      → low ≤ table
      → table + 0x1000 ≤ high
      → IsDirectory (record d { tables = write d.tables i table; tables_physical = physical }) high
  IsDirectory-write d i table low high physical v le room =
      let fresh : (j : ℕ) → d.tables j ≢ 0 → d.tables j ≢ table =
        λ j ne e. let b = v.below j ne in absurd (omega arith) in
      record {
        below = λ j. elim (Bool-cases (j == i)) [
          | inl e ↦ rw e λ ne. room
          | inr e ↦ rw e λ ne. let b = v.below j ne in omega arith
        ];
        apart = λ j k. elim (Bool-cases (j == i)) [
          | inl e ↦ elim (Bool-cases (k == i)) [
            | inl f ↦ rw (e, f) λ ne same. ==→eq j i e ∙ sym (==→eq k i f)
            | inr f ↦ rw (e, f) λ ne same. absurd (fresh k (λ z. ne (same ∙ z)) (sym same))
          ]
          | inr e ↦ elim (Bool-cases (k == i)) [
            | inl f ↦ rw (e, f) λ ne same. absurd (fresh j ne same)
            | inr f ↦ rw (e, f) λ ne same. v.apart j k ne same
          ]
        ];
      }

  -- With room for a table, `get_page` that may make one succeeds: the page is the one at the
  -- address's index in a table that is not at 0. From then on every address of the same 4 MB has
  -- its page in that table, found without making anything, and the tables of other addresses are as
  -- before. A directory whose tables are apart stays so, and no page and no frame changes.
  pub get_page_make :
      (address dir address' make : ℕ) (s : Paging A)
      → Room 0x1000 s.allocator
      → IsDirectory (s.directories dir) (mark s.allocator)
      → (p : PagePtr) × (s' : Paging A) × (get_page kmalloc undefined address 1 dir s
          ≡ done (p, s'))
        × (p.index ≡ address / 0x1000 % 1024)
        × (p.table ≢ 0)
        × (if address' / 0x400000 == address / 0x400000
            then get_page kmalloc undefined address' make dir s'
              ≡ done (record { table = p.table; index = address' / 0x1000 % 1024 }, s')
            else (s'.directories dir).tables (address' / 0x400000)
              ≡ (s.directories dir).tables (address' / 0x400000))
        × IsDirectory (s'.directories dir) (mark s'.allocator)
        × (s'.pages ≡ s.pages)
        × (s'.frame_map ≡ s.frame_map)
  get_page_make address dir address' make s room valid =
      let i = address / 0x1000 / 1024 in
      let d = s.directories dir in
      let at : address / 0x400000 ≡ i = omega arith in
      let at' : address' / 0x400000 ≡ address' / 0x1000 / 1024 = omega arith in
      elim (Bool-cases (d.tables i == 0)) [
        | inr e ↦
            let there = ==→ne (d.tables i) 0 e in
            (
              record { table = d.tables i; index = address / 0x1000 % 1024 },
              s,
              get_page_there kmalloc undefined address 1 dir (d.tables i) s refl there,
              refl,
              there,
              elim (Bool-cases (address' / 0x400000 == address / 0x400000)) [
                | inr f ↦ rw f refl
                | inl f ↦
                    let same : address' / 0x1000 / 1024 ≡ i = sym at' ∙ ==→eq _ _ f ∙ at in
                    rw f (
                      get_page_there kmalloc undefined address' make dir (d.tables i) s
                        (ap d.tables same) there)
              ],
              valid,
              refl,
              refl,
            )
        | inl e ↦
            let (table, phys, a', run, ne, le, fits) = lawful.gives 0x1000 s.allocator room in
            let d' : PageDirectory = record d {
              tables = write d.tables i table;
              tables_physical = write d.tables_physical i (bit_or phys 0x7);
            } in
            let s' : Paging A = record s {
              directories = write s.directories dir d';
              allocator = a';
            } in
            let own : s'.directories dir ≡ d' = write_self s.directories dir d' in
            let there : (s'.directories dir).tables i ≡ table =
              ap (λ (x : PageDirectory). x.tables i) own ∙ write_self d.tables i table in
            (
              record { table = table; index = address / 0x1000 % 1024 },
              s',
              get_page_new kmalloc undefined address dir s table phys a' e run,
              refl,
              ne,
              elim (Bool-cases (address' / 0x400000 == address / 0x400000)) [
                | inl f ↦
                    let same : address' / 0x1000 / 1024 ≡ i = sym at' ∙ ==→eq _ _ f ∙ at in
                    let there' : (s'.directories dir).tables (address' / 0x1000 / 1024) ≡ table =
                      ap (λ (x : ℕ). (s'.directories dir).tables x) same ∙ there in
                    rw f (get_page_there kmalloc undefined address' make dir table s' there' ne)
                | inr f ↦
                    let other : address' / 0x400000 ≢ i = λ z. ==→ne _ _ f (z ∙ sym at) in
                    rw f (
                      ap (λ (x : PageDirectory). x.tables (address' / 0x400000)) own
                      ∙ write_ne d.tables i (address' / 0x400000) table other)
              ],
              rw own (IsDirectory-write d i table _ _ _ valid le fits),
              refl,
              refl,
            )
      ]
