-- ===== src/Paging/Start.antt =====
-- hal/x86/memory/paging.c, at start-up: `initialise_paging`, and the report of a page fault.
use jslk.Base.{
  ℕ, zero, suc, bit_and, false, Option, some, [], ltb, write, ◌+◌, ◌/◌, ◌∷◌, ◌==◌, if◌then◌else◌,
}
use jslk.Base.Memory.{Memory}
use jslk.Base.Outcome.{Outcome, done, panic, no_fuel, ◌>>=◌}
use jslk.Console.{Console, kprint}
use jslk.Console.Numbers.{kernel_print_hex}
use jslk.Console.Format.{kprintf}
use jslk.Frames.{test_frame}
use jslk.Heap.{Heap, u32}
use jslk.Heap.Alloc.{create_heap}
use jslk.Interrupts.{Tables, Locals, register_interrupt_handler}
use jslk.Paging.{Allocator, Paging, blank_directory, get_page, map_page, switch_page_directory}
use jslk.Paging.Regions.{chars, clear_bytes}

abbrev pub kheap_start : ℕ
kheap_start = 0xC0000000

abbrev pub kheap_initial_size : ℕ
kheap_initial_size = 0x100000

-- What the start of paging changes.
pub record System (A : Type 0) : Type 0 where
  pub paging : Paging A
  pub mem_end_page : ℕ
  pub console : Console
  pub tables : Tables
  pub kheap : Option Heap

-- `sizeof(heap_t)`.
abbrev pub heap_bytes : ℕ
heap_bytes = 0x20

-- The loops over the pages of the kernel heap, with `n` pages left. `i` is an `int` that is
-- compared with a word.
module _ {A : Type 0} (kmalloc : Allocator A) (undefined : ℕ) where
  unfoldable pub make_tables : (n i : ℕ) → Paging A → Outcome (Paging A)
  make_tables zero i s = done s
  make_tables (suc n) i s = get_page kmalloc undefined i 1 s.kernel_directory s >>= λ (p, s').
      make_tables n (i + 0x1000) s'

  unfoldable pub map_heap : (n i : ℕ) → Paging A → Outcome (Paging A)
  map_heap zero i s = done s
  map_heap (suc n) i s =
      map_page kmalloc undefined i false false s >>= λ s'. map_heap n (i + 0x1000) s'

  -- The `while` that maps the kernel's own pages. The mark of `kmalloc` is read in each round.
  unfoldable pub identity_map : (placement : A → ℕ) → (rounds i : ℕ) → Paging A → Outcome (Paging A)
  identity_map placement zero i s =
      if ltb i (u32 (placement s.allocator + 0x1000)) then no_fuel else done s
  identity_map placement (suc n) i s =
      let rest = map_page kmalloc undefined i false false s >>= λ s'.
      identity_map placement n (i + 0x1000) s' in
      if ltb i (u32 (placement s.allocator + 0x1000)) then rest else done s

  -- A bitmap for 16 MB where the memory map was not read. `mem_end_page` of this block is a
  -- variable of its own, so that the one of the kernel stays 0. `fresh` is what the memory held.
  unfoldable pub assume_memory : (fresh : ℕ → ℕ → ℕ) → Paging A → Outcome (Paging A)
  assume_memory fresh s = kmalloc.kmalloc_int (0x1000 / 32) 0 s.allocator >>= λ (frames, _, a).
      done (record s {
        frame_map = record {
          frames = clear_bytes (0x1000 / 32) (fresh frames);
          nframes = 0x1000;
          used_frames = s.frame_map.used_frames;
        };
        allocator = a;
      })

  -- `sizeof(page_directory_t)` is 0x2004, and `tablesPhysical` lies 0x1000 bytes into it.
  unfoldable pub make_kernel_directory : Paging A → Outcome (Paging A)
  make_kernel_directory s = kmalloc.kmalloc_int 0x2004 1 s.allocator >>= λ (dir, _, a).
      done (record s {
        kernel_directory = dir;
        directories =
            write s.directories dir (record blank_directory { physical_addr = u32 (dir + 0x1000) });
        allocator = a;
      })

  -- From the kernel's directory to all pages mapped.
  unfoldable pub map_kernel : (placement : A → ℕ) → (rounds : ℕ) → Paging A → Outcome (Paging A)
  map_kernel placement rounds s = do
    s1 ← make_kernel_directory s
    s2 ← make_tables (kheap_initial_size / 0x1000) kheap_start s1
    s3 ← identity_map placement rounds 0 s2
    map_heap (kheap_initial_size / 0x1000) kheap_start s3

  -- `page_fault` is the address of the handler, `stack` what the local variables of
  -- `registerInterruptHandler` hold, and `args` its words behind the first two, of which the first
  -- is NF. `memory` and `cells` are those of the heap; its record is made by `kmalloc`. `delay` is what happens while the kernel
  -- waits.
  unfoldable pub initialise_paging :
      (delay : ℕ → System A → Outcome (System A)) (placement : A → ℕ) (fresh : ℕ → ℕ → ℕ)
      (page_fault : ℕ) (stack : Locals) (args : ℕ → ℕ) (memory : Memory) (cells : ℕ → ℕ)
      (rounds : ℕ)
      → System A
      → Outcome (System A)
  initialise_paging delay placement fresh page_fault stack args memory cells rounds s =
      kprintf (λ a. [])
        (chars (
          42 ∷ 42 ∷ 84 ∷ 69 ∷ 83 ∷ 84 ∷ 58 ∷ 32 ∷ 82 ∷ 97 ∷ 110 ∷ 100 ∷ 111 ∷ 109 ∷ 32 ∷ 85 ∷ 115
          ∷ 101 ∷ 100 ∷ 32 ∷ 102 ∷ 114 ∷ 97 ∷ 109 ∷ 101 ∷ 32 ∷ 115 ∷ 116 ∷ 97 ∷ 116 ∷ 117 ∷ 115 ∷ 58
          ∷ 32 ∷ 37 ∷ 105 ∷ 32 ∷ 42 ∷ 42 ∷ 10 ∷ []))
        (λ n. test_frame s.paging.frame_map (0x7fe0000 + 0x1000)) 64 s.console
      >>= λ console. delay 3 (record s { console = console }) >>= λ s1.
          let assumed = assume_memory fresh s1.paging in
          (if s1.mem_end_page == 0
            then assumed
            else if s1.paging.frame_map.used_frames == s1.paging.frame_map.nframes
            then panic
            else done s1.paging)
          >>= λ p. map_kernel placement rounds p >>= λ p'.
              let (tables, _) = register_interrupt_handler stack s1.tables 14 page_fault args in
              let p'' = switch_page_directory p'.kernel_directory p' in
              delay 2 (record s1 {
                paging = p'';
                tables = tables;
                console =
                    kprint
                      (80 ∷ 97 ∷ 103 ∷ 105 ∷ 110 ∷ 103 ∷ 32 ∷ 101 ∷ 110 ∷ 97 ∷ 98 ∷ 108 ∷ 101 ∷ 100
                        ∷ 32 ∷ 10 ∷ [])
                      s1.console;
              })
              >>= λ s2. kmalloc.kmalloc_int heap_bytes 0 s2.paging.allocator >>= λ (_, _, a).
                  create_heap memory cells kheap_start (kheap_start + kheap_initial_size) 0xCFFFF000
                    0 0
                  >>= λ heap.
                      kprintf (λ a. [])
                        (chars (
                          67 ∷ 108 ∷ 111 ∷ 110 ∷ 101 ∷ 100 ∷ 32 ∷ 100 ∷ 105 ∷ 114 ∷ 115 ∷ 46 ∷ 46
                          ∷ 46 ∷ 32 ∷ 10 ∷ []))
                        (λ n. 0) 64 s2.console
                      >>= λ console'. delay 2 (record s2 {
                        paging = record (s2.paging) { allocator = a };
                        kheap = some heap;
                        console = console';
                      })

-- What `page_fault` prints, `err_code` being the processor's error code and `cr2` the address.
unfoldable pub page_fault_report : (err_code cr2 : ℕ) → Console → Console
page_fault_report err_code cr2 s =
    let s1 =
      kprint (80 ∷ 97 ∷ 103 ∷ 101 ∷ 32 ∷ 102 ∷ 97 ∷ 117 ∷ 108 ∷ 116 ∷ 33 ∷ 32 ∷ 40 ∷ 32 ∷ []) s in
    let s2 =
      if bit_and err_code 0x1 == 0
      then kprint (112 ∷ 114 ∷ 101 ∷ 115 ∷ 101 ∷ 110 ∷ 116 ∷ 32 ∷ []) s1
      else s1 in
    let s3 =
      if bit_and err_code 0x2 == 0
      then s2
      else kprint (114 ∷ 101 ∷ 97 ∷ 100 ∷ 45 ∷ 111 ∷ 110 ∷ 108 ∷ 121 ∷ 32 ∷ []) s2 in
    let s4 =
      if bit_and err_code 0x4 == 0
      then s3
      else kprint (117 ∷ 115 ∷ 101 ∷ 114 ∷ 45 ∷ 109 ∷ 111 ∷ 100 ∷ 101 ∷ 32 ∷ []) s3 in
    let s5 =
      if bit_and err_code 0x8 == 0
      then s4
      else kprint (114 ∷ 101 ∷ 115 ∷ 101 ∷ 114 ∷ 118 ∷ 101 ∷ 100 ∷ 32 ∷ []) s4 in
    kprint (10 ∷ []) (kernel_print_hex cr2 (kprint (41 ∷ 32 ∷ 97 ∷ 116 ∷ 32 ∷ 48 ∷ 120 ∷ []) s5))
