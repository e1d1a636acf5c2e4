-- ===== src/Paging/Tests.antt =====
-- The theorems at a directory with one table, and `kmalloc` before there is a heap.
use jslk.Base.{
  ℕ, zero, suc, refl, true, false, none, some, [], arith, ltb, ◌+◌, ◌%◌, ◌≤◌, ◌<◌, ◌≡◌, ◌≢◌, ◌&&◌,
  ◌==◌, if◌then◌else◌,
}
use jslk.Base.Bits.{bit}
use jslk.Base.Outcome.{done, Returns}
use jslk.Frames.{first_frame, first_in_words, first_clear}
use jslk.Frames.Bitmap.{used}
use jslk.Frames.Alloc.{mapped}
use jslk.Kmalloc.{Kernel, kmalloc_int}
use jslk.Paging.{
  PageDirectory, PagePtr, Paging, blank_page, get_page, map_page, clone_table, clone_directory,
}
use jslk.Paging.Directory.{early, EarlyRoom, early-IsAllocator, IsDirectory, get_page_make}
use jslk.Paging.Start.{identity_map}
use jslk.Paging.Identity.{identity_map-identity}
use jslk.Paging.Map.{map_page_lem}
use jslk.Paging.Taken.{IsReady, IsCopy}
use jslk.Paging.Clone.{clone_table-IsCopy}
use jslk.Paging.Share.{clone_directory_kernel}
use jslk.Paging.Regions.{deinit_region}
use jslk.Paging.Reserve.{deinit_region-Returns}

abbrev kernel_table : PageDirectory
kernel_table = record {
  tables = λ i. if i == 0 then 0x8000 else 0;
  tables_physical = λ i. if i == 0 then 0x8007 else 0;
  physical_addr = 0x6000;
}

-- The page at index 3 of the table has the frame 9. The first 32 frames are used.
abbrev sample : Paging (Kernel Unit)
sample = record {
  frame_map = record {
    frames = λ i. if i == 0 then 0xFFFFFFFF else 0;
    nframes = 64;
    used_frames = 1;
  };
  pages = λ t i. if i == 3 then record blank_page { present = 1; frame = 9 } else blank_page;
  directories = λ d. kernel_table;
  kernel_directory = 0x5000;
  current_directory = 0;
  copies = [];
  cr3 = 0;
  enabled = false;
  allocator = record { placement_address = 0x10000; kheap = none; pages = tt };
}

sample_room : (sz : ℕ) → sz < 0x10000 → EarlyRoom sz sample.allocator
sample_room sz lt = (refl, omega arith, omega arith)

sample-IsDirectory : IsDirectory kernel_table 0x10000
sample-IsDirectory = record { below = λ i ne. ground arith; apart = λ i j ne same. ground arith }

sample-IsReady : IsReady 7 sample.frame_map
sample-IsReady = record {
  left = λ e. absurd (omega arith);
  small = omega arith;
  defined = λ e. absurd (omega arith);
}

sample_first : first_frame sample.frame_map ≡ some 32
unfolding first_frame first_in_words first_clear
sample_first = refl

get_page_make_example :
    (p : PagePtr) × (s' : Paging (Kernel Unit)) × (get_page early 7 0x403000 1 0x5000 sample
      ≡ done (p, s'))
    × (p.index ≡ 3)
    × (p.table ≢ 0)
    × (get_page early 7 0x404000 0 0x5000 s' ≡ done (record { table = p.table; index = 4 }, s'))
    × IsDirectory (s'.directories 0x5000) s'.allocator.placement_address
    × (s'.pages ≡ sample.pages)
    × (s'.frame_map ≡ sample.frame_map)
get_page_make_example =
    get_page_make early 7 (λ k. k.placement_address) EarlyRoom early-IsAllocator 0x403000 0x5000
      0x404000 0 sample (sample_room 0x1000 (omega arith)) sample-IsDirectory

map_page_lem_example :
    (s' : Paging (Kernel Unit)) × (map_page early 7 0x5000 false true sample ≡ done s')
    × (get_page early 7 0x5000 0 s'.kernel_directory s'
        ≡ done (record { table = 0x8000; index = 5 }, s'))
    × ((t i : ℕ)
        → s'.pages t i ≡ (
            if (t == 0x8000) && (i == 5)
            then mapped blank_page 32 false true
            else sample.pages t i))
    × (used sample.frame_map 32 ≡ 0)
    × ((n : ℕ) → used s'.frame_map n ≡ (if n == 32 then 1 else used sample.frame_map n))
map_page_lem_example =
    map_page_lem early 7 0x5000 0x8000 32 false true sample refl (λ e. absurd (omega arith)) refl
      (λ e. absurd (omega arith)) (omega arith) sample_first

clone_table-IsCopy_example :
    Returns
      (λ (t, phys, s').
        (t ≢ 0)
        × (0x10000 ≤ t)
        × IsCopy sample.frame_map s'.frame_map s'.copies (sample.pages 0x8000 3) (s'.pages t 3)
        × (s'.pages 0x8000 3 ≡ sample.pages 0x8000 3)
        × (s'.directories ≡ sample.directories)
        × (s'.pages (t + 0x1000) 3 ≡ blank_page))
      (clone_table early 7 0x8000 sample)
clone_table-IsCopy_example =
    clone_table-IsCopy early 7 (λ k. k.placement_address) EarlyRoom early-IsAllocator 0x8000 3
      sample sample-IsReady (sample_room 0x1000 (omega arith)) (omega arith) (omega arith)

clone_directory_kernel_example :
    Returns
      (λ (dir, s').
        (dir ≢ 0x5000)
        × ((s'.directories dir).tables 0 ≡ 0x8000)
        × ((s'.directories dir).tables_physical 0 ≡ 0x8007)
        × (s'.pages ≡ sample.pages)
        × (s'.frame_map ≡ sample.frame_map))
      (clone_directory early 7 0x5000 sample)
clone_directory_kernel_example =
    clone_directory_kernel early 7 (λ k. k.placement_address) EarlyRoom early-IsAllocator sample 0
      (sample_room 0x2004 (omega arith)) (omega arith) (omega arith)

deinit_region-Returns_example :
    Returns (λ m'. m'.nframes ≡ 61) (deinit_region 8 0x1000 0x3000 sample.frame_map)
deinit_region-Returns_example =
    deinit_region-Returns 8 0x1000 0x3000 sample.frame_map (omega arith) (omega arith) (omega arith)

-- The kernel's directory at the start of the identity mapping: it is blank but for the table of the
-- kernel's heap. No frame is used, and no page has one.
abbrev heap_directory : PageDirectory
heap_directory = record {
  tables = λ i. if i == 768 then 0x8000 else 0;
  tables_physical = λ i. if i == 768 then 0x8007 else 0;
  physical_addr = 0x6000;
}

abbrev start : Paging (Kernel Unit)
start = record sample {
  frame_map = record { frames = λ i. 0; nframes = 64; used_frames = 1 };
  pages = λ t i. blank_page;
  directories = λ d. heap_directory;
}

zero_bit : (j : ℕ) → bit 0 j ≡ 0
unfolding bit
zero_bit zero = refl
zero_bit (suc j) = zero_bit j

start-used : (j : ℕ) → used start.frame_map j ≡ 0
unfolding used
start-used j = zero_bit (j % 32)

start_make :
    early.kmalloc_int 0x1000 1 start.allocator
    ≡ done (0x11000, 0x11000, record (start.allocator) { placement_address = 0x12000 })
unfolding kmalloc_int
start_make = refl

identity_map-identity_example :
    Returns
      (λ s'.
        ((s'.directories s'.kernel_directory).tables 0 ≡ 0x11000)
        × ((t i : ℕ)
            → s'.pages t i ≡ (
                if (t == 0x11000) && ltb i 19 then mapped blank_page i false false else blank_page))
        × ((j : ℕ) → used s'.frame_map j ≡ (if ltb j 19 then 1 else used start.frame_map j)))
      (identity_map early 7 (λ k. k.placement_address) 20 0 start)
identity_map-identity_example =
    identity_map-identity early 7 (λ k. k.placement_address) 19 20 0x11000 0x11000
      (record (start.allocator) { placement_address = 0x12000 }) start refl start_make (omega arith)
      (omega arith) (omega arith) (omega arith) (omega arith) (omega arith) (omega arith)
      (omega arith) (omega arith) (λ i lt. refl) (λ j lt. start-used j)
