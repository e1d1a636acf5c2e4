-- ===== src/Paging/Regions.antt =====
-- hal/x86/memory/paging.c, at start-up: the memory map of the boot loader and the first bitmap.
use jslk.Base.{
  ℕ, zero, suc, bit_and, not, List, [], ltb, leb, write, get_or, ◌+◌, ◌-◌, ◌*◌, ◌/◌, ◌%◌, ◌^◌, ◌∷◌,
  ◌==◌, if◌then◌else◌,
}
use jslk.Base.Outcome.{Outcome, done, no_fuel, ◌>>=◌, ◌>>◌, assert}
use jslk.Console.{Console, kprint}
use jslk.Console.Numbers.{kernel_print_dec, kernel_print_hex}
use jslk.Console.Format.{kprintf}
use jslk.Frames.{FrameMap, set_frame}
use jslk.Heap.{u32}
use jslk.Paging.{Allocator}

-- The fields that the kernel reads of `multiboot_info_t` and of `memory_map_t`.
pub record MultibootInfo : Type 0 where
  pub flags : ℕ
  pub mem_lower : ℕ
  pub mem_upper : ℕ
  pub mmap_length : ℕ
  pub mmap_addr : ℕ

pub record MemoryMap : Type 0 where
  pub size : ℕ
  pub base_addr_low : ℕ
  pub length_low : ℕ
  pub kind : ℕ

-- What the start-up changes. `mmap` is the memory map by address, `allocator` the state of
-- `kmalloc`.
pub record Boot (A : Type 0) : Type 0 where
  pub frame_map : FrameMap
  pub mem_end_page : ℕ
  pub mmap : ℕ → MemoryMap
  pub console : Console
  pub allocator : A

-- The loop of `deinit_region`: the frame number goes up by the size of a page.
unfoldable pub deinit_from : (rounds address size : ℕ) → FrameMap → Outcome FrameMap
deinit_from zero address size m = if ltb address size then no_fuel else done m
deinit_from (suc n) address size m =
    let m' = set_frame m address in
    let rest =
      deinit_from n (u32 (address + 0x1000)) size
        (record m' { nframes = u32 (m'.nframes + 2 ^ 32 - 1) }) in
    if ltb address size then rest else done m

unfoldable pub deinit_region : (rounds addr size : ℕ) → FrameMap → Outcome FrameMap
deinit_region rounds addr size m = deinit_from rounds (addr / 0x1000) size m

-- `for (uint64_t i = aligned_start; i < aligned_end; i += 0x1000) set_frame(i);`
unfoldable pub reserve_from : (rounds i aligned_end : ℕ) → FrameMap → Outcome FrameMap
reserve_from zero i aligned_end m = if ltb i aligned_end then no_fuel else done m
reserve_from (suc n) i aligned_end m =
    let rest = reserve_from n (i + 0x1000) aligned_end (set_frame m (u32 i)) in
    if ltb i aligned_end then rest else done m

-- The sums of a base and a length are of 32 bits; the mask clears the low 12 of 64 bits.
abbrev pub page_part : ℕ → ℕ
page_part x = bit_and x 0xFFFFFFFFFFFFF000

unfoldable pub reserve_region : MemoryMap → FrameMap → Outcome FrameMap
reserve_region region m =
    let aligned_start = page_part (u32 (region.base_addr_low + 0xFFF)) in
    let aligned_end = page_part (u32 (region.base_addr_low + region.length_low)) in
    if ltb aligned_start 0xFFFFFFFF
    then reserve_from (2 ^ 20) aligned_start
        (if ltb 0x100000000 aligned_end then 0x100000000 else aligned_end) m
    else done m

abbrev pub mem_types : ℕ → List ℕ
mem_types kind =
    if kind == 0
    then 48 ∷ []
    else if kind == 1
    then 65 ∷ 118 ∷ 97 ∷ 105 ∷ 108 ∷ 97 ∷ 98 ∷ 108 ∷ 101 ∷ []
    else if kind == 2
    then 82 ∷ 101 ∷ 115 ∷ 101 ∷ 114 ∷ 118 ∷ 101 ∷ 100 ∷ []
    else if kind == 3
    then 65 ∷ 67 ∷ 80 ∷ 73 ∷ 32 ∷ 82 ∷ 101 ∷ 99 ∷ 108 ∷ 97 ∷ 105 ∷ 109 ∷ []
    else 65 ∷ 67 ∷ 80 ∷ 73 ∷ 32 ∷ 78 ∷ 86 ∷ 83 ∷ 32 ∷ 77 ∷ 101 ∷ 109 ∷ 111 ∷ 114 ∷ 121 ∷ []

-- A constant string as a format in memory.
abbrev pub chars : List ℕ → ℕ → ℕ
chars text i = get_or text i 0

-- One region: `reg_num` is its number. A type above 4 is written back as 2.
unfoldable pub init_region : {A : Type 0} (address reg_num : ℕ) → Boot A → Outcome (Boot A)
init_region address reg_num b =
    let kind : ℕ = if ltb 4 (b.mmap address).kind then 2 else (b.mmap address).kind in
    let region : MemoryMap = record (b.mmap address) { kind = kind } in
    let printed = kprint (10 ∷ []) (
      kernel_print_hex region.base_addr_low (
        kprint (83 ∷ 101 ∷ 99 ∷ 116 ∷ 105 ∷ 111 ∷ 110 ∷ 32 ∷ 98 ∷ 97 ∷ 115 ∷ 101 ∷ 58 ∷ 32 ∷ []) (
          kprint (46 ∷ 32 ∷ 10 ∷ []) (
            kprint (mem_types kind) (
              kprint (32 ∷ 111 ∷ 102 ∷ 32 ∷ 116 ∷ 121 ∷ 112 ∷ 101 ∷ 32 ∷ []) (
                kernel_print_dec reg_num (
                  kprint
                    (70 ∷ 111 ∷ 117 ∷ 110 ∷ 100 ∷ 32 ∷ 115 ∷ 101 ∷ 99 ∷ 116 ∷ 105 ∷ 111 ∷ 110 ∷ 32
                      ∷ [])
                    b.console))))))) in
    let b' : Boot _ = record b { mmap = write b.mmap address region; console = printed } in
    let reserved : Outcome (Boot _) = reserve_region region b.frame_map >>= λ m.
    kprintf (λ a. [])
      (chars (
        68 ∷ 101 ∷ 105 ∷ 110 ∷ 105 ∷ 116 ∷ 105 ∷ 97 ∷ 108 ∷ 105 ∷ 122 ∷ 101 ∷ 100 ∷ 32 ∷ 114 ∷ 101
        ∷ 103 ∷ 105 ∷ 111 ∷ 110 ∷ 32 ∷ 37 ∷ 105 ∷ 10 ∷ []))
      (λ n. reg_num) 40 printed
    >>= λ console. done (record b' { frame_map = m; console = console }) in
    if kind == 2 then reserved else done b'

unfoldable pub init_regions_from :
    {A : Type 0} (rounds address reg_num last : ℕ) → Boot A → Outcome (Boot A)
init_regions_from zero address reg_num last b = if ltb address last then no_fuel else done b
init_regions_from (suc n) address reg_num last b =
    let rest = init_region address reg_num b >>= λ b'.
    init_regions_from n (u32 (address + (b'.mmap address).size + 4)) ((reg_num + 1) % 2 ^ 8) last
      b' in
    if ltb address last then rest else done b

unfoldable pub init_regions : {A : Type 0} (rounds : ℕ) → MultibootInfo → Boot A → Outcome (Boot A)
init_regions rounds info b =
    assert (not (bit_and info.flags 0x40 == 0))
    >> init_regions_from rounds info.mmap_addr 0 (u32 (info.mmap_addr + info.mmap_length)) b

-- `memset(frames, 0, n)`, for the words that the bytes make.
unfoldable pub clear_bytes : (n : ℕ) → (ℕ → ℕ) → ℕ → ℕ
clear_bytes n frames i =
    if leb (4 * i + 4) n
    then 0
    else if leb n (4 * i)
    then frames i
    else frames i / 256 ^ (n - 4 * i) * 256 ^ (n - 4 * i)

-- The bitmap before the regions are looked at. `fresh` is what the memory held.
unfoldable pub start_bitmap : (fresh : ℕ → ℕ) → (mem_size : ℕ) → FrameMap
start_bitmap fresh mem_size = record {
  frames = clear_bytes (mem_size / 0x1000 / 32) fresh;
  nframes = mem_size / 0x1000;
  used_frames = 1;
}

unfoldable pub start_pmm :
    {A : Type 0} (kmalloc : Allocator A) (fresh : ℕ → ℕ → ℕ) (rounds : ℕ)
    → MultibootInfo
    → Boot A
    → Outcome (Boot A)
start_pmm kmalloc fresh rounds info b =
    let mem_size = u32 (info.mem_lower + info.mem_upper) in
    kprintf (λ a. [])
      (chars (
        83 ∷ 116 ∷ 97 ∷ 114 ∷ 116 ∷ 101 ∷ 100 ∷ 32 ∷ 80 ∷ 77 ∷ 77 ∷ 32 ∷ 119 ∷ 105 ∷ 116 ∷ 104 ∷ 32
        ∷ 37 ∷ 105 ∷ 32 ∷ 107 ∷ 98 ∷ 32 ∷ 111 ∷ 102 ∷ 32 ∷ 112 ∷ 104 ∷ 121 ∷ 115 ∷ 105 ∷ 99 ∷ 97
        ∷ 108 ∷ 32 ∷ 109 ∷ 101 ∷ 109 ∷ 111 ∷ 114 ∷ 121 ∷ 32 ∷ 10 ∷ []))
      (λ n. mem_size / 1024) 64 b.console
    >>= λ console. kmalloc.kmalloc_int (mem_size / 0x1000 / 32) 0 b.allocator >>= λ (frames, _, a).
        init_regions rounds info (record b {
          frame_map = start_bitmap (fresh frames) mem_size;
          mem_end_page = mem_size;
          console = console;
          allocator = a;
        })
        >>= λ b'.
            kprintf (λ a. [])
              (chars (
                65 ∷ 118 ∷ 97 ∷ 105 ∷ 108 ∷ 97 ∷ 98 ∷ 108 ∷ 101 ∷ 32 ∷ 102 ∷ 114 ∷ 97 ∷ 109 ∷ 101
                ∷ 115 ∷ 58 ∷ 32 ∷ 37 ∷ 105 ∷ 32 ∷ 10 ∷ []))
              (λ n. b'.frame_map.nframes) 64 b'.console
            >>= λ console'. done (record b' { console = console' })
