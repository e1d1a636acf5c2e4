-- ===== src/Kernel/Tests.antt =====
-- `open` at a ramdisk of one file, with the bytes ABC.
use jslk.Base.{
  ℕ, refl, inl, inr, false, [], arith, ltb, leb, ◌+◌, ◌-◌, ◌≡◌, ◌≢◌, ◌&&◌, ◌||◌, ◌∷◌, ◌==◌,
  if◌then◌else◌,
}
use jslk.Base.Memory.{Memory, load32}
use jslk.Base.Outcome.{Outcome, done, ◌>>=◌}
use jslk.Console.{Console}
use jslk.Initrd.{Initrd, initrd_read, file_volume_at, volume_read_at}
use jslk.Initrd.Vfs.{finddir_fs}
use jslk.Kernel.{Kernel, open_loop, open_file}
use jslk.Kernel.Show.{show_pages, IsLaidOut, IsOpen}
use jslk.Kernel.Open.{on_screen, with_new_line, open_file-show_pages}
use jslk.Kernel.Stuck.{open_loop_stuck}

-- The root is at 100, the node at 500, the header at 1000, the volume at 2000, the file at 3000.
abbrev disk_memory : Memory
disk_memory j =
    if leb 3000 j && ltb j 3003
    then j - 2935
    else if (j == 240) || (j == 640)
    then 0xD0
    else if (j == 241) || (j == 641)
    then 7
    else if j == 232
    then 2
    else if (j == 628) || (j == 1072)
    then 3
    else if j == 1068
    then 0xB8
    else if j == 1069
    then 0x0B
    else if j == 2016
    then 7
    else if j == 2036
    then 9
    else 0

abbrev empty_console : Console
empty_console = record {
  cursorx = 0;
  cursory = 0;
  console_color = 7;
  clear_calls = 0;
  terminal_buffer = λ j. 0;
  ports = [];
}

abbrev kernel_with : Memory → Kernel
kernel_with m = record {
  initrd = record {
    memory = m;
    file_headers = 1000;
    initrd_root = 100;
    initrd_dev = 0;
    root_nodes = 500;
    nroot_nodes = 1;
    dirent = 0;
    dev_text = 0;
    initrd_text = 0;
  };
  keyboard = record { shift = false; scancode = 0; console = empty_console; memory = λ j. 0 };
  log_offset = 0;
}

abbrev abc_kernel : Kernel
abc_kernel = kernel_with disk_memory

abbrev finds : (f node argument : ℕ) → Initrd → Outcome (ℕ × Initrd)
finds f node argument s = done (500, s)

abbrev reads : (f node offset size buffer : ℕ) → Initrd → ℕ × Initrd
reads f node offset size buffer s = initrd_read node offset size buffer s

abc_found : finddir_fs finds 100 40 abc_kernel.initrd ≡ done (500, abc_kernel.initrd)
unfolding finddir_fs load32
abc_found = refl

abc_length : load32 disk_memory 628 ≡ 3
unfolding load32
abc_length = refl

abc_kernel-IsLaidOut : IsLaidOut 1000 500 5000 2000 3000 3
abc_kernel-IsLaidOut = record {
  node_volume = inl (omega arith);
  node_header = inl (omega arith);
  node_contents = inl (omega arith);
  buf_node = inr (omega arith);
  buf_volume = inr (omega arith);
  buf_header = inr (omega arith);
  buf_contents = inr (omega arith);
  fits = omega arith;
  short = omega arith;
}

abc_kernel-IsOpen : IsOpen abc_kernel.initrd 500 0 2000 7 3000 3 (λ k. disk_memory (3000 + k))
unfolding load32
abc_kernel-IsOpen = record {
  ino = refl;
  node_volume = refl;
  reads = refl;
  offset = refl;
  size = refl;
  contents = λ k lt. refl;
}

-- The key is pressed once.
open_file-show_pages_example :
    (open_file 8 6000 reads finds (λ a. []) (λ j. 0) 4 100 40 5000 ((28 ∷ []) ∷ []) abc_kernel
      >>= on_screen)
    ≡ (show_pages 8 6000 (λ k. disk_memory (3000 + k)) 3 1 0 ((28 ∷ []) ∷ []) abc_kernel.keyboard
        >>= with_new_line)
open_file-show_pages_example =
    open_file-show_pages 8 6000 reads finds (λ a. []) (λ j. 0) 4 100 40 5000 500 0 2000 7 3000 3 1
      (λ k. disk_memory (3000 + k)) ((28 ∷ []) ∷ []) abc_kernel abc_kernel.initrd abc_found
      (omega arith) abc_length abc_kernel-IsLaidOut abc_kernel-IsOpen (omega arith)
      (λ node offset size buffer s. refl) (omega arith, omega arith) (omega arith)

no_reader : load32 (λ j. 0) (volume_read_at (load32 (λ j. 0) (file_volume_at 500))) ≡ 0
unfolding load32
no_reader = refl

open_loop_stuck_example :
    open_loop 8 6000 reads finds 4 500 5000 3 0 ((28 ∷ []) ∷ []) (kernel_with (λ j. 0))
    ≢ done ([], abc_kernel)
open_loop_stuck_example =
    open_loop_stuck 8 6000 reads finds 500 5000 3 4 0 ((28 ∷ []) ∷ []) (kernel_with (λ j. 0))
      ([], abc_kernel) no_reader (omega arith) (omega arith)
