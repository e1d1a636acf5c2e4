-- ===== src/Tasking/Tests.antt =====
-- The theorem at a stack whose one word points into itself.
use jslk.Base.{true, none, [], ◌==◌, if◌then◌else◌}
use jslk.Paging.{blank_page, blank_directory}
use jslk.Kmalloc.{Kernel}
use jslk.Tasking.{Task}

-- The old stack lies below 0x9000; the word at its top is 0x8FFE.
abbrev old : Task (Kernel Unit)
old = record {
  memory = λ j. if j == 0x8FFC then 0xFE else if j == 0x8FFD then 0x8F else 0;
  esp = 0x8FF8;
  ebp = 0x8FFC;
  paging = record {
    frame_map = record { frames = λ i. 0; nframes = 64; used_frames = 1 };
    pages = λ t i. blank_page;
    directories = λ d. blank_directory;
    kernel_directory = 0x5000;
    current_directory = 0x5000;
    copies = [];
    cr3 = 0;
    enabled = true;
    allocator = record { placement_address = 0x10000; kheap = none; pages = tt };
  };
}
