-- ===== src/Lib.antt =====
-- JSLK, a kernel for x86: its memory management, interrupts, descriptor tables, console, keyboard and
-- initial ramdisk.
--
-- The heap (kernel/heap.c) hands out blocks of memory. It keeps its holes in an ordered array
-- (kernel/orderedArray.c) and asks the paging code (hal/x86/memory/paging.c) for frames when it grows.
-- The paging code takes the memory for page tables from kmalloc (hal/x86/memory/kheap.c), and learns
-- which frames are reserved from the boot loader's memory map. Interrupts reach the handlers that
-- drivers have registered (hal/x86/interrupts/isr.c) through the descriptor tables
-- (hal/x86/tables/descriptor_tables.c). The keyboard driver is such a handler
-- (hal/x86/drivers/keyboard.c): it writes to the console (hal/x86/io/vga.c) and to the input buffer,
-- with the string functions of lib/jstdclib/string.c. The virtual file system (kernel/vfs.c) calls the
-- functions of a volume, of which the ramdisk (kernel/initrd.c) is the one that there is.
--
-- Base: natural numbers as machine words (with `% 2 ^ w` written out), C arrays as functions of the
--   index, memory as bytes by address, and the outcome of a call that may panic.
-- OrderedArray: createOrderedArray, placeOrderedArray, insertOrderedArray, lookupOrderedArray,
--   removeOrderedArray. The predicate is a function, absent when it is a null pointer.
-- Frames: the bitmap of frames, first_frame, alloc_frame and free_frame. The value that first_frame
--   returns without a return statement is an argument of alloc_frame.
-- Paging: page tables and directories, each in a store by address, with get_page, clone_table,
--   clone_directory and switch_page_directory; kmalloc is the interface Allocator. Paging/Regions:
--   initRegions, deinit_region and start_pmm; Paging/Start: initialise_paging, with the delays as a
--   parameter, and the report of page_fault. What kmalloc itself asks of the paging code while
--   the paging code runs is part of the interface's state.
-- Interrupts: registerInterruptHandler with its flags, clearInterrupt, clearChainedInterrupt,
--   findFreeInterrupt, addDescription, chainedIsrHandler, irq_handler, and isr_handler with the
--   report that it prints, as the build defines KERNEL_DEBUG. Handlers are numbers, and what
--   they do to the machine is a parameter. Uninitialised local variables are arguments.
-- Heap: createHeap, alloc, free, expand, contract and find_smallest_hole over a memory of bytes. What
--   the paging code does is an interface of two operations on a state of its own, which `Paging.pager`
--   fills. Heap/Tiles: the heap as a row of blocks and holes. The index is an array of its own. In
--   the program its 0x20000 cells lie right below the heap's start, so that an insertion into a full
--   index would write over the first header, which the model leaves out.
-- Kmalloc: kmalloc_int, its four callers and kfree (hal/x86/memory/kheap.c). The frame that get_page
--   finds for an address is a parameter. `Paging.Directory.early` is kmalloc before there is a heap, as
--   an Allocator.
-- DescriptorTables: init_gdt, gdt_set_gate, init_idt, idt_set_gate and genInterrupt. The addresses of
--   the handlers in assembly are a parameter; ports are a list of what was written to them.
-- Console: the cells of the screen, the cursor, and the functions that print. Console/Format: kprintf,
--   cprintf and startConsole; a format and its arguments are functions of the position.
-- Keyboard: the two layouts and the handler of the keyboard's interrupt.
-- Strings: strlen, memset, memcpy, append, strcat, strcmp, strcpy and itoa over memory.
-- Rtc: getRtcTime (hal/x86/drivers/rtc/rtc.c), with the registers of the clock as a function of the
--   number of the read.
-- Timers: register_timer, checkTimers (kernel/timer.c), pitHandler and start_pit
--   (hal/x86/drivers/pit.c); what floating point decides is a parameter.
-- Tasking: move_stack (hal/x86/tasking/process.c).
-- Pmm: the bitmap of blocks of the older code (hal/x86/memory/legacy/pmm.c).
-- Initrd: initrd_read, initrd_write, initrd_readdir, initrd_finddir and initialise_initrd, with the
--   structures of include/vfs.h and include/initrd.h at their offsets in memory. Initrd/Vfs: the six
--   functions of kernel/vfs.c. What the function at an address does is a parameter.
-- MakeInitrd: the program that writes the ramdisk's image (initrd/make_initrd.c). The files of the
--   host are a function of the path, and what the stack and fresh memory hold are arguments.
-- Kernel: open, vfsLog and PRINT_PRETTY_TEXT (kernel/jslk.c), over the ramdisk, the console and the
--   keyboard. The scan codes that arrive before each call of read_key are a list.
--
-- Loops with a counter are structural recursion on the rounds left. The loops of expand and contract
-- run on 2^20 rounds, the pages of the address space, as each round moves by a page; so does the loop
-- over a reserved region. alloc takes the rounds as an argument, as it starts again after each
-- expansion; one round serves a request for which the index has a hole. Loops over C strings and
-- formats take the rounds as an argument; one more than the length of the text or of the format is
-- enough. itoa has 32 rounds, more than a word has digits. deinit_region, initRegions, the mapping of
-- the kernel, getRtcTime, checkTimers, move_stack and open take the rounds as an argument. The wait for
-- the key takes as many looks at it as there are arrivals.
-- registerInterruptHandler reads six arguments at most.
--
-- Not modelled: the older copies of the heap and of the paging code, the allocation of several blocks
-- in the older memory manager, which shifts by negative numbers, the busy wait of delay, the ELF
-- loader, which does not compile, and the start-up code with kernel_main.
-- Inline assembly appears as the change of state it makes.
pub mod Base
pub mod OrderedArray
pub mod Frames
pub mod Interrupts
pub mod Heap
pub mod DescriptorTables
pub mod Strings
pub mod Console
pub mod Keyboard
pub mod Kmalloc
pub mod Paging
pub mod Initrd
pub mod Rtc
pub mod Pmm
pub mod Timers
pub mod Tasking
pub mod MakeInitrd
pub mod Kernel
