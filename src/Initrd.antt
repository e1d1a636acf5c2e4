-- ===== src/Initrd.antt =====
-- kernel/initrd.c and kernel/vfs.c: the initial ramdisk, and the calls of the virtual file system.
pub mod Vfs
pub mod Read
pub mod Write
pub mod Find
pub mod Entries
mod Tests
use jslk.Base.{
  ℕ, zero, suc, min, max, bit_and, bit_or, refl, sym, ap, fun_ext, inl, inr, Bool, true, false, not,
  Option, none, some, List, [], map, arith, ltb, leb, ltb→lt, ltb→le, lt→ltb, le→ltb, ==→eq, ==→ne,
  eq→==, ne→==, Bool-cases, tests, write, write_self, write_ne, length, get_or, length-append, ◌+◌,
  ◌-◌, ◌*◌, ◌/◌, ◌%◌, ◌^◌, ◌≤◌, ◌<◌, ◌≡◌, ◌∙◌, ◌≢◌, ◌↔◌, ◌⊎◌, ◌&&◌, ◌||◌, ◌∷◌, ◌++◌, ◌==◌,
  if◌then◌else◌,
}
use jslk.Base.Memory.{Memory, load32, store8, store32}
use jslk.Base.Outcome.{Outcome, done, no_fuel, ◌>>=◌}
use jslk.Heap.{u32, sub32}
use jslk.Strings.{strlen, strcpy, strcmp, memcpy}
use jslk.Paging.{Allocator}

abbrev pub fs_file : ℕ
fs_file = 0x01

abbrev pub fs_directory : ℕ
fs_directory = 0x02

-- The fields of a `FILE` at an address; `sizeof(FILE)` is 156, and the name takes the first 128
-- bytes.
abbrev pub file_bytes : ℕ
file_bytes = 156

abbrev pub file_length_at : ℕ → ℕ
file_length_at file = file + 128

abbrev pub file_type_at : ℕ → ℕ
file_type_at file = file + 132

abbrev pub file_ino_at : ℕ → ℕ
file_ino_at file = file + 136

abbrev pub file_volume_at : ℕ → ℕ
file_volume_at file = file + 140

abbrev pub file_eof_at : ℕ → ℕ
file_eof_at file = file + 148

-- The functions of a `VOLUME` at an address, behind a name of 15 bytes; its size is 40.
abbrev pub volume_read_at : ℕ → ℕ
volume_read_at volume = volume + 16

abbrev pub volume_write_at : ℕ → ℕ
volume_write_at volume = volume + 20

abbrev pub volume_open_at : ℕ → ℕ
volume_open_at volume = volume + 24

abbrev pub volume_close_at : ℕ → ℕ
volume_close_at volume = volume + 28

abbrev pub volume_readdir_at : ℕ → ℕ
volume_readdir_at volume = volume + 32

abbrev pub volume_finddir_at : ℕ → ℕ
volume_finddir_at volume = volume + 36

-- The variables of the ramdisk, as addresses, and the memory that they lie in. `dev_text` and
-- `initrd_text` are the addresses of the strings "dev" and "initrd".
pub record Initrd : Type 0 where
  pub memory : Memory
  pub file_headers : ℕ
  pub initrd_root : ℕ
  pub initrd_dev : ℕ
  pub root_nodes : ℕ
  pub nroot_nodes : ℕ
  pub dirent : ℕ
  pub dev_text : ℕ
  pub initrd_text : ℕ

-- The header of the file `i`: a byte, a name of 64 bytes, three bytes of padding, and two words.
abbrev pub header_name_at : Initrd → ℕ → ℕ
header_name_at s i = s.file_headers + 76 * i + 1

abbrev pub header_offset_at : Initrd → ℕ → ℕ
header_offset_at s i = s.file_headers + 76 * i + 68

abbrev pub header_length_at : Initrd → ℕ → ℕ
header_length_at s i = s.file_headers + 76 * i + 72

unfoldable pub initrd_read : (node offset size buffer : ℕ) → Initrd → ℕ × Initrd
initrd_read node offset size buffer s =
    let m = store8 s.memory (file_eof_at node) 0 in
    let ino = load32 m (file_ino_at node) in
    let header_offset = load32 m (header_offset_at s ino) in
    let header_length = load32 m (header_length_at s ino) in
    let size' : ℕ =
      if ltb header_length (u32 (offset + size)) then header_length - offset else size in
    let m' = memcpy m buffer (u32 (header_offset + offset)) size' in
    let m'' =
      if leb header_length (u32 (offset + size')) then store8 m' (file_eof_at node) 1 else m' in
    if ltb header_length offset
    then (0, record s { memory = m })
    else (size', record s { memory = m'' })

-- `header` is a copy of the file's header, so that the length that is written to it is lost.
unfoldable pub initrd_write : (node offset size buffer : ℕ) → Initrd → ℕ × Initrd
initrd_write node offset size buffer s =
    let m = store8 s.memory (file_eof_at node) 0 in
    let ino = load32 m (file_ino_at node) in
    let header_offset = load32 m (header_offset_at s ino) in
    let header_length = load32 m (header_length_at s ino) in
    let m' = memcpy m (u32 (header_offset + offset)) buffer size in
    let m'' =
      if leb header_length (u32 (offset + size)) then store8 m' (file_eof_at node) 1 else m' in
    (size, record s { memory = m'' })

-- The value is the address of the directory entry, or 0.
unfoldable pub initrd_readdir : (rounds node index : ℕ) → Initrd → Outcome (ℕ × Initrd)
initrd_readdir rounds node index s =
    let entry = s.root_nodes + file_bytes * sub32 index 1 in
    let dev : Outcome (ℕ × Initrd) = strcpy rounds s.memory s.dirent s.dev_text >>= λ m.
    done (s.dirent, record s { memory = store32 (store8 m (s.dirent + 3) 0) (s.dirent + 128) 0 }) in
    let file : Outcome (ℕ × Initrd) = (do
      m ← strcpy rounds s.memory s.dirent entry
      len ← strlen rounds m entry
      let m' = store8 m (s.dirent + len) 0
      done (
        s.dirent,
        record s { memory = store32 m' (s.dirent + 128) (load32 m' (file_ino_at entry)) },
      )) in
    if (node == s.initrd_root) && (index == 0)
    then dev
    else if leb s.nroot_nodes (sub32 index 1)
    then done (0, s)
    else file

-- `!strcmp(s1, s2)`
unfoldable pub same_text : (rounds : ℕ) → Memory → (s1 s2 : ℕ) → Outcome Bool
same_text rounds m s1 s2 = strcmp rounds 0 m s1 s2 >>= λ (a, b). done (a == b)

-- The search of the nodes, with `n` of them left.
unfoldable pub find_node : (rounds n i name : ℕ) → Initrd → Outcome ℕ
find_node rounds zero i name s = done 0
find_node rounds (suc n) i name s =
    same_text rounds s.memory name (s.root_nodes + file_bytes * i) >>= λ found.
    let rest = find_node rounds n (i + 1) name s in
    if found then done (s.root_nodes + file_bytes * i) else rest

unfoldable pub initrd_finddir : (rounds node name : ℕ) → Initrd → Outcome ℕ
initrd_finddir rounds node name s =
    let nodes = find_node rounds s.nroot_nodes 0 name s in
    let dev = same_text rounds s.memory name s.dev_text >>= λ found.
    if found then done s.initrd_dev else nodes in
    if node == s.initrd_root then dev else nodes

-- The nodes that `initialise_initrd` makes, with `n` files left. The count in the ramdisk's first
-- word is read before the loop, which writes to the headers behind that word and to the nodes.
unfoldable pub make_nodes : (rounds n i location volume : ℕ) → Initrd → Outcome Initrd
make_nodes rounds zero i location volume s = done s
make_nodes rounds (suc n) i location volume s =
    let node = s.root_nodes + file_bytes * i in
    let m =
      store32 s.memory (header_offset_at s i)
        (u32 (load32 s.memory (header_offset_at s i) + location)) in
    strcpy rounds m node (header_name_at s i) >>= λ m1.
    let m2 = store32 m1 (file_length_at node) (load32 m1 (header_length_at s i)) in
    let m3 = store8 (store32 m2 (file_ino_at node) i) (file_type_at node) fs_file in
    make_nodes rounds n (i + 1) location volume
      (record s { memory = store32 m3 (file_volume_at node) volume })

-- A directory node with the name `text`.
unfoldable pub make_directory : (rounds file text volume : ℕ) → Memory → Outcome Memory
make_directory rounds file text volume m = strcpy rounds m file text >>= λ m'.
    done (store32 (store8 m' (file_type_at file) fs_directory) (file_volume_at file) volume)

-- `read`, `write`, `readdir` and `finddir` are the addresses of the four functions. `open` and
-- `close` of the volume are not set. The value is the address of the root directory.
unfoldable pub initialise_initrd :
    {A : Type 0} (kmalloc : Allocator A) (read write readdir finddir : ℕ) (rounds location : ℕ)
    → Initrd
    → A
    → Outcome (ℕ × Initrd × A)
initialise_initrd kmalloc read write readdir finddir rounds location s a = do
  (initrd, _, a1) ← kmalloc.kmalloc_int 40 0 a
  m1 ← strcpy rounds s.memory initrd s.initrd_text
  let m2 = store32 (store32 m1 (volume_read_at initrd) read) (volume_write_at initrd) write
  let m3 =
      store32 (store32 m2 (volume_readdir_at initrd) readdir) (volume_finddir_at initrd) finddir
  (root, _, a2) ← kmalloc.kmalloc_int file_bytes 0 a1
  m4 ← make_directory rounds root s.initrd_text initrd m3
  (dev, _, a3) ← kmalloc.kmalloc_int file_bytes 0 a2
  m5 ← make_directory rounds dev s.dev_text initrd m4
  let nfiles = load32 m5 location
  (nodes, _, a4) ← kmalloc.kmalloc_int (u32 (file_bytes * nfiles)) 0 a3
  s' ← make_nodes rounds nfiles 0 location initrd (record s {
    memory = m5;
    file_headers = location + 4;
    initrd_root = root;
    initrd_dev = dev;
    root_nodes = nodes;
    nroot_nodes = nfiles;
  })
  done (root, s', a4)
