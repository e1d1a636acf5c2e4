-- ===== src/MakeInitrd/RoundTrip.antt =====
-- What is read from a ramdisk is what make_initrd.c put into its image.
use jslk.Base.{
  ℕ, suc, refl, ap, true, Option, some, List, [], arith, ltb, leb, length, get_or, length-append,
  ◌+◌, ◌-◌, ◌*◌, ◌^◌, ◌≤◌, ◌<◌, ◌≡◌, ◌∙◌, ◌⊎◌, ◌&&◌, ◌∷◌, ◌++◌,
}
use jslk.Base.Memory.{Memory, Apart, load32}
use jslk.Base.Outcome.{done}
use jslk.Initrd.{Initrd, make_nodes, initrd_read}
use jslk.Initrd.Read.{available, IsFile, read_memory, initrd_read-read_memory}
use jslk.MakeInitrd.{make_initrd}
use jslk.MakeInitrd.Headers.{Source, arguments, AreSources, total_bytes}
use jslk.MakeInitrd.Image.{HaveBytes, IsLoaded, make_initrd-IsRamdisk}
use jslk.MakeInitrd.Nodes.{IsNodeOf}
use jslk.MakeInitrd.Boot.{HaveNames, HaveNodes, make_nodes-HaveNodes}

HaveNodes-at :
    (m : Memory) (a node i base volume : ℕ) (ls rs : List Source) (f : Source)
    → HaveNodes m a node i base volume (ls ++ f ∷ rs)
    → IsNodeOf m
        (a + 76 * length ls)
        (node + 156 * length ls)
        (i + length ls)
        (base + total_bytes ls)
        volume
        f
unfolding total_bytes
HaveNodes-at m a node i base volume [] rs f h =
    let e1 : a + 76 * 0 ≡ a = omega arith in
    let e2 : node + 156 * 0 ≡ node = omega arith in
    let e3 : i + 0 ≡ i = omega arith in
    let e4 : base + 0 ≡ base = omega arith in rw (e1, e2, e3, e4) h.0
HaveNodes-at m a node i base volume (l ∷ ls) rs f h =
    let rest =
      HaveNodes-at m (a + 76) (node + 156) (i + 1) (base + length l.bytes) volume ls rs f h.1 in
    let e1 : a + 76 + 76 * length ls ≡ a + 76 * suc (length ls) = omega arith in
    let e2 : node + 156 + 156 * length ls ≡ node + 156 * suc (length ls) = omega arith in
    let e3 : i + 1 + length ls ≡ i + suc (length ls) = omega arith in
    let e4 : base + length l.bytes + total_bytes ls ≡ base + (length l.bytes + total_bytes ls) =
      omega arith in
    rw (e1, e2, e3, e4) at rest

HaveBytes-at :
    (m : Memory) (a k : ℕ) (ls rs : List Source) (f : Source)
    → HaveBytes m a (ls ++ f ∷ rs)
    → k < length f.bytes
    → m (a + total_bytes ls + k) ≡ get_or f.bytes k 0
unfolding total_bytes
HaveBytes-at m a k [] rs f h lt = ap m (omega arith) ∙ h.0 k lt
HaveBytes-at m a k (l ∷ ls) rs f h lt =
    ap m (omega arith) ∙ HaveBytes-at m (a + length l.bytes) k ls rs f h.1 lt

total_bytes-append :
    (ls rs : List Source) → total_bytes (ls ++ rs) ≡ total_bytes ls + total_bytes rs
unfolding total_bytes
total_bytes-append [] rs = omega arith
total_bytes-append (l ∷ ls) rs = omega (arith, total_bytes-append ls rs)

-- A node of a ramdisk is that of a file.
IsNodeOf-IsFile :
    (s : Initrd) (node i base volume : ℕ) (f : Source)
    → IsNodeOf s.memory (s.file_headers + 76 * i) node i base volume f
    → Apart (s.file_headers + 76 * i) 76 node 156
    → base + length f.bytes < 2 ^ 32
    → IsFile s node base (length f.bytes)
IsNodeOf-IsFile s node i base volume f v apart low = record {
  header = rw v.ino (omega arith);
  at = rw v.ino v.offset;
  long = rw v.ino v.size;
  fits = low;
}

-- The bytes that a read leaves in its buffer.
read_memory-buffer :
    (m : Memory) (node base len offset size buffer k : ℕ)
    → k < available len offset size
    → read_memory m node base len offset size buffer (buffer + k) ≡ m (base + (offset + k))
unfolding read_memory
read_memory-buffer m node base len offset size buffer k lt =
    let inside : (leb buffer (buffer + k) && ltb (buffer + k) (buffer + available len offset size))
        ≡ true =
      ground arith in
    let at : base + offset + (buffer + k) - buffer ≡ base + (offset + k) = omega arith in
    rw (inside, at) refl

available_within :
    (len offset size : ℕ)
    → (available len offset size ≤ size)
      × ((k : ℕ) → k < available len offset size → offset + k < len)
      × ((available len offset size ≡ 0) ⊎ (offset + available len offset size ≤ len))
unfolding available
available_within len offset size = (omega arith, (λ k lt. omega arith), omega arith)

-- A read from the node of a file whose contents stand in memory.
read_node :
    (s : Initrd) (node i base volume offset size buffer : ℕ) (f : Source)
    → IsNodeOf s.memory (s.file_headers + 76 * i) node i base volume f
    → ((k : ℕ) → k < length f.bytes → s.memory (base + k) ≡ get_or f.bytes k 0)
    → Apart (s.file_headers + 76 * i) 76 node 156
    → base + length f.bytes < 2 ^ 32
    → offset + size < 2 ^ 32
    → Apart buffer size base (length f.bytes)
    → Apart node 156 base (length f.bytes)
    → Apart node 156 buffer size
    → let (n, s') = initrd_read node offset size buffer s in
      (n ≡ available (length f.bytes) offset size)
      × ((k : ℕ) → k < n → s'.memory (buffer + k) ≡ get_or f.bytes (offset + k) 0)
read_node s node i base volume offset size buffer f v contents apart low small apart1 apart2
      apart3 =
    let len = length f.bytes in
    let (shorter, within, ends) = available_within len offset size in
    let (count, bytes) =
      initrd_read-read_memory node offset size buffer s base len
        (IsNodeOf-IsFile s node i base volume f v apart low) small (omega arith) (omega arith)
        (omega arith) in
    (
      count,
      (λ k lt.
          let less : k < available len offset size = rw count at lt in
          bytes (buffer + k)
          ∙ read_memory-buffer s.memory node base len offset size buffer k less
          ∙ contents (offset + k) (within k less)),
    )

module _ (fopen : List ℕ → Option (List ℕ)) (fresh stack : Memory) (ls rs : List Source)
    (f : Source) (rounds location volume offset size buffer : ℕ) (s : Initrd) where
  abbrev all : List Source
  all = ls ++ f ∷ rs

  -- An image that make_initrd.c makes of at most 64 files, which are found and have names of 1 to 63
  -- characters, is loaded at `location`, where it ends below 2^32. The loop of `initialise_initrd`
  -- then returns, and a read of `size` bytes from `offset` in the node of any of the files returns
  -- the smaller of `size` and what the file has left, and leaves these bytes of the file in the
  -- buffer. The nodes, the image and the buffer lie apart, and `offset + size` does not wrap.
  pub make_initrd_then_read :
      AreSources fopen all
      → HaveNames rounds all
      → length all ≤ 64
      → location + 4868 + total_bytes all < 2 ^ 32
      → volume < 2 ^ 32
      → ((image : List ℕ)
          → make_initrd fopen fresh stack (arguments all) ≡ some image
          → IsLoaded s.memory location image)
      → s.file_headers ≡ location + 4
      → Apart s.root_nodes (156 * length all) location (4868 + total_bytes all)
      → Apart buffer size location (4868 + total_bytes all)
      → Apart buffer size s.root_nodes (156 * length all)
      → offset + size < 2 ^ 32
      → (s' : Initrd) × (make_nodes rounds (load32 s.memory location) 0 location volume s ≡ done s')
        × (let (n, s'') = initrd_read (s.root_nodes + 156 * length ls) offset size buffer s' in
            (n ≡ available (length f.bytes) offset size)
            × ((k : ℕ) → k < n → s''.memory (buffer + k) ≡ get_or f.bytes (offset + k) 0))
  unfolding total_bytes
  make_initrd_then_read sources names few low low_v loaded at apart apart_b apart_n small =
      let total_all = total_bytes-append ls (f ∷ rs) in
      let long = length-append ls (f ∷ rs) in
      let (image, run, _, disk) =
        make_initrd-IsRamdisk fopen fresh stack all sources few (omega arith) in
      let ramdisk = disk s.memory location (loaded image run) in
      let a : s.file_headers + 76 * 0 ≡ location + 4 = omega arith in
      let r : s.root_nodes + 156 * 0 ≡ s.root_nodes = omega arith in
      let (m', made, nodes, same) =
        make_nodes-HaveNodes all rounds 0 location volume 4868 s names (rw a ramdisk.headers)
          (rw (a, r) (omega arith)) (omega arith) (omega arith) low_v in
      let base = 4868 + location + total_bytes ls in
      let s' : Initrd = record s { memory = m' } in
      let e1 : s.file_headers + 76 * 0 + 76 * length ls ≡ s.file_headers + 76 * length ls =
        omega arith in
      let e2 : s.root_nodes + 156 * 0 + 156 * length ls ≡ s.root_nodes + 156 * length ls =
        omega arith in
      let e3 : 0 + length ls ≡ length ls = omega arith in
      let node : IsNodeOf m' (s.file_headers + 76 * length ls) (s.root_nodes + 156 * length ls)
          (length ls) base volume f =
        rw (e1, e2, e3) at
          (HaveNodes-at m' (s.file_headers + 76 * 0) (s.root_nodes + 156 * 0) 0 (4868 + location)
            volume ls rs f nodes) in
      (
        s',
        ap (λ c. make_nodes rounds c 0 location volume s) ramdisk.count ∙ made,
        read_node s' (s.root_nodes + 156 * length ls) (length ls) base volume offset size buffer f
            node
            (λ k lt.
              same (base + k) (omega arith) (omega arith)
              ∙ ap s.memory (omega arith)
              ∙ HaveBytes-at s.memory (location + 4868) k ls rs f ramdisk.contents lt)
            (omega arith) (omega arith) small (omega arith) (omega arith) (omega arith),
      )
