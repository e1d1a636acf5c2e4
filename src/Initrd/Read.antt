-- ===== src/Initrd/Read.antt =====
-- What `initrd_read` reads, and what its test of the end misses.
use jslk.Base.{
  false, ℕ, min, refl, inl, inr, arith, ltb, leb, ltb→lt, ltb→le, Bool-cases, ◌+◌, ◌-◌, ◌^◌, ◌≤◌,
  ◌<◌, ◌≡◌, ◌∙◌, ◌&&◌, ◌==◌, if◌then◌else◌,
}
use jslk.Base.Memory.{Memory, Apart, load32, store8, load32-store8-Apart}
use jslk.Heap.{u32}
use jslk.Strings.{memcpy}
use jslk.Strings.Blocks.{memcpy_byte}
use jslk.Initrd.{Initrd, file_ino_at, file_eof_at, header_offset_at, header_length_at, initrd_read}

-- The bytes that a read of `size` bytes from `offset` finds in a file of `len` bytes.
unfoldable pub available : (len offset size : ℕ) → ℕ
available len offset size = min size (len - offset)

-- The node is that of a file of `len` bytes at `base`, whose header lies apart from the node's
-- flag.
pub record IsFile (s : Initrd) (node base len : ℕ) : Type 0 where
  pub header :
      Apart (header_offset_at s (load32 s.memory (file_ino_at node))) 8 (file_eof_at node) 1
  pub at : load32 s.memory (header_offset_at s (load32 s.memory (file_ino_at node))) ≡ base
  pub long : load32 s.memory (header_length_at s (load32 s.memory (file_ino_at node))) ≡ len
  pub fits : base + len < 2 ^ 32

-- The memory after a read: the file's bytes in the buffer, and the flag of the end.
unfoldable pub read_memory : Memory → (node base len offset size buffer j : ℕ) → ℕ
read_memory m node base len offset size buffer j =
    if leb buffer j && ltb j (buffer + available len offset size)
    then m (base + offset + j - buffer)
    else if j == file_eof_at node
    then (if leb offset len && leb len (offset + size) then 1 else 0)
    else m j

pub ino_kept :
    (m : Memory) (node : ℕ)
    → load32 (store8 m (file_eof_at node) 0) (file_ino_at node) ≡ load32 m (file_ino_at node)
ino_kept m node = load32-store8-Apart m (file_eof_at node) 0 (file_ino_at node) (inr (omega arith))

read_memory_past :
    (m : Memory) (node base len offset size buffer j : ℕ)
    → len < offset
    → store8 m (file_eof_at node) 0 j ≡ read_memory m node base len offset size buffer j
unfolding read_memory available store8
read_memory_past m node base len offset size buffer j past = ground arith

read_count :
    (len offset size : ℕ)
    → offset + size < 2 ^ 32
    → offset ≤ len
    → (if ltb len (u32 (offset + size)) then len - offset else size) ≡ available len offset size
unfolding available
read_count len offset size small within = ground arith

read_copied :
    (m : Memory) (node base len offset size buffer j : ℕ)
    → Apart buffer (available len offset size) (base + offset) (available len offset size)
    → Apart (file_eof_at node) 1 (base + offset) (available len offset size)
    → Apart (file_eof_at node) 1 buffer (available len offset size)
    → memcpy (store8 m (file_eof_at node) 0) buffer (base + offset) (available len offset size) j
      ≡ (if leb buffer j && ltb j (buffer + available len offset size)
          then m (base + offset + j - buffer)
          else if j == file_eof_at node
          then 0
          else m j)
unfolding store8
read_copied m node base len offset size buffer j apart1 apart2 apart3 =
    let e =
      memcpy_byte (store8 m (file_eof_at node) 0) buffer (base + offset) (available len offset size)
        j apart1 in
    e ∙ ground arith

-- The last step, on any memory `m'` that the copy leaves.
read_flagged :
    (m m' : Memory) (node base len offset size buffer j : ℕ)
    → offset + size < 2 ^ 32
    → offset ≤ len
    → Apart (file_eof_at node) 1 buffer (available len offset size)
    → m' j ≡ (
        if leb buffer j && ltb j (buffer + available len offset size)
        then m (base + offset + j - buffer)
        else if j == file_eof_at node
        then 0
        else m j)
    → (if leb len (u32 (offset + available len offset size))
          then store8 m' (file_eof_at node) 1
          else m')
        j
      ≡ read_memory m node base len offset size buffer j
unfolding read_memory store8 available
read_flagged m m' node base len offset size buffer j small within apart e =
    elim (Bool-cases (leb len (u32 (offset + min size (len - offset))))) [
      | inl f ↦ rw f (ground arith)
      | inr f ↦ rw f (ground arith)
    ]

read_memory_within :
    (m : Memory) (node base len offset size buffer j : ℕ)
    → offset + size < 2 ^ 32
    → base + len < 2 ^ 32
    → offset ≤ len
    → Apart buffer (available len offset size) (base + offset) (available len offset size)
    → Apart (file_eof_at node) 1 (base + offset) (available len offset size)
    → Apart (file_eof_at node) 1 buffer (available len offset size)
    → let m' =
        memcpy
          (store8 m (file_eof_at node) 0)
          buffer
          (u32 (base + offset))
          (available len offset size) in
      (if leb len (u32 (offset + available len offset size))
          then store8 m' (file_eof_at node) 1
          else m')
        j
      ≡ read_memory m node base len offset size buffer j
unfolding read_memory
read_memory_within m node base len offset size buffer j small fits within apart1 apart2 apart3 =
    let at : u32 (base + offset) ≡ base + offset = omega arith in
    let e = read_copied m node base len offset size buffer j apart1 apart2 apart3 in
    rw at (
      read_flagged m
        (memcpy (store8 m (file_eof_at node) 0) buffer (base + offset) (available len offset size))
        node base len offset size buffer j small within apart3 e)

-- A read of `size` bytes from `offset` in a file of `len` bytes returns the smaller of `size` and
-- the bytes that the file has left, none past its end. It copies just these into the buffer, sets
-- the node's flag if the read starts within the file and reaches the end, clears it if not, and
-- changes nothing else. The file and its header lie apart from the flag, the buffer from the file
-- and the flag, and `offset + size` does not wrap.
pub initrd_read-read_memory :
    (node offset size buffer : ℕ) (s : Initrd) (base len : ℕ)
    → IsFile s node base len
    → offset + size < 2 ^ 32
    → Apart buffer (available len offset size) (base + offset) (available len offset size)
    → Apart (file_eof_at node) 1 (base + offset) (available len offset size)
    → Apart (file_eof_at node) 1 buffer (available len offset size)
    → let (n, s') = initrd_read node offset size buffer s in
      (n ≡ available len offset size)
      × ((j : ℕ) → s'.memory j ≡ read_memory s.memory node base len offset size buffer j)
unfolding initrd_read available
initrd_read-read_memory node offset size buffer s base len f small apart1 apart2 apart3 =
    let h = f.header in
    let k1 =
      load32-store8-Apart s.memory (file_eof_at node) 0
        (header_offset_at s (load32 s.memory (file_ino_at node))) (omega arith) in
    let k2 =
      load32-store8-Apart s.memory (file_eof_at node) 0
        (header_length_at s (load32 s.memory (file_ino_at node))) (omega arith) in
    elim (Bool-cases (ltb len offset)) [
      | inl past ↦
          let beyond = ltb→lt len offset past in
          let none_left : 0 ≡ available len offset size = omega arith in
          rw (ino_kept s.memory node, k1, k2, f.at, f.long, past)
            (none_left, λ j. read_memory_past s.memory node base len offset size buffer j beyond)
      | inr within ↦
          let inside = ltb→le len offset within in
          rw (ino_kept s.memory node, k1, k2, f.at, f.long, within)
            (rw (read_count len offset size small inside) (
              refl,
              λ j.
                  read_memory_within s.memory node base len offset size buffer j small f.fits inside
                    apart1 apart2 apart3,
            ))
    ]

-- A read whose `offset + size` wraps at 2^32 passes the test of the end: from any offset within the
-- file it returns `size`, though the file has fewer bytes than that left.
pub initrd_read_wraps :
    (node offset size buffer : ℕ) (s : Initrd) (base len : ℕ)
    → IsFile s node base len
    → offset ≤ len
    → size < 2 ^ 32
    → 2 ^ 32 ≤ offset + size
    → let (n, _) = initrd_read node offset size buffer s in (n ≡ size) × (len < offset + n)
unfolding initrd_read
initrd_read_wraps node offset size buffer s base len f within below wraps =
    let h = f.header in
    let k1 =
      load32-store8-Apart s.memory (file_eof_at node) 0
        (header_offset_at s (load32 s.memory (file_ino_at node))) (omega arith) in
    let k2 =
      load32-store8-Apart s.memory (file_eof_at node) 0
        (header_length_at s (load32 s.memory (file_ino_at node))) (omega arith) in
    let inside : ltb len offset ≡ false = ground arith in
    let fits = f.fits in
    let passes : ltb len (u32 (offset + size)) ≡ false = ground arith in
    rw (ino_kept s.memory node, k1, k2, f.at, f.long, inside, passes) (refl, omega arith)
