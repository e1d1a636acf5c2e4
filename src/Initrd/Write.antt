-- ===== src/Initrd/Write.antt =====
-- What `initrd_write` stores, and what a read finds of it.
use jslk.Base.{
  ℕ, min, refl, inl, inr, true, arith, ltb, leb, Bool-cases, ◌+◌, ◌-◌, ◌^◌, ◌≤◌, ◌<◌, ◌≡◌, ◌∙◌,
  ◌&&◌, ◌==◌, if◌then◌else◌,
}
use jslk.Base.Memory.{load32_same, Memory, Apart, load32, store8, load32-store8-Apart}
use jslk.Heap.{u32}
use jslk.Strings.{memcpy}
use jslk.Strings.Blocks.{memcpy_byte}
use jslk.Initrd.{
  Initrd, file_ino_at, file_eof_at, header_offset_at, header_length_at, initrd_read, initrd_write,
}
use jslk.Initrd.Read.{available, IsFile, ino_kept, read_memory, initrd_read-read_memory}

-- The memory after a write: the buffer's bytes at the file's, and the flag of the end.
unfoldable pub write_memory : Memory → (node base len offset size buffer j : ℕ) → ℕ
write_memory m node base len offset size buffer j =
    if leb (base + offset) j && ltb j (base + offset + size)
    then m (buffer + j - (base + offset))
    else if j == file_eof_at node
    then (if leb len (offset + size) then 1 else 0)
    else m j

write_flagged :
    (m : Memory) (node base len offset size buffer j : ℕ)
    → offset + size < 2 ^ 32
    → Apart (base + offset) size buffer size
    → Apart (file_eof_at node) 1 (base + offset) size
    → Apart (file_eof_at node) 1 buffer size
    → let m' = memcpy (store8 m (file_eof_at node) 0) (base + offset) buffer size in
      (if leb len (u32 (offset + size)) then store8 m' (file_eof_at node) 1 else m') j
      ≡ write_memory m node base len offset size buffer j
unfolding write_memory store8
write_flagged m node base len offset size buffer j small apart1 apart2 apart3 =
    let e = memcpy_byte (store8 m (file_eof_at node) 0) (base + offset) buffer size j apart1 in
    elim (Bool-cases (leb len (u32 (offset + size)))) [
      | inl f ↦ rw f (ground (arith, e))
      | inr f ↦ rw f (ground (arith, e))
    ]

-- A write of `size` bytes to a file of `len` bytes returns `size` and copies all of them, also
-- those past the file's end, if the file's address range, the buffer and the node's flag lie apart
-- and no sum wraps.
pub initrd_write-write_memory :
    (node offset size buffer : ℕ) (s : Initrd) (base len : ℕ)
    → IsFile s node base len
    → offset + size < 2 ^ 32
    → base + offset < 2 ^ 32
    → Apart (base + offset) size buffer size
    → Apart (file_eof_at node) 1 (base + offset) size
    → Apart (file_eof_at node) 1 buffer size
    → let (n, s') = initrd_write node offset size buffer s in
      (n ≡ size)
      × ((j : ℕ) → s'.memory j ≡ write_memory s.memory node base len offset size buffer j)
unfolding initrd_write
initrd_write-write_memory node offset size buffer s base len f small low apart1 apart2 apart3 =
    let h = f.header in
    let k1 =
      load32-store8-Apart s.memory (file_eof_at node) 0
        (header_offset_at s (load32 s.memory (file_ino_at node))) (omega arith) in
    let k2 =
      load32-store8-Apart s.memory (file_eof_at node) 0
        (header_length_at s (load32 s.memory (file_ino_at node))) (omega arith) in
    let at : u32 (base + offset) ≡ base + offset = omega arith in
    rw (ino_kept s.memory node, k1, k2, f.at, f.long, at)
      (
        refl,
        λ j. write_flagged s.memory node base len offset size buffer j small apart1 apart2 apart3,
      )

write_keeps :
    (m m' : Memory) (node base len offset size buffer a : ℕ)
    → ((j : ℕ) → m' j ≡ write_memory m node base len offset size buffer j)
    → Apart (base + offset) size a 4
    → Apart (file_eof_at node) 1 a 4
    → load32 m' a ≡ load32 m a
unfolding write_memory
write_keeps m m' node base len offset size buffer a e apart1 apart2 =
    load32_same m m' a λ j lo hi. e j ∙ ground arith

write_headers :
    (node offset size buffer : ℕ) (s : Initrd)
    → (initrd_write node offset size buffer s).1.file_headers ≡ s.file_headers
unfolding initrd_write
write_headers node offset size buffer s = refl

-- A change of the memory that keeps a node's number and its file's header keeps the file.
IsFile-kept :
    (s s' : Initrd) (node base len : ℕ)
    → s'.file_headers ≡ s.file_headers
    → load32 s'.memory (file_ino_at node) ≡ load32 s.memory (file_ino_at node)
    → load32 s'.memory (header_offset_at s (load32 s.memory (file_ino_at node))) ≡ base
    → load32 s'.memory (header_length_at s (load32 s.memory (file_ino_at node))) ≡ len
    → IsFile s node base len
    → IsFile s' node base len
IsFile-kept s s' node base len headers ino at long f = record {
  header = rw (ino, headers) f.header;
  at = rw (ino, headers) at;
  long = rw (ino, headers) long;
  fits = f.fits;
}

written_byte :
    (m m' : Memory) (node base len offset size buffer target k : ℕ)
    → ((j : ℕ) → m' j ≡ write_memory m node base len offset size buffer j)
    → k < available len offset size
    → read_memory m' node base len offset size target (target + k) ≡ m (buffer + k)
unfolding write_memory read_memory available
written_byte m m' node base len offset size buffer target k e lt =
    let before : base + offset + (target + k) - target ≡ base + offset + k = omega arith in
    let inside : (leb target (target + k) && ltb (target + k) (target + min size (len - offset)))
        ≡ true =
      ground arith in
    let inside' : (leb (base + offset) (base + offset + k)
          && ltb (base + offset + k) (base + offset + size))
        ≡ true =
      ground arith in
    let after : buffer + (base + offset + k) - (base + offset) ≡ buffer + k = omega arith in
    rw (inside, before) (e (base + offset + k) ∙ rw (inside', after) refl)

least : (len offset size : ℕ) → available len offset size ≤ size
unfolding available
least len offset size = omega arith

-- After a write of `size` bytes a read of as many from the same place returns no more than the
-- length that the file had: the file never grows. The bytes that it does return are those written.
-- The file's range, the two buffers, the node's flag and number, and the file's header lie apart,
-- and no sum wraps.
pub initrd_write_then_read :
    (node offset size buffer target : ℕ) (s : Initrd) (base len : ℕ)
    → IsFile s node base len
    → offset + size < 2 ^ 32
    → base + offset < 2 ^ 32
    → Apart (base + offset) size buffer size
    → Apart (base + offset) size target size
    → Apart (file_eof_at node) 1 (base + offset) size
    → Apart (file_eof_at node) 1 buffer size
    → Apart (file_eof_at node) 1 target size
    → Apart (base + offset) size (file_ino_at node) 4
    → Apart (base + offset) size (header_offset_at s (load32 s.memory (file_ino_at node))) 8
    → let (_, s1) = initrd_write node offset size buffer s in
      let (n, s2) = initrd_read node offset size target s1 in
      (n ≡ available len offset size)
      × ((k : ℕ) → k < available len offset size → s2.memory (target + k) ≡ s.memory (buffer + k))
initrd_write_then_read node offset size buffer target s base len f small low ab at eo eb et ino
      head =
    let (w, e) =
      initrd_write-write_memory node offset size buffer s base len f small low ab eo eb in
    let node_at = load32 s.memory (file_ino_at node) in
    let kept : (a : ℕ)
        → Apart (base + offset) size a 4
        → Apart (file_eof_at node) 1 a 4
        → load32 (initrd_write node offset size buffer s).1.memory a ≡ load32 s.memory a =
      λ a.
        write_keeps s.memory (initrd_write node offset size buffer s).1.memory node base len offset
          size buffer a e in
    let h = f.header in
    let f1 =
      IsFile-kept s (initrd_write node offset size buffer s).1 node base len
        (write_headers node offset size buffer s) (kept (file_ino_at node) ino (omega arith))
        (kept (header_offset_at s node_at) (omega arith) (omega arith) ∙ f.at)
        (kept (header_length_at s node_at) (omega arith) (omega arith) ∙ f.long) f in
    let least : available len offset size ≤ size = least len offset size in
    let (n, e') =
      initrd_read-read_memory node offset size target (initrd_write node offset size buffer s).1
        base len f1 small (omega arith) (omega arith) (omega arith) in
    (
      n,
      λ k lt.
          e' (target + k) ∙ written_byte s.memory _ node base len offset size buffer target k e lt,
    )
