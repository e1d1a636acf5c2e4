-- ===== src/Kernel/Show.antt =====
-- `open` of a file of the ramdisk shows its contents in pages of 256 characters.
use jslk.Base.{
  ℕ, zero, suc, min, refl, ap, Bool, true, false, arith, ltb, leb, ne→==, ◌+◌, ◌-◌, ◌*◌, ◌^◌, ◌<◌,
  ◌≡◌, ◌∙◌, ◌≢◌, ◌&&◌, if◌then◌else◌,
}
use jslk.Base.Memory.{Memory, Apart, load32, load32_same}
use jslk.Base.Outcome.{Outcome, done, panic, no_fuel, ◌>>=◌}
use jslk.OrderedArray.View.{items}
use jslk.Console.{Console, kputc, kprint}
use jslk.Initrd.{
  Initrd, initrd_read, file_ino_at, file_eof_at, file_volume_at, volume_read_at, header_offset_at,
  header_length_at,
}
use jslk.Initrd.Read.{available, IsFile, read_memory, initrd_read-read_memory}
use jslk.Keyboard.{Keyboard}
use jslk.Kernel.{Arrivals, print, enter_text, put_chars, wait_enter}

-- The pages that are left from `off` on, each with the text below it and the wait for the key.
unfoldable pub show_pages :
    (rounds inbuf : ℕ) (bytes : ℕ → ℕ) (len n off : ℕ)
    → Arrivals
    → Keyboard
    → Outcome (Arrivals × Keyboard)
show_pages rounds inbuf bytes len zero off arrivals k = done (arrivals, k)
show_pages rounds inbuf bytes len (suc n) off arrivals k =
    let page = items bytes off (min 256 (len - off)) in
    wait_enter rounds inbuf arrivals (print enter_text (print page k)) >>= λ (arrivals', k').
    show_pages rounds inbuf bytes len n (off + min 256 (len - off)) arrivals' k'

-- Where the parts of an open file lie: its node, the buffer, its volume, its header, its contents.
pub record IsLaidOut (header node buf volume base len : ℕ) : Type 0 where
  pub node_volume : Apart node 156 volume 40
  pub node_header : Apart node 156 header 76
  pub node_contents : Apart node 156 base len
  pub buf_node : Apart buf 256 node 156
  pub buf_volume : Apart buf 256 volume 40
  pub buf_header : Apart buf 256 header 76
  pub buf_contents : Apart buf 256 base len
  pub fits : base + len < 2 ^ 32
  pub short : len + 256 < 2 ^ 32

-- The node is that of file `i` of the ramdisk, its volume reads by the function at `read`, and its
-- contents are the first `len` of `bytes`.
pub record IsOpen (s : Initrd) (node i volume read base len : ℕ) (bytes : ℕ → ℕ) : Type 0 where
  pub ino : load32 s.memory (file_ino_at node) ≡ i
  pub node_volume : load32 s.memory (file_volume_at node) ≡ volume
  pub reads : load32 s.memory (volume_read_at volume) ≡ read
  pub offset : load32 s.memory (header_offset_at s i) ≡ base
  pub size : load32 s.memory (header_length_at s i) ≡ len
  pub contents : (k : ℕ) → k < len → s.memory (base + k) ≡ bytes k

pub put_chars-kprint :
    (m : Memory) (buf n j : ℕ) (s : Console)
    → put_chars m buf n j s ≡ kprint (items m (buf + j) n) s
unfolding put_chars kprint items
put_chars-kprint m buf zero j s = refl
put_chars-kprint m buf (suc n) j s =
    put_chars-kprint m buf n (j + 1) (kputc (m (buf + j)) s)
    ∙ ap (λ a. kprint (items m a n) (kputc (m (buf + j)) s)) (omega arith)

pub bind-bind :
    {A B C : Type 0} (m : Outcome A) (g : A → Outcome B) (f : B → Outcome C) (h : A → Outcome C)
    → ((a : A) → (g a >>= f) ≡ h a)
    → (m >>= g >>= f) ≡ (m >>= h)
bind-bind (done a) g f h e = e a
bind-bind panic g f h e = refl
bind-bind no_fuel g f h e = refl

if_headers :
    (b : Bool) (x y : ℕ × Initrd) (h : ℕ)
    → x.1.file_headers ≡ h
    → y.1.file_headers ≡ h
    → (if b then x else y).1.file_headers ≡ h
if_headers true x y h e e' = e
if_headers false x y h e e' = e'

initrd_read_headers :
    (node offset size buffer : ℕ) (s : Initrd)
    → (initrd_read node offset size buffer s).1.file_headers ≡ s.file_headers
unfolding initrd_read
initrd_read_headers node offset size buffer s = if_headers _ _ _ s.file_headers refl refl

read_memory_outside :
    (m : Memory) (node base len off buf j : ℕ)
    → Apart buf 256 j 1
    → j ≢ file_eof_at node
    → read_memory m node base len off 256 buf j ≡ m j
unfolding read_memory available
read_memory_outside m node base len off buf j apart ne =
    let outside : (leb buf j && ltb j (buf + min 256 (len - off))) ≡ false = ground arith in
    rw (outside, ne→== _ _ ne) refl

read_memory_page :
    (m : Memory) (node base len off buf k : ℕ)
    → k < min 256 (len - off)
    → read_memory m node base len off 256 buf (buf + k) ≡ m (base + (off + k))
unfolding read_memory available
read_memory_page m node base len off buf k lt =
    let inside : (leb buf (buf + k) && ltb (buf + k) (buf + min 256 (len - off))) ≡ true =
      ground arith in
    let at : base + off + (buf + k) - buf ≡ base + (off + k) = omega arith in rw (inside, at) refl

-- An open file stays one when memory changes only in the buffer and the node's flag.
IsOpen-kept :
    (s s' : Initrd) (node i volume read base len buf : ℕ) (bytes : ℕ → ℕ)
    → IsLaidOut (s.file_headers + 76 * i) node buf volume base len
    → s'.file_headers ≡ s.file_headers
    → ((j : ℕ) → Apart buf 256 j 1 → j ≢ file_eof_at node → s'.memory j ≡ s.memory j)
    → IsOpen s node i volume read base len bytes
    → IsOpen s' node i volume read base len bytes
IsOpen-kept s s' node i volume read base len buf bytes l same_h same v =
    let a1 = l.node_volume in
    let a2 = l.node_header in
    let a3 = l.node_contents in
    let b1 = l.buf_node in
    let b2 = l.buf_volume in
    let b3 = l.buf_header in
    let b4 = l.buf_contents in
    let m = s.memory in
    let m' = s'.memory in
    record {
      ino = load32_same m m' _ (λ j p q. same j (omega arith) (omega arith)) ∙ v.ino;
      node_volume =
          load32_same m m' _ (λ j p q. same j (omega arith) (omega arith)) ∙ v.node_volume;
      reads = load32_same m m' _ (λ j p q. same j (omega arith) (omega arith)) ∙ v.reads;
      offset =
          ap (λ h. load32 m' (h + 76 * i + 68)) same_h
          ∙ load32_same m m' (s.file_headers + 76 * i + 68)
              (λ j p q. same j (omega arith) (omega arith))
          ∙ v.offset;
      size =
          ap (λ h. load32 m' (h + 76 * i + 72)) same_h
          ∙ load32_same m m' (s.file_headers + 76 * i + 72)
              (λ j p q. same j (omega arith) (omega arith))
          ∙ v.size;
      contents = λ k lt. same (base + k) (omega arith) (omega arith) ∙ v.contents k lt;
    }

-- A read of the next page of an open file.
pub record HasRead (s s' : Initrd) (n node i volume read base len buf off : ℕ) (bytes : ℕ → ℕ)
    : Type 0 where
  pub is_open : IsOpen s' node i volume read base len bytes
  pub same_headers : s'.file_headers ≡ s.file_headers
  pub count : n ≡ min 256 (len - off)
  pub page : (k : ℕ) → k < min 256 (len - off) → s'.memory (buf + k) ≡ bytes (off + k)

pub initrd_read-HasRead :
    (s : Initrd) (node i volume read base len buf off : ℕ) (bytes : ℕ → ℕ)
    → IsLaidOut (s.file_headers + 76 * i) node buf volume base len
    → IsOpen s node i volume read base len bytes
    → off < len
    → let (n, s') = initrd_read node off 256 buf s in
      HasRead s s' n node i volume read base len buf off bytes
unfolding available
initrd_read-HasRead s node i volume read base len buf off bytes l v lt =
    let a2 = l.node_header in
    let a3 = l.node_contents in
    let b1 = l.buf_node in
    let b4 = l.buf_contents in
    let short = l.short in
    let s' = (initrd_read node off 256 buf s).1 in
    let file : IsFile s node base len = record {
      header = rw v.ino (omega arith);
      at = rw v.ino v.offset;
      long = rw v.ino v.size;
      fits = l.fits;
    } in
    let (count, bytes') =
      initrd_read-read_memory node off 256 buf s base len file (omega arith) (omega arith)
        (omega arith) (omega arith) in
    let same_h = initrd_read_headers node off 256 buf s in
    record {
      is_open =
          IsOpen-kept s s' node i volume read base len buf bytes l same_h
            (λ j apart ne. bytes' j ∙ read_memory_outside s.memory node base len off buf j apart ne)
            v;
      same_headers = same_h;
      count = count;
      page = λ k less.
          bytes' (buf + k)
          ∙ read_memory_page s.memory node base len off buf k less
          ∙ v.contents (off + k) (omega arith);
    }
