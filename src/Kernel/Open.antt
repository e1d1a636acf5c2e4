-- ===== src/Kernel/Open.antt =====
-- `open` against the pages of a file.
use jslk.Base.{
  ℕ, zero, suc, min, refl, ap, true, false, List, [], arith, ltb, lt→ltb, le→ltb, ne→==, ◌+◌, ◌-◌,
  ◌*◌, ◌≤◌, ◌<◌, ◌≡◌, ◌∙◌, ◌≢◌, ◌∷◌,
}
use jslk.Base.Memory.{load32, Memory}
use jslk.Base.Outcome.{no_fuel, panic, Outcome, done, ◌>>=◌}
use jslk.OrderedArray.View.{items}
use jslk.Console.{kprint, u32}
use jslk.Initrd.{file_length_at, Initrd, initrd_read}
use jslk.Initrd.Vfs.{finddir_fs, read_fs}
use jslk.Kernel.{
  open_file, Keyboard, Kernel, Arrivals, print, enter_text, put_chars, wait_enter, open_loop,
}
use jslk.Kernel.Show.{
  put_chars-kprint, bind-bind, initrd_read-HasRead, IsLaidOut, show_pages, IsOpen,
}

-- The number of pages of a file of which `rest` bytes are left is `n`.
abbrev pub IsPages : (rest n : ℕ) → Type 0
IsPages rest n = (rest ≤ 256 * n) × (256 * n < rest + 256)

-- The characters of the buffer, and those of the page, are the same text.
items-page :
    (m : Memory) (buf off n : ℕ) (bytes : ℕ → ℕ)
    → ((k : ℕ) → k < n → m (buf + k) ≡ bytes (off + k))
    → items m buf n ≡ items bytes off n
unfolding items
items-page m buf off zero bytes same = refl
items-page m buf off (suc n) bytes same =
    let at : buf + 0 ≡ buf = omega arith in
    let at' : off + 0 ≡ off = omega arith in
    let first : m buf ≡ bytes off = rw (at, at') at (same 0 (omega arith)) in
    rw first (
      ap (λ t. bytes off ∷ t)
        (items-page m (buf + 1) (off + 1) n bytes λ k lt.
          let e : buf + (k + 1) ≡ buf + 1 + k = omega arith in
          let e' : off + (k + 1) ≡ off + 1 + k = omega arith in
          rw (e, e') at (same (k + 1) (omega arith))))

-- The result without the file system, and with a new line on the screen.
abbrev pub on_screen : Arrivals × Kernel → Outcome (Arrivals × Keyboard)
on_screen (arrivals, s) = done (arrivals, s.keyboard)

abbrev pub with_new_line : Arrivals × Keyboard → Outcome (Arrivals × Keyboard)
with_new_line (arrivals, k) = done (arrivals, print (10 ∷ []) k)

module _ (rounds inbuf : ℕ) (reader : (f node offset size buffer : ℕ) → Initrd → ℕ × Initrd)
    (finder : (f node argument : ℕ) → Initrd → Outcome (ℕ × Initrd))
    (node i volume read base len buf : ℕ) (bytes : ℕ → ℕ) where
  open_loop_end :
      (n off : ℕ) (arrivals : Arrivals) (s : Kernel)
      → len ≤ off
      → open_loop rounds inbuf reader finder (suc n) node buf len off arrivals s
        ≡ done (arrivals, s)
  unfolding open_loop
  open_loop_end n off arrivals s h =
      let e : ltb off len ≡ false = le→ltb off len h in rw (open_loop, e) refl

  open_loop_step :
      (n off sz : ℕ) (arrivals : Arrivals) (s : Kernel) (s1 : Initrd)
      → off < len
      → read_fs reader node off 256 buf s.initrd ≡ (sz, s1)
      → open_loop rounds inbuf reader finder (suc n) node buf len off arrivals s ≡ (
          wait_enter rounds inbuf arrivals (
            print enter_text
              (record (s.keyboard) { console = put_chars s1.memory buf sz 0 s.keyboard.console }))
          >>= λ (arrivals', k').
              open_loop rounds inbuf reader finder n node buf len
                (u32 (off + sz))
                arrivals'
                (record s { initrd = s1; keyboard = k' }))
  unfolding open_loop
  open_loop_step n off sz arrivals s s1 h run =
      let e : ltb off len ≡ true = lt→ltb off len h in rw (open_loop, e) (rw run refl)

  read_fs-initrd_read :
      (off : ℕ) (s : Initrd)
      → IsOpen s node i volume read base len bytes
      → read ≢ 0
      → ((node offset size buffer : ℕ) (s : Initrd)
          → reader read node offset size buffer s ≡ initrd_read node offset size buffer s)
      → read_fs reader node off 256 buf s ≡ initrd_read node off 256 buf s
  unfolding read_fs
  read_fs-initrd_read off s v ne is_read =
      rw (v.node_volume) (rw (v.reads) (rw (ne→== _ _ ne) (is_read node off 256 buf s)))

  module _ (ne : read ≢ 0)
      (is_read : (node offset size buffer : ℕ) (s : Initrd)
        → reader read node offset size buffer s ≡ initrd_read node offset size buffer s) where
    open_loop-show_pages :
        (n fuel off : ℕ) (arrivals : Arrivals) (s : Kernel)
        → IsLaidOut (s.initrd.file_headers + 76 * i) node buf volume base len
        → IsOpen s.initrd node i volume read base len bytes
        → off ≤ len
        → IsPages (len - off) n
        → n < fuel
        → (open_loop rounds inbuf reader finder fuel node buf len off arrivals s >>= on_screen)
          ≡ show_pages rounds inbuf bytes len n off arrivals s.keyboard
    unfolding show_pages
    open_loop-show_pages n zero off arrivals s l v le pages lt = absurd (omega arith)
    open_loop-show_pages zero (suc fuel) off arrivals s l v le pages lt =
        ap (λ o. o >>= on_screen) (open_loop_end fuel off arrivals s (omega arith))
    open_loop-show_pages (suc n) (suc fuel) off arrivals s l v le pages lt =
        let s1 = (initrd_read node off 256 buf s.initrd).1 in
        let sz = (initrd_read node off 256 buf s.initrd).0 in
        let size = min 256 (len - off) in
        let less : off < len = omega arith in
        let read_page =
          initrd_read-HasRead s.initrd node i volume read base len buf off bytes l v less in
        let short = l.short in
        let count = read_page.count in
        let next : u32 (off + sz) ≡ off + size = omega arith in
        let l' : IsLaidOut (s1.file_headers + 76 * i) node buf volume base len =
          rw read_page.same_headers l in
        let shown : put_chars s1.memory buf sz 0 s.keyboard.console
            ≡ kprint (items bytes off size) s.keyboard.console =
          put_chars-kprint s1.memory buf sz 0 s.keyboard.console
          ∙ ap (λ a. kprint (items s1.memory a sz) s.keyboard.console) (omega arith)
          ∙ ap (λ c. kprint (items s1.memory buf c) s.keyboard.console) count
          ∙ ap (λ t. kprint t s.keyboard.console)
              (items-page s1.memory buf off size bytes read_page.page) in
        let rest = λ (p : Arrivals × Keyboard).
          open_loop rounds inbuf reader finder fuel node buf len (u32 (off + sz)) p.0
            (record s { initrd = s1; keyboard = p.1 }) in
        ap (λ o. o >>= on_screen)
          (open_loop_step fuel off sz arrivals s s1 less
            (read_fs-initrd_read off s.initrd v ne is_read))
        ∙ bind-bind
            (wait_enter rounds inbuf arrivals (
              print enter_text (record (s.keyboard) {
                console = put_chars s1.memory buf sz 0 s.keyboard.console;
              })))
            rest on_screen (λ p. show_pages rounds inbuf bytes len n (off + size) p.0 p.1)
            (λ p.
              ap
                (λ o.
                  open_loop rounds inbuf reader finder fuel node buf len o p.0
                    (record s { initrd = s1; keyboard = p.1 })
                  >>= on_screen)
                next
              ∙ open_loop-show_pages n fuel (off + size) p.0
                  (record s { initrd = s1; keyboard = p.1 }) l' read_page.is_open (omega arith)
                  (omega arith, omega arith) (omega arith))
        ∙ ap
            (λ c.
              wait_enter rounds inbuf arrivals
                (print enter_text (record (s.keyboard) { console = c }))
              >>= λ p. show_pages rounds inbuf bytes len n (off + size) p.0 p.1)
            shown

abbrev last_line : Arrivals × Kernel → Outcome (Arrivals × Kernel)
last_line (arrivals, s) = done (arrivals, record s { keyboard = print (10 ∷ []) s.keyboard })

new_line_last :
    (m : Outcome (Arrivals × Kernel))
    → (m >>= last_line >>= on_screen) ≡ (m >>= on_screen >>= with_new_line)
new_line_last (done a) = refl
new_line_last panic = refl
new_line_last no_fuel = refl

open_file_found :
    (rounds inbuf : ℕ) (reader : (f node offset size buffer : ℕ) → Initrd → ℕ × Initrd)
    (finder : (f node argument : ℕ) → Initrd → Outcome (ℕ × Initrd)) (text_at : ℕ → List ℕ)
    (c : ℕ → ℕ) (n root_fs file_name buf node len : ℕ) (arrivals : Arrivals) (s : Kernel)
    (initrd : Initrd)
    → finddir_fs finder root_fs file_name s.initrd ≡ done (node, initrd)
    → node ≢ 0
    → load32 initrd.memory (file_length_at node) ≡ len
    → open_file rounds inbuf reader finder text_at c n root_fs file_name buf arrivals s ≡ (
        open_loop rounds inbuf reader finder n node buf len 0 arrivals
          (record s { initrd = initrd })
        >>= last_line)
unfolding open_file
open_file_found rounds inbuf reader finder text_at c n root_fs file_name buf node len arrivals s
      initrd found some_node length_is =
    rw found (rw (ne→== _ _ some_node) (rw length_is refl))

-- The file that `finddir_fs` finds is an open file, and the volume's function at `read` is
-- `initrd_read`. Then `open` shows its contents on the console in pages of 256 characters, each
-- with the text "press enter to continue" below it and the wait for the key, and a last new line;
-- whatever arrives from the keyboard meanwhile is handled, and if a wait does not end, neither
-- returns. There are at least as many rounds as pages and one more, and `buf` lies apart from
-- the file, its node, its volume and its header.
pub open_file-show_pages :
    (rounds inbuf : ℕ) (reader : (f node offset size buffer : ℕ) → Initrd → ℕ × Initrd)
    (finder : (f node argument : ℕ) → Initrd → Outcome (ℕ × Initrd)) (text_at : ℕ → List ℕ)
    (c : ℕ → ℕ) (n root_fs file_name buf node i volume read base len pages : ℕ) (bytes : ℕ → ℕ)
    (arrivals : Arrivals) (s : Kernel) (initrd : Initrd)
    → finddir_fs finder root_fs file_name s.initrd ≡ done (node, initrd)
    → node ≢ 0
    → load32 initrd.memory (file_length_at node) ≡ len
    → IsLaidOut (initrd.file_headers + 76 * i) node buf volume base len
    → IsOpen initrd node i volume read base len bytes
    → read ≢ 0
    → ((node offset size buffer : ℕ) (s : Initrd)
        → reader read node offset size buffer s ≡ initrd_read node offset size buffer s)
    → IsPages len pages
    → pages < n
    → (open_file rounds inbuf reader finder text_at c n root_fs file_name buf arrivals s
        >>= on_screen)
      ≡ (show_pages rounds inbuf bytes len pages 0 arrivals s.keyboard >>= with_new_line)
open_file-show_pages rounds inbuf reader finder text_at c n root_fs file_name buf node i volume read
      base len pages bytes arrivals s initrd found some_node length_is l v ne is_read count enough =
    let s1 : Kernel = record s { initrd = initrd } in
    let run =
      open_loop-show_pages rounds inbuf reader finder node i volume read base len buf bytes ne
        is_read pages n 0 arrivals s1 l v (omega arith) (omega arith, omega arith) enough in
    ap (λ o. o >>= on_screen)
      (open_file_found rounds inbuf reader finder text_at c n root_fs file_name buf node len
        arrivals s initrd found some_node length_is)
    ∙ new_line_last (open_loop rounds inbuf reader finder n node buf len 0 arrivals s1)
    ∙ ap (λ o. o >>= with_new_line) run
