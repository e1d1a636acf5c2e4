-- ===== src/Kernel.antt =====
-- kernel/jslk.c: `open`, which shows a file on the console, and `vfsLog`, which adds to the log.
pub mod Show
pub mod Open
pub mod Stuck
mod Tests
use jslk.Base.{
  ℕ, zero, suc, min, max, bit_and, bit_or, refl, sym, ap, fun_ext, inl, inr, Bool, true, false, not,
  Option, none, some, List, [], map, arith, ltb, leb, ltb→lt, ltb→le, lt→ltb, le→ltb, ==→eq, ==→ne,
  eq→==, ne→==, Bool-cases, tests, write, write_self, write_ne, length, get_or, length-append, ◌+◌,
  ◌-◌, ◌*◌, ◌/◌, ◌%◌, ◌^◌, ◌≤◌, ◌<◌, ◌≡◌, ◌∙◌, ◌≢◌, ◌↔◌, ◌⊎◌, ◌&&◌, ◌||◌, ◌∷◌, ◌++◌, ◌==◌,
  if◌then◌else◌,
}
use jslk.Base.Memory.{Memory, load32}
use jslk.Base.Outcome.{Outcome, done, no_fuel, ◌>>=◌}
use jslk.Console.{Console, u32, kputc, kprint, get_color, vga_black}
use jslk.Console.Format.{kprintf, cprintf}
use jslk.Initrd.{Initrd, file_length_at}
use jslk.Initrd.Vfs.{read_fs, write_fs, finddir_fs}
use jslk.Keyboard.{Keyboard, keyboard_handler, read_key}
use jslk.Strings.{strlen}

-- What the file system and the keyboard driver keep, and `logOffset`. The console is the keyboard
-- driver's; the memory of the input line lies apart from what the file system uses.
pub record Kernel : Type 0 where
  pub initrd : Initrd
  pub keyboard : Keyboard
  pub log_offset : ℕ

abbrev pub vga_green : ℕ
vga_green = 2

-- The scan codes that arrive before each call of `read_key`.
abbrev pub Arrivals : Type 0
Arrivals = List (List ℕ)

abbrev pub print : List ℕ → Keyboard → Keyboard
print text k = record k { console = kprint text k.console }

-- "\n press enter to continue \n"
abbrev pub enter_text : List ℕ
enter_text =
    10 ∷ 32 ∷ 112 ∷ 114 ∷ 101 ∷ 115 ∷ 115 ∷ 32 ∷ 101 ∷ 110 ∷ 116 ∷ 101 ∷ 114 ∷ 32 ∷ 116 ∷ 111 ∷ 32
    ∷ 99 ∷ 111 ∷ 110 ∷ 116 ∷ 105 ∷ 110 ∷ 117 ∷ 101 ∷ 32 ∷ 10 ∷ []

-- `for (j = 0; j < sz; j++) kputc(buf[j])`, with `n` characters left.
unfoldable pub put_chars : Memory → (buf n j : ℕ) → Console → Console
put_chars m buf zero j s = s
put_chars m buf (suc n) j s = put_chars m buf n (j + 1) (kputc (m (buf + j)) s)

-- The interrupts of the keyboard; `inbuf` is the address of the input line.
module _ (rounds inbuf : ℕ) where
  unfoldable pub deliver : List ℕ → Keyboard → Outcome Keyboard
  deliver [] k = done k
  deliver (code ∷ codes) k = keyboard_handler rounds inbuf code k >>= λ k'. deliver codes k'

  -- `while (read_key() != 0);` with the arrivals that are left behind it. Without a further arrival
  -- the loop goes on for ever.
  unfoldable pub wait_enter : Arrivals → Keyboard → Outcome (Arrivals × Keyboard)
  unfolding deliver
  wait_enter [] k = no_fuel
  wait_enter (codes ∷ arrivals) k = deliver codes k >>= λ k'.
      let rest = wait_enter arrivals k' in if read_key k' == 0 then done (arrivals, k') else rest

  -- The functions at the addresses that a volume has.
  module _ (reader : (f node offset size buffer : ℕ) → Initrd → ℕ × Initrd)
      (finder : (f node argument : ℕ) → Initrd → Outcome (ℕ × Initrd)) where
    -- The loop of `open`, with `n` rounds left. `buf` is the array of 256 bytes on the stack.
    unfoldable pub open_loop :
        (n node buf length bread : ℕ) → Arrivals → Kernel → Outcome (Arrivals × Kernel)
    unfolding put_chars wait_enter
    open_loop zero node buf length bread arrivals s = no_fuel
    open_loop (suc n) node buf length bread arrivals s =
        let (sz, initrd) = read_fs reader node bread 256 buf s.initrd in
        let console = put_chars initrd.memory buf sz 0 s.keyboard.console in
        let k = print enter_text (record (s.keyboard) { console = console }) in
        let rest = wait_enter arrivals k >>= λ (arrivals', k').
        open_loop n node buf length (u32 (bread + sz)) arrivals'
          (record s { initrd = initrd; keyboard = k' }) in
        if ltb bread length then rest else done (arrivals, s)

    -- `c` is the format "ERROR: File %s not found on disk. \n" and `text_at` the text at an address.
    unfoldable pub open_file :
        (text_at : ℕ → List ℕ) (c : ℕ → ℕ) (n root_fs file_name buf : ℕ)
        → Arrivals
        → Kernel
        → Outcome (Arrivals × Kernel)
    unfolding open_loop
    open_file text_at c n root_fs file_name buf arrivals s =
        finddir_fs finder root_fs file_name s.initrd >>= λ (fsnode, initrd).
        let s' = record s { initrd = initrd } in
        let missing = kprintf text_at c (λ i. file_name) n s.keyboard.console >>= λ console.
        done (arrivals, record s' { keyboard = record (s.keyboard) { console = console } }) in
        let length = load32 initrd.memory (file_length_at fsnode) in
        let found = open_loop n fsnode buf length 0 arrivals s' >>= λ (arrivals', s'').
        done (arrivals', record s'' { keyboard = print (10 ∷ []) s''.keyboard }) in
        if fsnode == 0 then missing else found

-- `[kernel] ` in green between brackets, and the text. `c` is the format "kernel", which has no
-- directive, and `c'` the format "%s \n".
unfoldable pub print_pretty_text :
    (text_at : ℕ → List ℕ) (c c' : ℕ → ℕ) (rounds text : ℕ) → Console → Outcome Console
print_pretty_text text_at c c' rounds text s = do
  let s1 = kprint (0x5B ∷ []) s
  s2 ← cprintf text_at c (λ i. 0) rounds (get_color vga_green vga_black) s1
  kprintf text_at c' (λ i. text) rounds (kprint (0x5D ∷ 0x20 ∷ []) s2)

-- `log_name` is the address of the string "initrd/log.txt", and `c` the format
-- "ERROR: log.txt not found! \n".
unfoldable pub vfs_log :
    (writer : (f node offset size buffer : ℕ) → Initrd → ℕ × Initrd)
    (finder : (f node argument : ℕ) → Initrd → Outcome (ℕ × Initrd)) (text_at : ℕ → List ℕ)
    (c : ℕ → ℕ) (rounds root_fs log_name buf : ℕ)
    → Kernel
    → Outcome Kernel
vfs_log writer finder text_at c rounds root_fs log_name buf s =
    finddir_fs finder root_fs log_name s.initrd >>= λ (fs_node, initrd).
    let missing = kprintf text_at c (λ i. 0) rounds s.keyboard.console >>= λ console.
    done (record s { initrd = initrd; keyboard = record (s.keyboard) { console = console } }) in
    let found = strlen rounds initrd.memory buf >>= λ buf_len.
    let (n, initrd') = write_fs writer fs_node s.log_offset buf_len buf initrd in
    done (record s { initrd = initrd'; log_offset = n }) in
    if fs_node == 0 then missing else found
