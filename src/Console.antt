-- ===== src/Console.antt =====
-- hal/x86/io/vga.c: the text console.
pub mod Cursor
pub mod Numbers
pub mod Format
mod Tests
use jslk.Base.{
  ℕ, zero, suc, min, max, bit_and, bit_or, refl, sym, ap, fun_ext, inl, inr, Bool, true, false, not,
  Option, none, some, List, [], map, arith, ltb, leb, ltb→lt, ltb→le, lt→ltb, le→ltb, ==→eq, ==→ne,
  eq→==, ne→==, Bool-cases, tests, write, write_self, write_ne, length, get_or, length-append, ◌+◌,
  ◌-◌, ◌*◌, ◌/◌, ◌%◌, ◌^◌, ◌≤◌, ◌<◌, ◌≡◌, ◌∙◌, ◌≢◌, ◌↔◌, ◌⊎◌, ◌&&◌, ◌||◌, ◌∷◌, ◌++◌, ◌==◌,
  if◌then◌else◌,
}

-- A `size_t`, a `uint16_t` and a `uint8_t` result.
abbrev pub u32 : ℕ → ℕ
u32 x = x % 2 ^ 32

abbrev pub u16 : ℕ → ℕ
u16 x = x % 2 ^ 16

abbrev pub u8 : ℕ → ℕ
u8 x = x % 2 ^ 8

-- The variables of the console, the cells of the screen behind `terminal_buffer`, and the bytes
-- sent to the ports, the latest first.
pub record Console : Type 0 where
  pub cursorx : ℕ
  pub cursory : ℕ
  pub console_color : ℕ
  pub clear_calls : ℕ
  pub terminal_buffer : ℕ → ℕ
  pub ports : List (ℕ × ℕ)

unfoldable pub backspace : Console → Console
backspace s =
    if s.cursorx == 0
    then record s { cursory = u32 (s.cursory + 2 ^ 32 - 1); cursorx = 79 }
    else record s { cursorx = s.cursorx - 1 }

unfoldable pub right_arrow : Console → Console
right_arrow s = record s { cursorx = u32 (s.cursorx + 1) }

unfoldable pub get_index : (x y : ℕ) → ℕ
get_index x y = u32 (y * 80 + x)

-- A `char` is signed: `(uint16_t)uc` extends its sign.
unfoldable pub get_vga_byte : (uc color : ℕ) → ℕ
get_vga_byte uc color = u16 (bit_or (if ltb uc 128 then uc else uc + 0xFF00) (color * 2 ^ 8))

unfoldable pub get_color : (text background : ℕ) → ℕ
get_color text background = u8 (bit_or text (background * 2 ^ 4))

abbrev pub vga_black : ℕ
vga_black = 0

abbrev pub vga_light_grey : ℕ
vga_light_grey = 7

unfoldable pub console_put_char : (c color x y : ℕ) → Console → Console
console_put_char c color x y s = record s {
  terminal_buffer = write s.terminal_buffer (get_index x y) (get_vga_byte c color);
}

-- The two loops of `clear_console`, with `n` cells of a line, or `n` lines, left.
unfoldable pub clear_line : (n x y : ℕ) → Console → Console
clear_line zero x y s = s
clear_line (suc n) x y s = clear_line n (x + 1) y (console_put_char 0x20 s.console_color x y s)

unfoldable pub clear_lines : (n y : ℕ) → Console → Console
clear_lines zero y s = s
clear_lines (suc n) y s = clear_lines n (y + 1) (clear_line 80 0 y s)

unfoldable pub clear_console : Console → Console
clear_console s =
    let s' = clear_lines 24 1 s in
    if s'.clear_calls == 0
    then record s' { clear_calls = 1 }
    else record s' { cursorx = 0; cursory = 1; clear_calls = u8 (s'.clear_calls + 1) }

unfoldable pub move_cursor : Console → Console
move_cursor s =
    let index = get_index s.cursorx s.cursory in
    record s {
      ports = (0x3D5, u8 index) ∷ (0x3D4, 15) ∷ (0x3D5, u8 (index / 2 ^ 8)) ∷ (0x3D4, 14) ∷ s.ports;
    }

-- The two loops of `scrollConsole`, with `n` cells left.
unfoldable pub move_up : (n i : ℕ) → (ℕ → ℕ) → ℕ → ℕ
move_up zero i buffer = buffer
move_up (suc n) i buffer = move_up n (i + 1) (write buffer i (buffer (i + 80)))

unfoldable pub fill : (blank n i : ℕ) → (ℕ → ℕ) → ℕ → ℕ
fill blank zero i buffer = buffer
fill blank (suc n) i buffer = fill blank n (i + 1) (write buffer i blank)

unfoldable pub scroll_console : Console → Console
scroll_console s =
    let blank = get_vga_byte 0x20 (get_color vga_light_grey vga_black) in
    if ltb s.cursory 25 then s else record s {
      terminal_buffer = fill blank 80 1920 (move_up 1840 80 s.terminal_buffer);
      cursory = 24;
    }

unfoldable pub set_console_color : (color : ℕ) → Console → Console
set_console_color color s = record s { console_color = color }

-- What `kputc` does with the character itself.
unfoldable pub put : (c : ℕ) → Console → Console
put c s =
    if c == 0x0A
    then record s { cursorx = 0; cursory = u32 (s.cursory + 1) }
    else if c == 0x0D
    then record s { cursorx = 0 }
    else if c == 0x08
    then (let s' = record s { cursorx = u32 (s.cursorx + 2 ^ 32 - 1) } in
        console_put_char 0x20 s'.console_color s'.cursorx s'.cursory s')
    else if c == 0x09
    then record s { cursorx = u32 (s.cursorx + 4) }
    else console_put_char c s.console_color s.cursorx s.cursory s

-- `if (cursorx >= 80)`: go on in the next line.
unfoldable pub wrap_line : Console → Console
wrap_line s =
    if leb 80 s.cursorx then record s { cursorx = 0; cursory = u32 (s.cursory + 1) } else s

unfoldable pub kputc : (c : ℕ) → Console → Console
kputc c s =
    let s' = put c s in
    let s'' = if c == 0x0A then s' else record s' { cursorx = u32 (s'.cursorx + 1) } in
    scroll_console (wrap_line s'')

-- A string is the list of its characters, without the zero byte that ends it.
unfoldable pub kprint : List ℕ → Console → Console
kprint [] s = s
kprint (c ∷ cs) s = kprint cs (kputc c s)

unfoldable pub write_styled_string : List ℕ → (color : ℕ) → Console → Console
write_styled_string [] color s = s
write_styled_string (c ∷ cs) color s =
    let s' = console_put_char c color s.cursorx s.cursory s in
    let rest =
      write_styled_string cs color
        (scroll_console (wrap_line (record s' { cursorx = u32 (s'.cursorx + 1) }))) in
    if c == 0x0A then kputc c s else rest

-- The padding of the menu bar, with `n` blanks left.
unfoldable pub pad : (n color : ℕ) → Console → Console
pad zero color s = s
pad (suc n) color s = pad n color (write_styled_string (0x20 ∷ []) color s)

-- `80 - strlen(text)` is unsigned: a text of more than 80 characters gives a count near 2^32.
unfoldable pub set_menubar_text : List ℕ → Console → Console
set_menubar_text text s =
    let color = get_color vga_black vga_light_grey in
    pad (u32 (80 + 2 ^ 32 - length text)) color
      (write_styled_string text color (record s { cursorx = 0; cursory = 0 }))

unfoldable pub map_xy : (direction : ℕ) → Console → Console
map_xy direction s =
    if direction == 1
    then record s { cursory = u32 (s.cursory + 1) }
    else if direction == 2
    then record s { cursory = u32 (s.cursory + 2 ^ 32 - 1) }
    else if direction == 3
    then record s { cursorx = u32 (s.cursorx + 1) }
    else if direction == 4
    then record s { cursorx = u32 (s.cursorx + 2 ^ 32 - 1) }
    else s
