-- ===== src/Console/Cursor.antt =====
-- The cursor and the cells of the screen: `kputc`, `kprint`, `scrollConsole` and `mapXY`.
use jslk.Base.{
  ℕ, zero, suc, refl, ap, inl, inr, true, List, [], arith, ltb, leb, ltb→le, le→ltb, Bool-cases,
  write, ◌+◌, ◌≤◌, ◌<◌, ◌≡◌, ◌∙◌, ◌≢◌, ◌⊎◌, ◌&&◌, ◌∷◌, ◌==◌, if◌then◌else◌,
}
use jslk.Console.{
  Console, get_index, get_vga_byte, get_color, vga_light_grey, vga_black, console_put_char, move_up,
  fill, scroll_console, put, wrap_line, kputc, kprint, map_xy,
}

-- The cursor is on the screen of 25 lines of 80 characters.
pub record InScreen (s : Console) : Type 0 where
  pub x_lt : s.cursorx < 80
  pub y_lt : s.cursory < 25

kputc-InScreen : (c : ℕ) (s : Console) → InScreen s → InScreen (kputc c s)
unfolding kputc put wrap_line scroll_console console_put_char
kputc-InScreen c s h =
    let x = h.x_lt in let y = h.y_lt in record { x_lt = ground arith; y_lt = ground arith }

-- Printing a text with the cursor on the screen, control characters included, leaves it on the
-- screen.
pub kprint-InScreen : (cs : List ℕ) (s : Console) → InScreen s → InScreen (kprint cs s)
unfolding kprint
kprint-InScreen [] s h = h
kprint-InScreen (c ∷ cs) s h = kprint-InScreen cs (kputc c s) (kputc-InScreen c s h)

move_up_cell :
    (n i k : ℕ) (buffer : ℕ → ℕ)
    → move_up n i buffer k ≡ (if leb i k && ltb k (i + n) then buffer (k + 80) else buffer k)
unfolding move_up
move_up_cell zero i k buffer = ground arith
move_up_cell (suc n) i k buffer =
    ground (arith, move_up_cell n (i + 1) k (write buffer i (buffer (i + 80))))

fill_cell :
    (blank n i k : ℕ) (buffer : ℕ → ℕ)
    → fill blank n i buffer k ≡ (if leb i k && ltb k (i + n) then blank else buffer k)
unfolding fill
fill_cell blank zero i k buffer = ground arith
fill_cell blank (suc n) i k buffer =
    ground (arith, fill_cell blank n (i + 1) k (write buffer i blank))

-- `scrollConsole` with the cursor below the screen leaves line 0, moves the lines 2 to 24 up by
-- one, blanks line 24, changes no cell outside the screen, and puts the cursor in line 24 and the
-- column where it was.
pub scroll_console_lines :
    (s : Console) (k : ℕ)
    → 25 ≤ s.cursory
    → let blank = get_vga_byte 0x20 (get_color vga_light_grey vga_black) in
      ((scroll_console s).terminal_buffer k ≡ (
        if ltb k 80
        then s.terminal_buffer k
        else if ltb k 1920
        then s.terminal_buffer (k + 80)
        else if ltb k 2000
        then blank
        else s.terminal_buffer k))
      × ((scroll_console s).cursory ≡ 24)
      × ((scroll_console s).cursorx ≡ s.cursorx)
unfolding scroll_console
scroll_console_lines s k low =
    let blank = get_vga_byte 0x20 (get_color vga_light_grey vga_black) in
    let filled = fill_cell blank 80 1920 k (move_up 1840 80 s.terminal_buffer) in
    let moved = move_up_cell 1840 80 k s.terminal_buffer in
    rw (le→ltb s.cursory 25 low) (filled ∙ ground (arith, moved), refl, refl)

scroll_console_still : (s : Console) → ltb s.cursory 25 ≡ true → scroll_console s ≡ s
unfolding scroll_console
scroll_console_still s e = rw e refl

scroll_outside :
    (s : Console) (k : ℕ) → 2000 ≤ k → (scroll_console s).terminal_buffer k ≡ s.terminal_buffer k
scroll_outside s k out = elim (Bool-cases (ltb s.cursory 25)) [
  | inl e ↦ ap (λ (t : Console). t.terminal_buffer k) (scroll_console_still s e)
  | inr e ↦ (scroll_console_lines s k (ltb→le _ _ e)).0 ∙ ground arith
]

wrap_line_buffer : (s : Console) (k : ℕ) → (wrap_line s).terminal_buffer k ≡ s.terminal_buffer k
unfolding wrap_line
wrap_line_buffer s k = elim (Bool-cases (leb 80 s.cursorx)) [
  | inl e ↦ rw e refl
  | inr e ↦ rw e refl
]

-- Outside the screen, `kputc` leaves in a cell what `put` leaves there.
kputc-put :
    (c k : ℕ) (s : Console) → 2000 ≤ k → (kputc c s).terminal_buffer k ≡ (put c s).terminal_buffer k
unfolding kputc
kputc-put c k s out =
    scroll_outside _ k out
    ∙ wrap_line_buffer _ k
    ∙ (elim (Bool-cases (c == 0x0A)) [ inl e ↦ rw e refl | inr e ↦ rw e refl ])

-- With the cursor on the screen, and not a backspace at its first cell, `kputc` writes only cells
-- of the screen.
pub kputc_outside :
    (c k : ℕ) (s : Console)
    → InScreen s
    → (c ≢ 0x08) ⊎ (0 < s.cursorx + s.cursory)
    → 2000 ≤ k
    → (kputc c s).terminal_buffer k ≡ s.terminal_buffer k
unfolding put console_put_char get_index
kputc_outside c k s h room out =
    let x = h.x_lt in let y = h.y_lt in kputc-put c k s out ∙ ground arith

-- `mapXY` does not hold the cursor on the screen: after a move down in the last line, the next
-- character from 0x20 up is written behind the screen, 2000 cells from the cursor's column.
pub map_xy_leaves_screen :
    (c : ℕ) (s : Console)
    → s.cursorx < 80
    → s.cursory ≡ 24
    → 0x20 ≤ c
    → (kputc c (map_xy 1 s)).terminal_buffer (2000 + s.cursorx) ≡ get_vga_byte c s.console_color
unfolding put console_put_char get_index map_xy
map_xy_leaves_screen c s x y printable =
    kputc-put c (2000 + s.cursorx) (map_xy 1 s) (omega arith) ∙ ground arith
