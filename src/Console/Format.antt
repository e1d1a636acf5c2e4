-- ===== src/Console/Format.antt =====
-- `kprintf` and `cprintf`, and the text that a format stands for.
use jslk.Base.{
  ℕ, zero, suc, refl, false, List, [], arith, ne→==, length, ◌+◌, ◌<◌, ◌≡◌, ◌∙◌, ◌≢◌, ◌∷◌, ◌==◌,
  if◌then◌else◌,
}
use jslk.Base.Outcome.{Outcome, done, no_fuel, ◌>>=◌}
use jslk.Console.{Console, kputc, kprint, get_color, vga_black, vga_light_grey, clear_console, pad}
use jslk.Console.Numbers.{kernel_print_dec, kernel_print_hex}
use jslk.Strings.Numerals.{itoa}

-- A format stands in memory, `c` being its characters by index. `args` are the words of the
-- variable arguments, and `text_at` the text at an address.
module _ (print_int : ℕ → Console → Console) (text_at : ℕ → List ℕ) (c args : ℕ → ℕ) where
  -- What is printed for the `%` at `i`, with the argument `n` the next one, and the argument after
  -- it.
  unfoldable pub print_arg : (i n : ℕ) → Console → ℕ × Console
  print_arg i n s =
      if c (i + 1) == 0x69
      then (n + 1, print_int (args n) s)
      else if c (i + 1) == 0x73
      then (n + 1, kprint (text_at (args n)) s)
      else if c (i + 1) == 0x68
      then (n + 1, kernel_print_hex (args n) s)
      else (n, s)

  -- The loop. After a directive the character behind it is printed without a look at it.
  unfoldable pub format_from : (rounds i n : ℕ) → Console → Outcome Console
  unfolding print_arg
  format_from zero i n s = no_fuel
  format_from (suc r) i n s =
      let directive = (c i == 0x25) in
      let i' : ℕ = if directive then i + 2 else i in
      let (n', s') : ℕ × Console = if directive then print_arg i n s else (n, s) in
      let rest = format_from r (i' + 1) n' (kputc (c i') s') in if c i == 0 then done s else rest

unfoldable pub kprintf :
    (text_at : ℕ → List ℕ) (c args : ℕ → ℕ) → (rounds : ℕ) → Console → Outcome Console
unfolding format_from
kprintf text_at c args rounds s = format_from (λ n. kprint (itoa 10 n)) text_at c args rounds 0 0 s

unfoldable pub cprintf :
    (text_at : ℕ → List ℕ) (c args : ℕ → ℕ) → (rounds color : ℕ) → Console → Outcome Console
unfolding format_from
cprintf text_at c args rounds color s =
    format_from kernel_print_dec text_at c args rounds 0 0 (record s { console_color = color })
    >>= λ s'. done (record s' { console_color = s.console_color })

-- `c` is the format "JSLK Kernel %i.%i.%i-%s" and what lies in memory behind it, and `args` are the
-- parts of the version. The text of 40 characters in `menubarText` leaves 38 blanks.
unfoldable pub start_console :
    (text_at : ℕ → List ℕ) (c args : ℕ → ℕ) → (rounds : ℕ) → Console → Outcome Console
unfolding cprintf
start_console text_at c args rounds s =
    let status_bar_color = get_color vga_black vga_light_grey in
    let s' =
      clear_console (record s {
        cursorx = 0;
        cursory = 0;
        console_color = get_color vga_light_grey vga_black;
      }) in
    cprintf text_at c args rounds status_bar_color s' >>= λ s''. done (pad 38 status_bar_color s'')

-- A format as a list of its parts. Behind a directive stands a character that is printed as it is.
pub data Piece : Type 0 where
  plain int_then text_then hex_then : ℕ → Piece

unfoldable pub HoldsFormat : (c : ℕ → ℕ) (i : ℕ) → List Piece → Type 0
HoldsFormat c i [] = c i ≡ 0
HoldsFormat c i (plain ch ∷ ps) = (c i ≡ ch) × (ch ≢ 0) × (ch ≢ 0x25) × HoldsFormat c (i + 1) ps
HoldsFormat c i (int_then ch ∷ ps) =
    (c i ≡ 0x25) × (c (i + 1) ≡ 0x69) × (c (i + 2) ≡ ch) × HoldsFormat c (i + 3) ps
HoldsFormat c i (text_then ch ∷ ps) =
    (c i ≡ 0x25) × (c (i + 1) ≡ 0x73) × (c (i + 2) ≡ ch) × HoldsFormat c (i + 3) ps
HoldsFormat c i (hex_then ch ∷ ps) =
    (c i ≡ 0x25) × (c (i + 1) ≡ 0x68) × (c (i + 2) ≡ ch) × HoldsFormat c (i + 3) ps

module _ (print_int : ℕ → Console → Console) (text_at : ℕ → List ℕ) (args : ℕ → ℕ) where
  -- What the parts print, one after the other.
  unfoldable pub render : List Piece → (n : ℕ) → Console → Console
  render [] n s = s
  render (plain ch ∷ ps) n s = render ps n (kputc ch s)
  render (int_then ch ∷ ps) n s = render ps (n + 1) (kputc ch (print_int (args n) s))
  render (text_then ch ∷ ps) n s = render ps (n + 1) (kputc ch (kprint (text_at (args n)) s))
  render (hex_then ch ∷ ps) n s = render ps (n + 1) (kputc ch (kernel_print_hex (args n) s))

  format_directive :
      (c : ℕ → ℕ) (r i n ch : ℕ) (s s' : Console)
      → c i ≡ 0x25
      → c (i + 2) ≡ ch
      → print_arg print_int text_at c args i n s ≡ (n + 1, s')
      → format_from print_int text_at c args (suc r) i n s
        ≡ format_from print_int text_at c args r (i + 3) (n + 1) (kputc ch s')
  unfolding format_from
  format_directive c r i n ch s s' e at p =
      let next : i + 2 + 1 ≡ i + 3 = omega arith in rw (e, p) (rw (at, next) refl)

  format_from-render :
      (c : ℕ → ℕ) (ps : List Piece) (rounds i n : ℕ) (s : Console)
      → HoldsFormat c i ps
      → length ps < rounds
      → format_from print_int text_at c args rounds i n s ≡ done (render ps n s)
  unfolding format_from render HoldsFormat print_arg
  format_from-render c ps zero i n s h lt = absurd (omega arith)
  format_from-render c [] (suc r) i n s h lt = rw h refl
  format_from-render c (plain ch ∷ ps) (suc r) i n s h lt =
      let some_char : (ch == 0) ≡ false = ne→== ch 0 h.1 in
      let no_directive : (ch == 0x25) ≡ false = ne→== ch 0x25 h.2 in
      rw (h.0, some_char, no_directive, h.0)
        (format_from-render c ps r (i + 1) n (kputc ch s) h.3 (omega arith))
  format_from-render c (int_then ch ∷ ps) (suc r) i n s h lt =
      format_directive c r i n ch s (print_int (args n) s) h.0 h.2 (rw (print_arg, h.1) refl)
      ∙ format_from-render c ps r (i + 3) (n + 1) _ h.3 (omega arith)
  format_from-render c (text_then ch ∷ ps) (suc r) i n s h lt =
      format_directive c r i n ch s (kprint (text_at (args n)) s) h.0 h.2 (rw (print_arg, h.1) refl)
      ∙ format_from-render c ps r (i + 3) (n + 1) _ h.3 (omega arith)
  format_from-render c (hex_then ch ∷ ps) (suc r) i n s h lt =
      format_directive c r i n ch s (kernel_print_hex (args n) s) h.0 h.2 (rw (print_arg, h.1) refl)
      ∙ format_from-render c ps r (i + 3) (n + 1) _ h.3 (omega arith)

-- `kprintf` of a format whose directives are each followed by a character, with more rounds than
-- the format has parts, prints the parts in order: characters as they are, integers in decimal by
-- `itoa`, texts, and hexadecimal numbers.
pub kprintf-render :
    (text_at : ℕ → List ℕ) (c args : ℕ → ℕ) (ps : List Piece) (rounds : ℕ) (s : Console)
    → HoldsFormat c 0 ps
    → length ps < rounds
    → kprintf text_at c args rounds s ≡ done (render (λ n. kprint (itoa 10 n)) text_at args ps 0 s)
unfolding kprintf
kprintf-render text_at c args ps rounds s h lt =
    format_from-render (λ n. kprint (itoa 10 n)) text_at args c ps rounds 0 0 s h lt

-- A directive at the end of a format: `kprintf` prints its argument, then the zero byte that ends
-- the format, and goes on with whatever lies behind it.
pub directive_at_end :
    (text_at : ℕ → List ℕ) (c args : ℕ → ℕ) (rounds : ℕ) (s : Console)
    → c 0 ≡ 0x25
    → c 1 ≡ 0x69
    → c 2 ≡ 0
    → kprintf text_at c args (suc rounds) s
      ≡ format_from
          (λ n. kprint (itoa 10 n))
          text_at
          c
          args
          rounds
          3
          1
          (kputc 0 (kprint (itoa 10 (args 0)) s))
unfolding kprintf
directive_at_end text_at c args rounds s percent i end =
    format_directive (λ n. kprint (itoa 10 n)) text_at args c rounds 0 0 0 s _ percent end
      (rw (print_arg, i) refl)
