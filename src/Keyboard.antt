-- ===== src/Keyboard.antt =====
-- hal/x86/drivers/keyboard.c: the keyboard.
pub mod Keys
mod Tests
use jslk.Base.{
  ℕ, zero, suc, min, max, bit_and, bit_or, refl, sym, ap, fun_ext, inl, inr, Bool, true, false, not,
  Option, none, some, List, [], map, arith, ltb, leb, ltb→lt, ltb→le, lt→ltb, le→ltb, ==→eq, ==→ne,
  eq→==, ne→==, Bool-cases, tests, write, write_self, write_ne, length, get_or, length-append, ◌+◌,
  ◌-◌, ◌*◌, ◌/◌, ◌%◌, ◌^◌, ◌≤◌, ◌<◌, ◌≡◌, ◌∙◌, ◌≢◌, ◌↔◌, ◌⊎◌, ◌&&◌, ◌||◌, ◌∷◌, ◌++◌, ◌==◌,
  if◌then◌else◌,
}
use jslk.Base.Memory.{Memory}
use jslk.Base.Outcome.{Outcome, done, ◌>>=◌}
use jslk.Console.{Console, kputc, backspace, right_arrow, map_xy}
use jslk.Strings.{append}

-- The two layouts; the elements that the source leaves out are 0.
abbrev pub kbdus : List ℕ
kbdus =
    0 ∷ 27 ∷ 49 ∷ 50 ∷ 51 ∷ 52 ∷ 53 ∷ 54 ∷ 55 ∷ 56 ∷ 57 ∷ 48 ∷ 45 ∷ 61 ∷ 8 ∷ 9 ∷ 113 ∷ 119 ∷ 101
    ∷ 114 ∷ 116 ∷ 121 ∷ 117 ∷ 105 ∷ 111 ∷ 112 ∷ 91 ∷ 93 ∷ 10 ∷ 0 ∷ 97 ∷ 115 ∷ 100 ∷ 102 ∷ 103 ∷ 104
    ∷ 106 ∷ 107 ∷ 108 ∷ 59 ∷ 39 ∷ 96 ∷ 0 ∷ 92 ∷ 122 ∷ 120 ∷ 99 ∷ 118 ∷ 98 ∷ 110 ∷ 109 ∷ 44 ∷ 46 ∷ 47
    ∷ 0 ∷ 42 ∷ 0 ∷ 32 ∷ 0 ∷ 0 ∷ 0 ∷ 0 ∷ 0 ∷ 0 ∷ 0 ∷ 0 ∷ 0 ∷ 0 ∷ 0 ∷ 0 ∷ 0 ∷ 0 ∷ 0 ∷ 0 ∷ 45 ∷ 0 ∷ 0
    ∷ 0 ∷ 43 ∷ 0 ∷ 0 ∷ 0 ∷ 0 ∷ 0 ∷ 0 ∷ 0 ∷ 0 ∷ 0 ∷ 0 ∷ 0 ∷ []

abbrev pub capsus : List ℕ
capsus =
    0 ∷ 27 ∷ 33 ∷ 34 ∷ 35 ∷ 36 ∷ 37 ∷ 38 ∷ 47 ∷ 40 ∷ 41 ∷ 61 ∷ 63 ∷ 64 ∷ 8 ∷ 9 ∷ 81 ∷ 87 ∷ 69 ∷ 82
    ∷ 84 ∷ 89 ∷ 85 ∷ 73 ∷ 79 ∷ 80 ∷ 123 ∷ 125 ∷ 10 ∷ 0 ∷ 65 ∷ 83 ∷ 68 ∷ 70 ∷ 71 ∷ 72 ∷ 74 ∷ 75 ∷ 76
    ∷ 58 ∷ 39 ∷ 96 ∷ 0 ∷ 92 ∷ 90 ∷ 88 ∷ 67 ∷ 86 ∷ 66 ∷ 78 ∷ 77 ∷ 44 ∷ 46 ∷ 47 ∷ 0 ∷ 42 ∷ 0 ∷ 32 ∷ 0
    ∷ 0 ∷ 0 ∷ 0 ∷ 0 ∷ 0 ∷ 0 ∷ 0 ∷ 0 ∷ 0 ∷ 0 ∷ 0 ∷ 0 ∷ 0 ∷ 0 ∷ 0 ∷ 45 ∷ 0 ∷ 0 ∷ 0 ∷ 43 ∷ 0 ∷ 0 ∷ 0
    ∷ 0 ∷ 0 ∷ 0 ∷ 0 ∷ 0 ∷ 0 ∷ 0 ∷ 0 ∷ []

-- The variables of the driver, the console, and the memory that has `inbuf` in it.
pub record Keyboard : Type 0 where
  pub shift : Bool
  pub scancode : ℕ
  pub console : Console
  pub memory : Memory

-- A key that has a character: it is printed and put at the end of the input.
unfoldable pub type_char : (rounds inbuf scancode : ℕ) → Keyboard → Outcome Keyboard
type_char rounds inbuf scancode k =
    let c = if k.shift then get_or capsus scancode 0 else get_or kbdus scancode 0 in
    append rounds k.memory inbuf c >>= λ memory.
    let console = kputc c k.console in
    done (record k {
      memory = memory;
      console =
          if (scancode == 14) || (scancode == 75)
          then backspace console
          else if scancode == 77
          then right_arrow console
          else console;
    })

-- `scancode` is the byte that `inb(0x60)` returns, and `inbuf` the address of the input.
unfoldable pub keyboard_handler : (rounds inbuf scancode : ℕ) → Keyboard → Outcome Keyboard
keyboard_handler rounds inbuf scancode k0 =
    let k = record k0 { scancode = scancode } in
    let typed = type_char rounds inbuf scancode k in
    if not (bit_and scancode 0x80 == 0)
    then done (record k { shift = false })
    else if (scancode == 42) || (scancode == 54) || (scancode == 58)
    then done (record k { shift = true })
    else if scancode == 80
    then done (record k { console = map_xy 1 k.console })
    else if scancode == 72
    then done (record k { console = map_xy 2 k.console })
    else if scancode == 77
    then done (record k { console = map_xy 3 k.console })
    else if scancode == 75
    then done (record k { console = map_xy 4 k.console })
    else typed

unfoldable pub read_key : Keyboard → ℕ
read_key k = if k.scancode == 28 then 0 else 1
