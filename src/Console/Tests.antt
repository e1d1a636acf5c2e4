-- ===== src/Console/Tests.antt =====
-- Runs of the console, and the theorems on a screen of zeros.
use jslk.Base.{ℕ, refl, List, [], arith, ◌≡◌, ◌∷◌, ◌==◌, if◌then◌else◌}
use jslk.Base.Outcome.{done}
use jslk.Console.Format.{kprintf, Piece, plain, int_then, HoldsFormat, render, kprintf-render}
use jslk.Strings.Numerals.{itoa}
use jslk.Console.{Console, kprint}
use jslk.Console.Cursor.{InScreen, kprint-InScreen}

abbrev at : (x y : ℕ) → Console
at x y = record {
  cursorx = x;
  cursory = y;
  console_color = 7;
  clear_calls = 0;
  terminal_buffer = λ j. j;
  ports = [];
}

at-InScreen : InScreen (at 79 24)
at-InScreen = record { x_lt = omega arith; y_lt = omega arith }

kprint-InScreen_example : InScreen (kprint (0x41 ∷ 0x0A ∷ 0x09 ∷ 0x08 ∷ []) (at 79 24))
kprint-InScreen_example = kprint-InScreen (0x41 ∷ 0x0A ∷ 0x09 ∷ 0x08 ∷ []) (at 79 24) at-InScreen

-- The format "a%i b" and the argument 42.
abbrev format : ℕ → ℕ
format i =
    if i == 0
    then 0x61
    else if i == 1
    then 0x25
    else if i == 2
    then 0x69
    else if i == 3
    then 0x20
    else if i == 4
    then 0x62
    else 0

abbrev pieces : List Piece
pieces = plain 0x61 ∷ int_then 0x20 ∷ plain 0x62 ∷ []

format-HoldsFormat : HoldsFormat format 0 pieces
unfolding HoldsFormat
format-HoldsFormat = (
  refl,
  (λ e. absurd (omega arith)),
  (λ e. absurd (omega arith)),
  (refl, refl, refl, (refl, (λ e. absurd (omega arith)), (λ e. absurd (omega arith)), refl)),
)

kprintf-render_example :
    kprintf (λ a. []) format (λ n. 42) 8 (at 0 0)
    ≡ done (render (λ n. kprint (itoa 10 n)) (λ a. []) (λ n. 42) pieces 0 (at 0 0))
kprintf-render_example =
    kprintf-render (λ a. []) format (λ n. 42) pieces 8 (at 0 0) format-HoldsFormat (omega arith)
