-- ===== src/Keyboard/Tests.antt =====
-- The theorem at the key for the letter q, with shift.
use jslk.Base.{refl, true, [], arith, ◌≡◌, ◌∷◌}
use jslk.Base.Outcome.{done}
use jslk.Console.{kputc}
use jslk.Strings.Append.{HoldsText}
use jslk.Keyboard.{Keyboard, keyboard_handler}
use jslk.Keyboard.Keys.{keyboard_handler_types}

abbrev held : Keyboard
held = record {
  shift = true;
  scancode = 42;
  console = record {
    cursorx = 0;
    cursory = 1;
    console_color = 7;
    clear_calls = 0;
    terminal_buffer = λ j. 0;
    ports = [];
  };
  memory = λ j. 0;
}

held-HoldsText : HoldsText held.memory 64 []
unfolding HoldsText
held-HoldsText = refl

keyboard_handler_types_example :
    (k' : Keyboard) × (keyboard_handler 1024 64 16 held ≡ done k')
    × HoldsText k'.memory 64 (0x51 ∷ [])
    × (k'.console ≡ kputc 0x51 held.console)
    × (k'.shift ≡ true)
keyboard_handler_types_example =
    keyboard_handler_types 1024 64 16 [] held (omega arith) refl (λ e. absurd (omega arith))
      held-HoldsText (omega arith)
