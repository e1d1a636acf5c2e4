-- ===== src/Keyboard/Keys.antt =====
-- What a key does: the character that it types, and the modifier keys.
use jslk.Base.{
  ℕ, bit_and, refl, Bool, true, false, List, [], arith, eq→==, length, get_or, ◌*◌, ◌^◌, ◌<◌, ◌≡◌,
  ◌∙◌, ◌≢◌, ◌||◌, ◌∷◌, ◌++◌, ◌==◌, if◌then◌else◌,
}
use jslk.Base.Bits.{bit, bit_and-pow}
use jslk.Base.Outcome.{done}
use jslk.Console.{kputc, backspace}
use jslk.Strings.Append.{HoldsText, append-HoldsText}
use jslk.Keyboard.{kbdus, capsus, Keyboard, type_char, keyboard_handler}

-- The keys that type nothing: shift on both sides, caps lock, and the arrows.
abbrev pub is_control : ℕ → Bool
is_control scancode =
    (scancode == 42)
    || (scancode == 54)
    || (scancode == 58)
    || (scancode == 80)
    || (scancode == 72)
    || (scancode == 77)
    || (scancode == 75)

pressed : (scancode : ℕ) → scancode < 0x80 → bit_and scancode 0x80 ≡ 0
unfolding bit
pressed scancode lt =
    let digit : bit scancode 7 ≡ 0 = omega arith in
    let and : bit_and scancode (2 ^ 7) ≡ bit scancode 7 * 2 ^ 7 = bit_and-pow scancode 7 in
    omega arith

handler-type_char :
    (rounds inbuf scancode : ℕ) (k : Keyboard)
    → scancode < 0x80
    → is_control scancode ≡ false
    → keyboard_handler rounds inbuf scancode k
      ≡ type_char rounds inbuf scancode (record k { scancode = scancode })
unfolding keyboard_handler
handler-type_char rounds inbuf scancode k down plain =
    let up : (bit_and scancode 0x80 == 0) ≡ true = eq→== _ _ (pressed scancode down) in
    let no_shift : ((scancode == 42) || (scancode == 54) || (scancode == 58)) ≡ false =
      ground arith in
    let no_down : (scancode == 80) ≡ false = ground arith in
    let no_up : (scancode == 72) ≡ false = ground arith in
    let no_right : (scancode == 77) ≡ false = ground arith in
    let no_left : (scancode == 75) ≡ false = ground arith in
    rw (up, no_shift) (rw (no_down, no_up) (rw (no_right, no_left) refl))

-- A key with a character, pressed while `inbuf` holds a text, with more rounds than the text is
-- long: the character of the layout that the shift state selects is put at the end of the text and
-- printed, the backspace key moves the cursor back after that, and the shift state stays.
pub keyboard_handler_types :
    (rounds inbuf scancode : ℕ) (text : List ℕ) (k : Keyboard)
    → let c = if k.shift then get_or capsus scancode 0 else get_or kbdus scancode 0 in
      scancode < 0x80
      → is_control scancode ≡ false
      → c ≢ 0
      → HoldsText k.memory inbuf text
      → length text < rounds
      → (k' : Keyboard) × (keyboard_handler rounds inbuf scancode k ≡ done k')
        × HoldsText k'.memory inbuf (text ++ (c ∷ []))
        × (k'.console
            ≡ (if scancode == 14 then backspace (kputc c k.console) else kputc c k.console))
        × (k'.shift ≡ k.shift)
unfolding type_char
keyboard_handler_types rounds inbuf scancode text k down plain ne h lt =
    let c = if k.shift then get_or capsus scancode 0 else get_or kbdus scancode 0 in
    let (m', run, holds, _) = append-HoldsText text rounds k.memory inbuf c h ne lt in
    let not_left : (scancode == 75) ≡ false = ground arith in
    let not_right : (scancode == 77) ≡ false = ground arith in
    let console = kputc c k.console in
    let back = (scancode == 14) in
    let k' : Keyboard = record k {
      scancode = scancode;
      memory = m';
      console = if back then backspace console else console;
    } in
    let or_left : ((scancode == 14) || (scancode == 75)) ≡ back = ground arith in
    (
      k',
      handler-type_char rounds inbuf scancode k down plain ∙ rw (run, or_left, not_right) refl,
      holds,
      refl,
      refl,
    )
