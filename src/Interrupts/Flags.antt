-- ===== src/Interrupts/Flags.antt =====
-- The flags that `registerInterruptHandler` reads from its variable arguments.
use jslk.Base.{
  ℕ, zero, suc, ◌+◌, ◌≡◌, refl, Bool, true, false, ◌||◌, arith, ltb, ◌==◌, if◌then◌else◌,
  Bool-cases, inl, inr, ◌∙◌, lt→ltb, le→ltb,
}
use jslk.Interrupts.{Locals, set_flag, read_flags}

-- Does `flag` stand among the arguments from `i` on, before the terminator 5 and within `n` of
-- them?
unfoldable pub given : (flag n : ℕ) → (ℕ → ℕ) → ℕ → Bool
given flag zero args i = false
given flag (suc n) args i =
    (args i == flag) || (if args i == 5 then false else given flag n args (i + 1))

-- For each option, a field of the locals that its flag sets and the other flags leave alone.
module _ (option : Locals → Bool) (flag : ℕ)
    (sets : (f : ℕ) (l : Locals) → option (set_flag f l) ≡ ((f == flag) || option l)) where
  read_flags_last :
      (args : ℕ → ℕ) (i : ℕ) (l : Locals)
      → i ≡ 5
      → option (read_flags 1 args i l) ≡ (given flag 1 args i || option l)
  unfolding read_flags given
  read_flags_last args i l e =
      let last : ltb 5 (i + 1) ≡ true = lt→ltb 5 (i + 1) (omega arith) in
      rw last (rw (sets (args i) l) (ground arith))

  read_flags_option :
      (n : ℕ) (args : ℕ → ℕ) (i : ℕ) (l : Locals)
      → suc n + i ≡ 6
      → option (read_flags (suc n) args i l) ≡ (given flag (suc n) args i || option l)
  unfolding read_flags given
  read_flags_option zero args i l e = read_flags_last args i l (omega arith)
  read_flags_option (suc n) args i l e =
      let more : ltb 5 (i + 1) ≡ false = le→ltb 5 (i + 1) (omega arith) in
      let ih = read_flags_option n args (i + 1) (set_flag (args i) l) (omega arith) in
      rw more (elim (Bool-cases (args i == 5)) [
        | inl stop ↦ rw stop (rw (sets (args i) l) (ground arith))
        | inr go ↦ rw go (ih ∙ rw (sets (args i) l) (ground arith))
      ])

-- `registerInterruptHandler` reads at most six arguments, up to the terminator 5. Each of its four
-- options is on if its flag is among those, and is otherwise whatever the stack held: none of the
-- four has an initial value.
pub read_flags-given :
    (args : ℕ → ℕ) (stack : Locals)
    → let l = read_flags 6 args 0 stack in
      (l.is_chained ≡ (given 1 6 args 0 || stack.is_chained))
      × (l.chain_protect ≡ (given 2 6 args 0 || stack.chain_protect))
      × (l.free_protect ≡ (given 3 6 args 0 || stack.free_protect))
      × (l.chain_lock ≡ (given 4 6 args 0 || stack.chain_lock))
unfolding set_flag
read_flags-given args stack = (
  read_flags_option (λ l. l.is_chained) 1 (λ f l. ground arith) 5 args 0 stack refl,
  read_flags_option (λ l. l.chain_protect) 2 (λ f l. ground arith) 5 args 0 stack refl,
  read_flags_option (λ l. l.free_protect) 3 (λ f l. ground arith) 5 args 0 stack refl,
  read_flags_option (λ l. l.chain_lock) 4 (λ f l. ground arith) 5 args 0 stack refl,
)
