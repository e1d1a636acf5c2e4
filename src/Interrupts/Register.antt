-- ===== src/Interrupts/Register.antt =====
-- Registration: which calls are refused, and what the others leave in the tables.
use jslk.Base.{
  ◌==◌, write, if◌then◌else◌, ◌∙◌, write_self, ℕ, ◌≤◌, ◌≡◌, refl, true, false, ◌||◌, arith, ltb,
  Bool-cases, inl, inr, le→ltb, write_self, ap,
}
use jslk.Interrupts.{
  HiInterrupt, Tables, total_interrupts, Locals, read_flags, set_handler, register_with,
  register_interrupt_handler, atomical_start,
}

-- The two tables hold the same entries, and so do the words from address 0 on.
abbrev pub SameTables : Tables → Tables → Type 0
SameTables t t' = (t'.hi ≡ t.hi) × (t'.chained ≡ t.chained) × (t'.null_cells ≡ t.null_cells)

register_with_outcome :
    (l : Locals) (t t0 : Tables) (num handler : ℕ)
    → SameTables t t0
    → let (t', code) = register_with l t num handler in
      (t'.enabled ≡ true) × (code ≤ 1) × SameTables t (if code == 1 then t' else t0)
unfolding register_with
register_with_outcome l t t0 num handler same =
    (ground arith, ground arith, (ground arith, ground arith, ground arith))

module _ (stack : Locals) (t : Tables) (num handler : ℕ) (args : ℕ → ℕ) where
  -- Every path through `registerInterruptHandler` ends with interrupts enabled, also when they were
  -- disabled before the call; it returns 0 or 1, and a call that returns 1 leaves the tables alone.
  pub register_outcome :
      let (t', code) = register_interrupt_handler stack t num handler args in
      (t'.enabled ≡ true) × (code ≤ 1) × SameTables t (if code == 1 then t' else t)
  unfolding register_interrupt_handler
  register_outcome = elim (Bool-cases (ltb total_interrupts num)) [
    | inl e ↦ rw e (refl, omega arith, (refl, refl, refl))
    | inr e ↦ rw e (
        register_with_outcome (read_flags 6 args 0 stack) (atomical_start t) t num handler
          (refl, refl, refl))
  ]

-- A registration without the chained option, of a free interrupt, succeeds: the entry gets the
-- handler, and no other entry changes. The entry is protected from chaining even where that was
-- not asked for.
pub register_plain :
    (stack : Locals) (t : Tables) (num handler : ℕ) (args : ℕ → ℕ)
    → (read_flags 6 args 0 stack).is_chained ≡ false
    → num ≤ total_interrupts
    → (t.hi num).has_handler ≡ false
    → (t.hi num).is_chained ≡ false
    → let (t', code) = register_interrupt_handler stack t num handler args in
      (code ≡ 0)
      × (t'.hi
          ≡ write t.hi num (record {
            initialized = true;
            has_handler = true;
            handler = handler;
            is_chained = false;
            chain_protect = true;
          }))
      × (t'.chained ≡ t.chained)
      × (t'.null_cells ≡ t.null_cells)
unfolding register_interrupt_handler register_with set_handler
register_plain stack t num handler args plain small free unchained =
    rw (le→ltb total_interrupts num small, plain, free, unchained) (refl, refl, refl, refl)

-- A registration without the chained option, of an interrupt that has a handler or is chained, is
-- refused with 1 and changes no entry.
pub register_taken :
    (stack : Locals) (t : Tables) (num handler : ℕ) (args : ℕ → ℕ)
    → (read_flags 6 args 0 stack).is_chained ≡ false
    → (t.hi num).has_handler || (t.hi num).is_chained ≡ true
    → let (t', code) = register_interrupt_handler stack t num handler args in
      (code ≡ 1) × SameTables t t'
unfolding register_interrupt_handler register_with
register_taken stack t num handler args plain taken = elim (Bool-cases (ltb total_interrupts num)) [
  | inl e ↦ rw e (refl, (refl, refl, refl))
  | inr e ↦ rw (e, plain, taken) (refl, (refl, refl, refl))
]

protected_refuses :
    (stack : Locals) (t : Tables) (num handler : ℕ) (args : ℕ → ℕ)
    → (read_flags 6 args 0 stack).is_chained ≡ true
    → (t.hi num).chain_protect ≡ true
    → (register_interrupt_handler stack t num handler args).1 ≡ 1
unfolding register_interrupt_handler register_with
protected_refuses stack t num handler args chained protected =
    elim (Bool-cases (ltb total_interrupts num)) [ inl e ↦ rw e | inr e ↦ ground arith ]

-- After a registration without the chained option has succeeded, no chained registration of the
-- same interrupt succeeds, whatever its other flags.
pub register_then_chain :
    (stack stack' : Locals) (t : Tables) (num handler handler' : ℕ) (args args' : ℕ → ℕ)
    → (read_flags 6 args 0 stack).is_chained ≡ false
    → num ≤ total_interrupts
    → (t.hi num).has_handler ≡ false
    → (t.hi num).is_chained ≡ false
    → (read_flags 6 args' 0 stack').is_chained ≡ true
    → let t' = (register_interrupt_handler stack t num handler args).0 in
      (register_interrupt_handler stack' t' num handler' args').1 ≡ 1
register_then_chain stack stack' t num handler handler' args args' plain small free unchained
      chained =
    let first = register_plain stack t num handler args plain small free unchained in
    let t' = (register_interrupt_handler stack t num handler args).0 in
    let protected : (t'.hi num).chain_protect ≡ true =
      ap (λ (f : ℕ → HiInterrupt). (f num).chain_protect) first.1
      ∙ ap (λ (h : HiInterrupt). h.chain_protect) (write_self t.hi num _) in
    protected_refuses stack' t' num handler' args' chained protected
