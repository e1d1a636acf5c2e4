-- ===== src/Interrupts/Dispatch.antt =====
-- Dispatch of interrupts to the registered handlers: `isr_handler`, `chainedIsrHandler`,
-- `irq_handler`.
use jslk.Base.{
  ℕ, zero, suc, refl, sym, ap, inl, inr, true, false, List, arith, ltb, leb, lt→ltb, le→ltb, ==→eq,
  ne→==, Bool-cases, write_self, ◌+◌, ◌≤◌, ◌<◌, ◌≡◌, ◌∙◌, ◌≢◌, ◌∷◌, ◌==◌, if◌then◌else◌,
}
use jslk.Interrupts.{
  HiInterrupt, ChainedInterrupt, Tables, Locals, read_flags, add_to_chain, register_with,
  register_interrupt_handler,
}
use jslk.Console.{Console, kprint}
use jslk.Console.Numbers.{kernel_print_dec}
use jslk.Interrupts.Report.{report, received_interrupt, open_bracket, close_bracket}
use jslk.Interrupts.Register.{register_plain}

-- The tables, the texts that describe the interrupts, the console, and the bytes sent to the ports,
-- the latest first.
pub record Machine : Type 0 where
  pub tables : Tables
  pub descriptions : ℕ → List ℕ
  pub console : Console
  pub ports : List (ℕ × ℕ)

unfoldable pub outb : ℕ → ℕ → Machine → Machine
outb port value s = record s { ports = (port, value) ∷ s.ports }

-- The report on the interrupt that `isr_handler` prints first.
abbrev pub reported : (num : ℕ) → Machine → Machine
reported num s = record s { console = report s.descriptions num s.console }

-- `call h` is what the code at the address `h` does.
module _ (call : ℕ → Machine → Machine) where
  -- The loop, with `n` rounds left. A handler may change the tables, so both are read in each
  -- round.
  unfoldable pub chained_loop : (n i num : ℕ) → Machine → Machine
  chained_loop zero i num s = s
  chained_loop (suc n) i num s =
      let rest = chained_loop n (i + 1) num (call (s.tables.null_cells i) s) in
      if ltb i ((s.tables.chained num).total_handlers + 1) then rest else s

  -- `totalHandlers` is a `uint8_t`, so 256 rounds are all that there can be.
  unfoldable pub chained_isr_handler : ℕ → Machine → Machine
  chained_isr_handler num s =
      if (s.tables.chained num).total_handlers == 0
      then call (s.tables.null_cells 0) s
      else chained_loop 256 0 num s

  unfoldable pub isr_handler : ℕ → Machine → Machine
  isr_handler num s0 =
      let s = reported num s0 in
      if (s.tables.hi num).is_chained
      then chained_isr_handler num s
      else if (s.tables.hi num).has_handler
      then call (s.tables.hi num).handler s
      else s

  unfoldable pub irq_handler : ℕ → Machine → Machine
  unfolding outb
  irq_handler num s =
      let s' = outb 0x20 0x20 (if leb 40 num then outb 0xA0 0x20 s else s) in
      if (s'.tables.hi num).has_handler then call (s'.tables.hi num).handler s' else s'

  -- The handlers in the cells from `i` on, called in order.
  unfoldable pub call_all : (cells : ℕ → ℕ) → (i n : ℕ) → Machine → Machine
  call_all cells i zero s = s
  call_all cells i (suc n) s = call_all cells (i + 1) n (call (cells i) s)

  module _ (keeps : (h : ℕ) (s : Machine) → (call h s).tables ≡ s.tables) where
    chained_loop-call_all :
        (n k i num : ℕ) (t : Tables) (s : Machine)
        → s.tables ≡ t
        → i + k ≡ (t.chained num).total_handlers + 1
        → k ≤ n
        → chained_loop n i num s ≡ call_all t.null_cells i k s
    unfolding chained_loop call_all
    chained_loop-call_all zero zero i num t s e h le = refl
    chained_loop-call_all zero (suc k) i num t s e h le = absurd (omega arith)
    chained_loop-call_all (suc n) zero i num t s e h le =
        let total = ap (λ (u : Tables). (u.chained num).total_handlers) e in
        rw (le→ltb i ((s.tables.chained num).total_handlers + 1) (omega arith))
    chained_loop-call_all (suc n) (suc k) i num t s e h le =
        let total = ap (λ (u : Tables). (u.chained num).total_handlers) e in
        rw (lt→ltb i ((s.tables.chained num).total_handlers + 1) (omega arith)) (
          ap (λ c. chained_loop n (i + 1) num (call c s)) (ap (λ (u : Tables). u.null_cells i) e)
          ∙ chained_loop-call_all n k (i + 1) num t (call (t.null_cells i) s)
              (keeps (t.null_cells i) s ∙ e) (omega arith) (omega arith))

    -- If no handler changes the tables, a chained interrupt calls the handlers in the cells from
    -- the first up to the count, each once and in order.
    pub chained_isr_handler-call_all :
        (num : ℕ) (s : Machine)
        → (s.tables.chained num).total_handlers < 256
        → chained_isr_handler num s
          ≡ call_all s.tables.null_cells 0 ((s.tables.chained num).total_handlers + 1) s
    unfolding chained_isr_handler call_all
    chained_isr_handler-call_all num s small =
        let total = (s.tables.chained num).total_handlers in
        elim (Bool-cases (total == 0)) [
          | inl e ↦ rw e (rw (==→eq _ _ e) refl)
          | inr e ↦ rw e (
              chained_loop-call_all 256 (total + 1) 0 num s.tables s refl (omega arith)
                (omega arith))
        ]

-- An interrupt below 32, registered without the chained option, goes to its handler, and to no
-- other, once `isr_handler` has printed "Received interrupt: ", the number, and the description of
-- it between brackets.
pub register-isr_handler :
    (call : ℕ → Machine → Machine) (stack : Locals) (t : Tables) (num handler : ℕ) (args : ℕ → ℕ)
    (ports : List (ℕ × ℕ)) (descriptions : ℕ → List ℕ) (console : Console)
    → (read_flags 6 args 0 stack).is_chained ≡ false
    → num < 32
    → (t.hi num).has_handler ≡ false
    → (t.hi num).is_chained ≡ false
    → let s : Machine = record {
      tables = (register_interrupt_handler stack t num handler args).0;
      descriptions = descriptions;
      console = console;
      ports = ports;
    } in
      isr_handler call num s
      ≡ call handler (record s {
        console = kprint close_bracket (
            kprint
              (descriptions num)
              (kprint open_bracket (kernel_print_dec num (kprint received_interrupt console))));
      })
unfolding isr_handler report
register-isr_handler call stack t num handler args ports descriptions console plain small free
      unchained =
    let registered = register_plain stack t num handler args plain (omega arith) free unchained in
    let entry : (register_interrupt_handler stack t num handler args).0.hi num ≡ _ =
      ap (λ (f : ℕ → HiInterrupt). f num) registered.1 ∙ write_self t.hi num _ in
    let not_chained = ap (λ (h : HiInterrupt). h.is_chained) entry in
    let present = ap (λ (h : HiInterrupt). h.has_handler) entry in
    let address = ap (λ (h : HiInterrupt). h.handler) entry in
    rw not_chained (rw present (rw address))

-- An entry of a table that no registration has touched.
abbrev pub IsFresh : Tables → ℕ → Type 0
IsFresh t num =
    ((t.hi num).initialized ≡ false)
    × ((t.hi num).has_handler ≡ false)
    × ((t.hi num).chain_protect ≡ false)
    × ((t.chained num).initialized ≡ false)
    × ((t.chained num).chain_lock ≡ false)
    × ((t.chained num).total_handlers ≡ 0)

-- A chained registration of a fresh interrupt succeeds, marks the interrupt as chained with one
-- handler, changes no other entry, and puts the handler at address 0.
chain_fresh :
    (l : Locals) (t : Tables) (num handler : ℕ)
    → l.is_chained ≡ true
    → IsFresh t num
    → let (t', code) = register_with l t num handler in
      (code ≡ 0)
      × ((t'.hi num).is_chained ≡ true)
      × ((t'.hi num).has_handler ≡ true)
      × ((t'.hi num).handler ≡ (t.hi num).handler)
      × ((t'.chained num).total_handlers ≡ 0)
      × (t'.null_cells 0 ≡ handler)
      × ((j : ℕ)
          → (t'.hi j ≡ (if j == num then t'.hi num else t.hi j))
            × (t'.chained j ≡ (if j == num then t'.chained num else t.chained j)))
unfolding register_with add_to_chain
chain_fresh l t num handler chained (a, b, c, d, e, f) =
    rw (chained, b, c, e)
      (
        refl,
        ground arith,
        ground arith,
        ground arith,
        ground arith,
        ground arith,
        λ j. (ground arith, ground arith),
      )

-- What a registration of `num` leaves of the entries of another interrupt.
other_entry :
    (t t' : Tables) (num j : ℕ)
    → num ≢ j
    → ((k : ℕ)
        → (t'.hi k ≡ (if k == num then t'.hi num else t.hi k))
          × (t'.chained k ≡ (if k == num then t'.chained num else t.chained k)))
    → (t'.hi j ≡ t.hi j) × (t'.chained j ≡ t.chained j)
other_entry t t' num j ne h =
    let apart : (j == num) ≡ false = ne→== j num (λ e. ne (sym e)) in
    ((h j).0 ∙ rw apart, (h j).1 ∙ rw apart)

IsFresh-of_same :
    (t t' : Tables) (j : ℕ)
    → (t'.hi j ≡ t.hi j) × (t'.chained j ≡ t.chained j)
    → IsFresh t j
    → IsFresh t' j
IsFresh-of_same t t' j (p, q) h = (
  ap (λ (x : HiInterrupt). x.initialized) p ∙ h.0,
  ap (λ (x : HiInterrupt). x.has_handler) p ∙ h.1,
  ap (λ (x : HiInterrupt). x.chain_protect) p ∙ h.2,
  ap (λ (x : ChainedInterrupt). x.initialized) q ∙ h.3,
  ap (λ (x : ChainedInterrupt). x.chain_lock) q ∙ h.4,
  ap (λ (x : ChainedInterrupt). x.total_handlers) q ∙ h.5,
)

-- The chains of two interrupts are one: once a handler is registered for a second fresh interrupt
-- with the chained option, the first interrupt goes to the second one's handler, and its own is
-- lost.
pub chains_share_cells :
    (call : ℕ → Machine → Machine) (l l' : Locals) (t : Tables) (n m a b : ℕ) (x : Machine)
    → l.is_chained ≡ true
    → l'.is_chained ≡ true
    → IsFresh t n
    → IsFresh t m
    → n ≢ m
    → let s : Machine = record x { tables = (register_with l' (register_with l t n a).0 m b).0 } in
      isr_handler call n s ≡ call b (reported n s)
unfolding isr_handler chained_isr_handler
chains_share_cells call l l' t n m a b x cl cl' fn fm ne =
    let t1 = (register_with l t n a).0 in
    let first = chain_fresh l t n a cl fn in
    let second =
      chain_fresh l' t1 m b cl' (IsFresh-of_same t t1 m (other_entry t t1 n m ne first.6) fm) in
    let t2 = (register_with l' t1 m b).0 in
    let kept = other_entry t1 t2 m n (λ e. ne (sym e)) second.6 in
    let is_chained : (t2.hi n).is_chained ≡ true =
      ap (λ (h : HiInterrupt). h.is_chained) kept.0 ∙ first.1 in
    let one : (t2.chained n).total_handlers ≡ 0 =
      ap (λ (c : ChainedInterrupt). c.total_handlers) kept.1 ∙ first.4 in
    rw is_chained (rw one (rw second.5))

-- `irq_handler` sends an end-of-interrupt to the master controller, and to the slave before it for
-- a line of the slave. It does not look at chains: after a chained registration of a fresh
-- interrupt it jumps to whatever address stood in the entry, not to the registered handler.
pub irq_handler_of_chain :
    (call : ℕ → Machine → Machine) (l : Locals) (t : Tables) (num handler : ℕ) (x : Machine)
    → l.is_chained ≡ true
    → IsFresh t num
    → let t' = (register_with l t num handler).0 in
      let eoi : List (ℕ × ℕ) =
        if leb 40 num then (0x20, 0x20) ∷ (0xA0, 0x20) ∷ x.ports else (0x20, 0x20) ∷ x.ports in
      irq_handler call num (record x { tables = t' })
      ≡ call (t.hi num).handler (record x { tables = t'; ports = eoi })
unfolding irq_handler
irq_handler_of_chain call l t num handler x chained fresh =
    let r = chain_fresh l t num handler chained fresh in
    elim (Bool-cases (leb 40 num)) [
      | inl slave ↦ rw slave (rw r.2 (rw r.3))
      | inr master ↦ rw master (rw r.2 (rw r.3))
    ]
