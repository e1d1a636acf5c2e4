-- ===== src/DescriptorTables/Gates.antt =====
-- Interrupt gates: the table that `init_idt` leaves, and the numbers that `genInterrupt` knows.
use jslk.Base.{
  ℕ, zero, suc, bit_and, refl, ap, inl, inr, true, arith, ltb, leb, ltb→lt, ltb→le, ==→eq, ==→ne,
  Bool-cases, write_self, write_ne, ◌+◌, ◌-◌, ◌*◌, ◌/◌, ◌%◌, ◌^◌, ◌≤◌, ◌<◌, ◌≡◌, ◌∙◌, ◌≢◌, ◌⊎◌,
  ◌==◌, if◌then◌else◌,
}
use jslk.Base.Bits.{bit_and_mask}
use jslk.DescriptorTables.{
  IdtEntry, Idt, idt_set_gate, set_gates, zero_entry, init_idt, gen_interrupt, gen_interrupt_high,
}

-- The address that a gate leads to, put together from its parts.
abbrev pub gate_offset : IdtEntry → ℕ
gate_offset e = e.base_lo + 2 ^ 16 * e.base_hi

-- A gate to a handler in the kernel's code segment.
pub record IsGate (e : IdtEntry) (handler : ℕ) : Type 0 where
  pub offset : gate_offset e ≡ handler
  pub selector : e.sel ≡ 0x08
  pub flags_eq : e.flags ≡ 0x8E
  pub zero_byte : e.always0 ≡ 0

idt_set_gate-IsGate :
    (num base : ℕ) (t : Idt)
    → base < 2 ^ 32
    → IsGate ((idt_set_gate num base 0x08 0x8E t).idt_entries num) base
unfolding idt_set_gate
idt_set_gate-IsGate num base t low =
    let lo : bit_and base 0xFFFF ≡ base % 2 ^ 16 = bit_and_mask base 16 in
    let hi : bit_and (base / 2 ^ 16) 0xFFFF ≡ base / 2 ^ 16 % 2 ^ 16 =
      bit_and_mask (base / 2 ^ 16) 16 in
    let entry : IdtEntry = record {
      base_lo = bit_and base 0xFFFF;
      sel = 0x08;
      always0 = 0;
      flags = 0x8E;
      base_hi = bit_and (base / 2 ^ 16) 0xFFFF;
    } in
    let self = write_self t.idt_entries num entry in
    record {
      offset = ap gate_offset self ∙ rw (lo, hi) (omega arith);
      selector = ap (λ (e : IdtEntry). e.sel) self;
      flags_eq = ap (λ (e : IdtEntry). e.flags) self;
      zero_byte = ap (λ (e : IdtEntry). e.always0) self;
    }

idt_set_gate_other :
    (num base sel flags k : ℕ) (t : Idt)
    → k ≢ num
    → (idt_set_gate num base sel flags t).idt_entries k ≡ t.idt_entries k
unfolding idt_set_gate
idt_set_gate_other num base sel flags k t ne = write_ne t.idt_entries num k _ ne

set_gates_other :
    (handler : ℕ → ℕ) (n num i k : ℕ) (t : Idt)
    → (k < num) ⊎ (num + n ≤ k)
    → (set_gates handler n num i t).idt_entries k ≡ t.idt_entries k
unfolding set_gates
set_gates_other handler zero num i k t out = refl
set_gates_other handler (suc n) num i k t out =
    set_gates_other handler n (num + 1) (i + 1) k (idt_set_gate num (handler i) 0x08 0x8E t)
      (omega arith)
    ∙ idt_set_gate_other num (handler i) 0x08 0x8E k t (omega arith)

set_gates-IsGate :
    (handler : ℕ → ℕ) (n num i k : ℕ) (t : Idt)
    → ((j : ℕ) → handler j < 2 ^ 32)
    → k < n
    → IsGate ((set_gates handler n num i t).idt_entries (num + k)) (handler (i + k))
unfolding set_gates
set_gates-IsGate handler zero num i k t low lt = absurd (omega arith)
set_gates-IsGate handler (suc n) num i zero t low lt =
    let t' = idt_set_gate num (handler i) 0x08 0x8E t in
    let same : num + 0 ≡ num = omega arith in
    let same' : i + 0 ≡ i = omega arith in
    rw (same, same', set_gates_other handler n (num + 1) (i + 1) num t' (inl (omega arith)))
      (idt_set_gate-IsGate num (handler i) t (low i))
set_gates-IsGate handler (suc n) num i (suc k) t low lt =
    let next : num + suc k ≡ num + 1 + k = omega arith in
    let next' : i + suc k ≡ i + 1 + k = omega arith in
    rw (next, next')
      (set_gates-IsGate handler n (num + 1) (i + 1) k (idt_set_gate num (handler i) 0x08 0x8E t) low
        (omega arith))

-- The 48 gates, set in a table of zeros.
gates_set :
    (isr irq : ℕ → ℕ) (k : ℕ) (t : Idt)
    → ((j : ℕ) → t.idt_entries j ≡ zero_entry)
    → ((j : ℕ) → isr j < 2 ^ 32)
    → ((j : ℕ) → irq j < 2 ^ 32)
    → let entry = (set_gates irq 16 32 0 (set_gates isr 32 0 0 t)).idt_entries k in
      if ltb k 32
      then IsGate entry (isr k)
      else if ltb k 48
      then IsGate entry (irq (k - 32))
      else entry ≡ zero_entry
gates_set isr irq k t cleared low_isr low_irq =
    let t' = set_gates isr 32 0 0 t in
    elim (Bool-cases (ltb k 32)) [
      | inl e ↦
          let at : 0 + k ≡ k = omega arith in
          rw e (
            rw (set_gates_other irq 16 32 0 k t' (inl (ltb→lt k 32 e)))
              (rw at at (set_gates-IsGate isr 32 0 0 k t low_isr (ltb→lt k 32 e))))
      | inr e ↦ elim (Bool-cases (ltb k 48)) [
        | inl f ↦
            let le = ltb→le k 32 e in
            let at : 32 + (k - 32) ≡ k = omega arith in
            let at0 : 0 + (k - 32) ≡ k - 32 = omega arith in
            let lt : k - 32 < 16 = (let lt = ltb→lt k 48 f in omega arith) in
            rw (e, f) (rw (at, at0) at (set_gates-IsGate irq 16 32 0 (k - 32) t' low_irq lt))
        | inr f ↦
            let le = ltb→le k 48 f in
            rw (e, f)
              (set_gates_other irq 16 32 0 k t' (inr (omega arith))
                ∙ set_gates_other isr 32 0 0 k t (inr (omega arith))
                ∙ cleared k)
      ]
    ]

-- After `init_idt`, with handlers at addresses of 32 bits, the gates 0 to 31 lead to isr0 to isr31
-- and the gates 32 to 47 to irq0 to irq15, all in the code segment 0x08 with the flags 0x8E, and
-- every other entry is zero.
pub init_idt-IsGate :
    (isr irq : ℕ → ℕ) (address k : ℕ) (t : Idt)
    → ((j : ℕ) → isr j < 2 ^ 32)
    → ((j : ℕ) → irq j < 2 ^ 32)
    → let entry = (init_idt isr irq address t).idt_entries k in
      if ltb k 32
      then IsGate entry (isr k)
      else if ltb k 48
      then IsGate entry (irq (k - 32))
      else entry ≡ zero_entry
unfolding init_idt
init_idt-IsGate isr irq address k t low_isr low_irq =
    gates_set isr irq k _ (λ j. refl) low_isr low_irq

-- A chain of tests for one number after another.
module _ {S : Type 0} (interrupt : ℕ → S → S) (num : ℕ) (s : S) where
  case :
      (k : ℕ)
      → leb k 47 ≡ true
      → k ≤ num
      → {rest : S} → (k + 1 ≤ num → rest ≡ (if leb num 47 then interrupt num s else s))
      → (if num == k then interrupt k s else rest) ≡ (if leb num 47 then interrupt num s else s)
  case k known le later = elim (Bool-cases (num == k)) [
    | inl e ↦ (let same = ==→eq num k e in rw (e, same, known) refl)
    | inr e ↦ rw e (later (let ne = ==→ne num k e in omega arith))
  ]

  gen_interrupt_high_lem :
      24 ≤ num → gen_interrupt_high interrupt num s ≡ (if leb num 47 then interrupt num s else s)
  unfolding gen_interrupt_high
  gen_interrupt_high_lem le = case 24 refl le λ l24. case 25 refl l24 λ l25. case 26 refl l25 λ l26.
      case 27 refl l26 λ l27. case 28 refl l27 λ l28. case 29 refl l28 λ l29.
        case 30 refl l29 λ l30. case 31 refl l30 λ l31. case 32 refl l31 λ l32.
          case 33 refl l32 λ l33. case 34 refl l33 λ l34. case 35 refl l34 λ l35.
            case 36 refl l35 λ l36. case 37 refl l36 λ l37. case 38 refl l37 λ l38.
              case 39 refl l38 λ l39. case 40 refl l39 λ l40. case 41 refl l40 λ l41.
                case 42 refl l41 λ l42. case 43 refl l42 λ l43. case 44 refl l43 λ l44.
                  case 45 refl l44
                    λ l45. case 46 refl l45 λ l46. case 47 refl l46 λ l47. ground arith

-- `genInterrupt` raises exactly the interrupt that it is given, for the numbers up to 47, and does
-- nothing for any other number.
pub gen_interrupt_lem :
    {S : Type 0} (interrupt : ℕ → S → S) (num : ℕ) (s : S)
    → gen_interrupt interrupt num s ≡ (if leb num 47 then interrupt num s else s)
unfolding gen_interrupt
gen_interrupt_lem interrupt num s = case interrupt num s 0 refl (omega arith) λ l0.
    case interrupt num s 1 refl l0 λ l1. case interrupt num s 2 refl l1 λ l2.
      case interrupt num s 3 refl l2 λ l3. case interrupt num s 4 refl l3 λ l4.
        case interrupt num s 5 refl l4 λ l5. case interrupt num s 6 refl l5 λ l6.
          case interrupt num s 7 refl l6 λ l7. case interrupt num s 8 refl l7 λ l8.
            case interrupt num s 9 refl l8 λ l9. case interrupt num s 10 refl l9 λ l10.
              case interrupt num s 11 refl l10 λ l11. case interrupt num s 12 refl l11 λ l12.
                case interrupt num s 13 refl l12 λ l13. case interrupt num s 14 refl l13 λ l14.
                  case interrupt num s 15 refl l14 λ l15. case interrupt num s 16 refl l15 λ l16.
                    case interrupt num s 17 refl l16 λ l17. case interrupt num s 18 refl l17 λ l18.
                      case interrupt num s 19 refl l18 λ l19.
                        case interrupt num s 20 refl l19 λ l20.
                          case interrupt num s 21 refl l20 λ l21.
                            case interrupt num s 22 refl l21 λ l22.
                              case interrupt num s 23 refl l22
                                λ l23. gen_interrupt_high_lem interrupt num s l23
