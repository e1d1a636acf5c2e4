-- ===== src/DescriptorTables.antt =====
-- hal/x86/tables/descriptor_tables.c: the descriptors of segments and the gates of interrupts.
pub mod Segments
pub mod Gates
mod Tests
use jslk.Base.{
  ℕ, zero, suc, min, max, bit_and, bit_or, refl, sym, ap, fun_ext, inl, inr, Bool, true, false, not,
  Option, none, some, List, [], map, arith, ltb, leb, ltb→lt, ltb→le, lt→ltb, le→ltb, ==→eq, ==→ne,
  eq→==, ne→==, Bool-cases, tests, write, write_self, write_ne, length, get_or, length-append, ◌+◌,
  ◌-◌, ◌*◌, ◌/◌, ◌%◌, ◌^◌, ◌≤◌, ◌<◌, ◌≡◌, ◌∙◌, ◌≢◌, ◌↔◌, ◌⊎◌, ◌&&◌, ◌||◌, ◌∷◌, ◌++◌, ◌==◌,
  if◌then◌else◌,
}
use jslk.Base.Outcome.{Outcome, done, panic, ◌>>=◌}

pub record GdtEntry : Type 0 where
  pub limit_low : ℕ
  pub base_low : ℕ
  pub base_middle : ℕ
  pub flags : ℕ
  pub gran : ℕ
  pub base_high : ℕ

-- `gdt_ptr_t` and `idt_ptr_t`
pub record TablePtr : Type 0 where
  pub limit : ℕ
  pub base : ℕ

-- The variables of the table of segments. `loaded` is what `gdt_flush` has given to the processor.
pub record Gdt : Type 0 where
  pub gdt_entries : ℕ → GdtEntry
  pub segment_status : ℕ → Bool
  pub gdt_ptr : TablePtr
  pub loaded : Option TablePtr

abbrev pub gdt_max_segments : ℕ
gdt_max_segments = 3

unfoldable pub gdt_set_gate : (num base limit access granularity : ℕ) → Gdt → Outcome Gdt
gdt_set_gate num base limit access granularity g =
    if ltb (gdt_max_segments - 1) num || g.segment_status num
    then panic
    else done (record g {
      gdt_entries = write g.gdt_entries num (record {
        limit_low = bit_and limit 0xFFFF;
        base_low = bit_and base 0xFFFF;
        base_middle = bit_and (base / 2 ^ 16) 0xFF;
        flags = access;
        gran = bit_or (bit_and (limit / 2 ^ 16) 0x0F) (bit_and granularity 0xF0);
        base_high = bit_and (base / 2 ^ 24) 0xFF;
      });
    })

-- `sizeof(gdt_entry_t)` is 8. `address` is the address of `gdt_entries`.
unfoldable pub init_gdt : (address : ℕ) → Gdt → Outcome Gdt
init_gdt address g = do
  g1 ← gdt_set_gate 0 0 0 0 0 (record g { gdt_ptr = record { limit = 8 * 5 - 1; base = address } })
  g2 ← gdt_set_gate 1 0 0xFFFFFFFF 0x9A 0xCF g1
  g3 ← gdt_set_gate 2 0 0xFFFFFFFF 0x92 0xCF g2
  done (record g3 { loaded = some g3.gdt_ptr })

pub record IdtEntry : Type 0 where
  pub base_lo : ℕ
  pub sel : ℕ
  pub always0 : ℕ
  pub flags : ℕ
  pub base_hi : ℕ

-- The variables of the table of gates, the bytes sent to the ports, the latest first, and whether
-- interrupts are enabled.
pub record Idt : Type 0 where
  pub idt_entries : ℕ → IdtEntry
  pub idt_ptr : TablePtr
  pub loaded : Option TablePtr
  pub ports : List (ℕ × ℕ)
  pub enabled : Bool

unfoldable pub idt_set_gate : (num base sel flags : ℕ) → Idt → Idt
idt_set_gate num base sel flags t = record t {
  idt_entries = write t.idt_entries num (record {
    base_lo = bit_and base 0xFFFF;
    sel = sel;
    always0 = 0;
    flags = flags;
    base_hi = bit_and (base / 2 ^ 16) 0xFFFF;
  });
}

-- The calls of `idt_set_gate` for `n` handlers, the first of them for the interrupt `num`.
unfoldable pub set_gates : (handler : ℕ → ℕ) → (n num i : ℕ) → Idt → Idt
set_gates handler zero num i t = t
set_gates handler (suc n) num i t =
    set_gates handler n (num + 1) (i + 1) (idt_set_gate num (handler i) 0x08 0x8E t)

abbrev pub zero_entry : IdtEntry
zero_entry = record { base_lo = 0; sel = 0; always0 = 0; flags = 0; base_hi = 0 }

-- `isr i` and `irq i` are the addresses of the handlers of those names, which are in assembly.
-- `sizeof(idt_entry_t)` is 8. `address` is the address of `idt_entries`.
unfoldable pub init_idt : (isr irq : ℕ → ℕ) → (address : ℕ) → Idt → Idt
init_idt isr irq address t =
    let ptr : TablePtr = record { limit = 8 * 256 - 1; base = address } in
    let pic : List (ℕ × ℕ) =
      (0xA1, 0)
      ∷ (0x21, 0)
      ∷ (0xA1, 1)
      ∷ (0x21, 1)
      ∷ (0xA1, 2)
      ∷ (0x21, 4)
      ∷ (0xA1, 0x28)
      ∷ (0x21, 0x20)
      ∷ (0xA0, 0x11)
      ∷ (0x20, 0x11)
      ∷ t.ports in
    let cleared : Idt = record t { idt_ptr = ptr; idt_entries = λ j. zero_entry; ports = pic } in
    let gates = set_gates irq 16 32 0 (set_gates isr 32 0 0 cleared) in
    record gates { loaded = some gates.idt_ptr; enabled = true }

-- `genInterrupt`, with `interrupt n` for what the instruction `int n` does: the cases up to 23, and
-- the others.
module _ {S : Type 0} (interrupt : ℕ → S → S) where
  unfoldable pub gen_interrupt_high : ℕ → S → S
  gen_interrupt_high num s =
      if num == 24
      then interrupt 24 s
      else if num == 25
      then interrupt 25 s
      else if num == 26
      then interrupt 26 s
      else if num == 27
      then interrupt 27 s
      else if num == 28
      then interrupt 28 s
      else if num == 29
      then interrupt 29 s
      else if num == 30
      then interrupt 30 s
      else if num == 31
      then interrupt 31 s
      else if num == 32
      then interrupt 32 s
      else if num == 33
      then interrupt 33 s
      else if num == 34
      then interrupt 34 s
      else if num == 35
      then interrupt 35 s
      else if num == 36
      then interrupt 36 s
      else if num == 37
      then interrupt 37 s
      else if num == 38
      then interrupt 38 s
      else if num == 39
      then interrupt 39 s
      else if num == 40
      then interrupt 40 s
      else if num == 41
      then interrupt 41 s
      else if num == 42
      then interrupt 42 s
      else if num == 43
      then interrupt 43 s
      else if num == 44
      then interrupt 44 s
      else if num == 45
      then interrupt 45 s
      else if num == 46
      then interrupt 46 s
      else if num == 47
      then interrupt 47 s
      else s

  unfoldable pub gen_interrupt : ℕ → S → S
  gen_interrupt num s =
      if num == 0
      then interrupt 0 s
      else if num == 1
      then interrupt 1 s
      else if num == 2
      then interrupt 2 s
      else if num == 3
      then interrupt 3 s
      else if num == 4
      then interrupt 4 s
      else if num == 5
      then interrupt 5 s
      else if num == 6
      then interrupt 6 s
      else if num == 7
      then interrupt 7 s
      else if num == 8
      then interrupt 8 s
      else if num == 9
      then interrupt 9 s
      else if num == 10
      then interrupt 10 s
      else if num == 11
      then interrupt 11 s
      else if num == 12
      then interrupt 12 s
      else if num == 13
      then interrupt 13 s
      else if num == 14
      then interrupt 14 s
      else if num == 15
      then interrupt 15 s
      else if num == 16
      then interrupt 16 s
      else if num == 17
      then interrupt 17 s
      else if num == 18
      then interrupt 18 s
      else if num == 19
      then interrupt 19 s
      else if num == 20
      then interrupt 20 s
      else if num == 21
      then interrupt 21 s
      else if num == 22
      then interrupt 22 s
      else if num == 23
      then interrupt 23 s
      else gen_interrupt_high num s
