-- ===== src/DescriptorTables/Tests.antt =====
-- The theorems at tables that hold nothing yet.
use jslk.Base.{false, none, [], arith}
use jslk.DescriptorTables.{GdtEntry, TablePtr, Gdt, Idt, init_idt, zero_entry}
use jslk.DescriptorTables.Gates.{IsGate, init_idt-IsGate}

abbrev no_segment : GdtEntry
no_segment = record {
  limit_low = 0;
  base_low = 0;
  base_middle = 0;
  flags = 0;
  gran = 0;
  base_high = 0;
}

abbrev null_ptr : TablePtr
null_ptr = record { limit = 0; base = 0 }

abbrev empty_gdt : Gdt
empty_gdt = record {
  gdt_entries = λ j. no_segment;
  segment_status = λ j. false;
  gdt_ptr = null_ptr;
  loaded = none;
}

abbrev empty_idt : Idt
empty_idt = record {
  idt_entries = λ j. zero_entry;
  idt_ptr = null_ptr;
  loaded = none;
  ports = [];
  enabled = false;
}

init_idt-IsGate_example :
    IsGate ((init_idt (λ j. 0x100000) (λ j. 0x200000) 0x300000 empty_idt).idt_entries 33) 0x200000
init_idt-IsGate_example =
    init_idt-IsGate (λ j. 0x100000) (λ j. 0x200000) 0x300000 33 empty_idt (λ j. omega arith)
      (λ j. omega arith)
