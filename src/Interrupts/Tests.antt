-- ===== src/Interrupts/Tests.antt =====
-- Runs of the tables, and the theorems at tables that no registration has touched.
use jslk.Base.{
  ℕ, refl, true, false, List, [], arith, get_or, ◌+◌, ◌≤◌, ◌≡◌, ◌∷◌, ◌==◌, if◌then◌else◌,
}
use jslk.Interrupts.{Tables, Locals, read_flags, register_interrupt_handler}
use jslk.Interrupts.Register.{SameTables, register_outcome}
use jslk.Console.{Console, kprint}
use jslk.Console.Numbers.{kernel_print_dec}
use jslk.Interrupts.Report.{int_description, received_interrupt, open_bracket, close_bracket}
use jslk.Interrupts.Dispatch.{Machine, isr_handler, register-isr_handler}

abbrev empty : Tables
empty = record {
  hi = λ i. record {
    initialized = false;
    has_handler = false;
    handler = 0;
    is_chained = false;
    chain_protect = false;
  };
  chained = λ i. record {
    initialized = false;
    total_handlers = 0;
    free_protect = false;
    chain_lock = false;
  };
  null_cells = λ i. 0;
  enabled = true;
}

abbrev clean : Locals
clean = record {
  is_chained = false;
  chain_protect = false;
  free_protect = false;
  chain_lock = false;
}

abbrev wants_chain : Locals
wants_chain = record clean { is_chained = true }

-- NF alone, and CHAINED_INTERRUPT, NF.
abbrev no_flags : ℕ → ℕ
no_flags i = 5

abbrev chain_flag : ℕ → ℕ
chain_flag i = if i == 0 then 1 else 5

-- A chain of two with FREE_PROTECT.
abbrev kept : Tables
kept = record empty {
  hi = λ i. record {
    initialized = false;
    has_handler = true;
    handler = 0;
    is_chained = true;
    chain_protect = false;
  };
  chained = λ i. record {
    initialized = true;
    total_handlers = 1;
    free_protect = true;
    chain_lock = false;
  };
  null_cells = λ i. i + 700;
}

-- A handler that leaves the tables alone and writes its address to port 1.
abbrev say : ℕ → Machine → Machine
say h s = record s { ports = (1, h) ∷ s.ports }

plain_flags : (read_flags 6 no_flags 0 clean).is_chained ≡ false
unfolding read_flags
plain_flags = refl

chain_flags : (read_flags 6 chain_flag 0 clean).is_chained ≡ true
unfolding read_flags
chain_flags = refl

register_outcome_example :
    let (t', code) = register_interrupt_handler clean empty 50 900 no_flags in
    (t'.enabled ≡ true) × (code ≤ 1) × SameTables empty (if code == 1 then t' else empty)
register_outcome_example = register_outcome clean empty 50 900 no_flags

abbrev screen : Console
screen = record {
  cursorx = 0;
  cursory = 1;
  console_color = 7;
  clear_calls = 0;
  terminal_buffer = λ i. 0;
  ports = [];
}

abbrev described : ℕ → List ℕ
described i = get_or int_description i []

register-isr_handler_example :
    let s : Machine = record {
      tables = (register_interrupt_handler clean empty 14 900 no_flags).0;
      descriptions = described;
      console = screen;
      ports = [];
    } in
    isr_handler say 14 s
    ≡ say 900 (record s {
      console = kprint close_bracket (
          kprint
            (described 14)
            (kprint open_bracket (kernel_print_dec 14 (kprint received_interrupt screen))));
    })
register-isr_handler_example =
    register-isr_handler say clean empty 14 900 no_flags [] described screen plain_flags
      (omega arith) refl refl
