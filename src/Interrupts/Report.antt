-- ===== src/Interrupts/Report.antt =====
-- The texts that describe interrupts, and the report of `isr_handler` (the build defines
-- KERNEL_DEBUG).
use jslk.Base.{ℕ, List, [], leb, write, ◌∷◌, if◌then◌else◌}
use jslk.Console.{Console, kprint}
use jslk.Console.Numbers.{kernel_print_dec}

-- "Division by zero"
abbrev division_by_zero : List ℕ
division_by_zero =
    68 ∷ 105 ∷ 118 ∷ 105 ∷ 115 ∷ 105 ∷ 111 ∷ 110 ∷ 32 ∷ 98 ∷ 121 ∷ 32 ∷ 122 ∷ 101 ∷ 114 ∷ 111 ∷ []

-- "Debug Exception"
abbrev debug_exception : List ℕ
debug_exception =
    68 ∷ 101 ∷ 98 ∷ 117 ∷ 103 ∷ 32 ∷ 69 ∷ 120 ∷ 99 ∷ 101 ∷ 112 ∷ 116 ∷ 105 ∷ 111 ∷ 110 ∷ []

-- "Non maskable interrupt"
abbrev non_maskable_interrupt : List ℕ
non_maskable_interrupt =
    78 ∷ 111 ∷ 110 ∷ 32 ∷ 109 ∷ 97 ∷ 115 ∷ 107 ∷ 97 ∷ 98 ∷ 108 ∷ 101 ∷ 32 ∷ 105 ∷ 110 ∷ 116 ∷ 101
    ∷ 114 ∷ 114 ∷ 117 ∷ 112 ∷ 116 ∷ []

-- "Breakpointeption Exception"
abbrev breakpointeption_exception : List ℕ
breakpointeption_exception =
    66 ∷ 114 ∷ 101 ∷ 97 ∷ 107 ∷ 112 ∷ 111 ∷ 105 ∷ 110 ∷ 116 ∷ 101 ∷ 112 ∷ 116 ∷ 105 ∷ 111 ∷ 110 ∷ 32
    ∷ 69 ∷ 120 ∷ 99 ∷ 101 ∷ 112 ∷ 116 ∷ 105 ∷ 111 ∷ 110 ∷ []

-- "Into detected overflow"
abbrev into_detected_overflow : List ℕ
into_detected_overflow =
    73 ∷ 110 ∷ 116 ∷ 111 ∷ 32 ∷ 100 ∷ 101 ∷ 116 ∷ 101 ∷ 99 ∷ 116 ∷ 101 ∷ 100 ∷ 32 ∷ 111 ∷ 118 ∷ 101
    ∷ 114 ∷ 102 ∷ 108 ∷ 111 ∷ 119 ∷ []

-- "Out of bounds exception"
abbrev out_of_bounds_exception : List ℕ
out_of_bounds_exception =
    79 ∷ 117 ∷ 116 ∷ 32 ∷ 111 ∷ 102 ∷ 32 ∷ 98 ∷ 111 ∷ 117 ∷ 110 ∷ 100 ∷ 115 ∷ 32 ∷ 101 ∷ 120 ∷ 99
    ∷ 101 ∷ 112 ∷ 116 ∷ 105 ∷ 111 ∷ 110 ∷ []

-- "Invalid opcode"
abbrev invalid_opcode : List ℕ
invalid_opcode = 73 ∷ 110 ∷ 118 ∷ 97 ∷ 108 ∷ 105 ∷ 100 ∷ 32 ∷ 111 ∷ 112 ∷ 99 ∷ 111 ∷ 100 ∷ 101 ∷ []

-- "No coprocessor exception"
abbrev no_coprocessor_exception : List ℕ
no_coprocessor_exception =
    78 ∷ 111 ∷ 32 ∷ 99 ∷ 111 ∷ 112 ∷ 114 ∷ 111 ∷ 99 ∷ 101 ∷ 115 ∷ 115 ∷ 111 ∷ 114 ∷ 32 ∷ 101 ∷ 120
    ∷ 99 ∷ 101 ∷ 112 ∷ 116 ∷ 105 ∷ 111 ∷ 110 ∷ []

-- "Double Fault"
abbrev double_fault : List ℕ
double_fault = 68 ∷ 111 ∷ 117 ∷ 98 ∷ 108 ∷ 101 ∷ 32 ∷ 70 ∷ 97 ∷ 117 ∷ 108 ∷ 116 ∷ []

-- "Coprocessor segment overrun"
abbrev coprocessor_segment_overrun : List ℕ
coprocessor_segment_overrun =
    67 ∷ 111 ∷ 112 ∷ 114 ∷ 111 ∷ 99 ∷ 101 ∷ 115 ∷ 115 ∷ 111 ∷ 114 ∷ 32 ∷ 115 ∷ 101 ∷ 103 ∷ 109 ∷ 101
    ∷ 110 ∷ 116 ∷ 32 ∷ 111 ∷ 118 ∷ 101 ∷ 114 ∷ 114 ∷ 117 ∷ 110 ∷ []

-- "Bad TSS"
abbrev bad_tss : List ℕ
bad_tss = 66 ∷ 97 ∷ 100 ∷ 32 ∷ 84 ∷ 83 ∷ 83 ∷ []

-- "Segment not present"
abbrev segment_not_present : List ℕ
segment_not_present =
    83 ∷ 101 ∷ 103 ∷ 109 ∷ 101 ∷ 110 ∷ 116 ∷ 32 ∷ 110 ∷ 111 ∷ 116 ∷ 32 ∷ 112 ∷ 114 ∷ 101 ∷ 115 ∷ 101
    ∷ 110 ∷ 116 ∷ []

-- "Stack fault"
abbrev stack_fault : List ℕ
stack_fault = 83 ∷ 116 ∷ 97 ∷ 99 ∷ 107 ∷ 32 ∷ 102 ∷ 97 ∷ 117 ∷ 108 ∷ 116 ∷ []

-- "General Protection Fault"
abbrev general_protection_fault : List ℕ
general_protection_fault =
    71 ∷ 101 ∷ 110 ∷ 101 ∷ 114 ∷ 97 ∷ 108 ∷ 32 ∷ 80 ∷ 114 ∷ 111 ∷ 116 ∷ 101 ∷ 99 ∷ 116 ∷ 105 ∷ 111
    ∷ 110 ∷ 32 ∷ 70 ∷ 97 ∷ 117 ∷ 108 ∷ 116 ∷ []

-- "Page fault"
abbrev page_fault : List ℕ
page_fault = 80 ∷ 97 ∷ 103 ∷ 101 ∷ 32 ∷ 102 ∷ 97 ∷ 117 ∷ 108 ∷ 116 ∷ []

-- "Unknown interrupt exception"
abbrev unknown_interrupt_exception : List ℕ
unknown_interrupt_exception =
    85 ∷ 110 ∷ 107 ∷ 110 ∷ 111 ∷ 119 ∷ 110 ∷ 32 ∷ 105 ∷ 110 ∷ 116 ∷ 101 ∷ 114 ∷ 114 ∷ 117 ∷ 112
    ∷ 116 ∷ 32 ∷ 101 ∷ 120 ∷ 99 ∷ 101 ∷ 112 ∷ 116 ∷ 105 ∷ 111 ∷ 110 ∷ []

-- "Coprocessor fault"
abbrev coprocessor_fault : List ℕ
coprocessor_fault =
    67 ∷ 111 ∷ 112 ∷ 114 ∷ 111 ∷ 99 ∷ 101 ∷ 115 ∷ 115 ∷ 111 ∷ 114 ∷ 32 ∷ 102 ∷ 97 ∷ 117 ∷ 108 ∷ 116
    ∷ []

-- "Alignment check exception"
abbrev alignment_check_exception : List ℕ
alignment_check_exception =
    65 ∷ 108 ∷ 105 ∷ 103 ∷ 110 ∷ 109 ∷ 101 ∷ 110 ∷ 116 ∷ 32 ∷ 99 ∷ 104 ∷ 101 ∷ 99 ∷ 107 ∷ 32 ∷ 101
    ∷ 120 ∷ 99 ∷ 101 ∷ 112 ∷ 116 ∷ 105 ∷ 111 ∷ 110 ∷ []

-- "Machine check exception"
abbrev machine_check_exception : List ℕ
machine_check_exception =
    77 ∷ 97 ∷ 99 ∷ 104 ∷ 105 ∷ 110 ∷ 101 ∷ 32 ∷ 99 ∷ 104 ∷ 101 ∷ 99 ∷ 107 ∷ 32 ∷ 101 ∷ 120 ∷ 99
    ∷ 101 ∷ 112 ∷ 116 ∷ 105 ∷ 111 ∷ 110 ∷ []

-- "Reserved Interrupt"
abbrev reserved_interrupt : List ℕ
reserved_interrupt =
    82 ∷ 101 ∷ 115 ∷ 101 ∷ 114 ∷ 118 ∷ 101 ∷ 100 ∷ 32 ∷ 73 ∷ 110 ∷ 116 ∷ 101 ∷ 114 ∷ 114 ∷ 117 ∷ 112
    ∷ 116 ∷ []

-- `intDescription`, as it is before `addDescription` changes it.
abbrev pub int_description : List (List ℕ)
int_description =
    division_by_zero ∷ debug_exception ∷ non_maskable_interrupt ∷ breakpointeption_exception
    ∷ into_detected_overflow ∷ out_of_bounds_exception ∷ invalid_opcode ∷ no_coprocessor_exception
    ∷ double_fault ∷ coprocessor_segment_overrun ∷ bad_tss ∷ segment_not_present ∷ stack_fault
    ∷ general_protection_fault ∷ page_fault ∷ unknown_interrupt_exception ∷ coprocessor_fault
    ∷ alignment_check_exception ∷ machine_check_exception ∷ reserved_interrupt ∷ reserved_interrupt
    ∷ reserved_interrupt ∷ reserved_interrupt ∷ reserved_interrupt ∷ reserved_interrupt
    ∷ reserved_interrupt ∷ reserved_interrupt ∷ reserved_interrupt ∷ reserved_interrupt
    ∷ reserved_interrupt ∷ reserved_interrupt ∷ reserved_interrupt ∷ []

-- "Received interrupt: "
abbrev pub received_interrupt : List ℕ
received_interrupt =
    82 ∷ 101 ∷ 99 ∷ 101 ∷ 105 ∷ 118 ∷ 101 ∷ 100 ∷ 32 ∷ 105 ∷ 110 ∷ 116 ∷ 101 ∷ 114 ∷ 114 ∷ 117 ∷ 112
    ∷ 116 ∷ 58 ∷ 32 ∷ []

-- " ("
abbrev pub open_bracket : List ℕ
open_bracket = 32 ∷ 40 ∷ []

-- ") \n"
abbrev pub close_bracket : List ℕ
close_bracket = 41 ∷ 32 ∷ 10 ∷ []

-- `descriptions num` is the text at the pointer that the array has at the index, or, past its end,
-- at the word that stands there.
unfoldable pub report : (descriptions : ℕ → List ℕ) (num : ℕ) → Console → Console
report descriptions num s =
    let s1 = kernel_print_dec num (kprint received_interrupt s) in
    let s2 = kprint (descriptions num) (kprint open_bracket s1) in kprint close_bracket s2

-- "ERROR: Could not change interrupt description, interrupt locked"
abbrev description_locked : List ℕ
description_locked =
    69 ∷ 82 ∷ 82 ∷ 79 ∷ 82 ∷ 58 ∷ 32 ∷ 67 ∷ 111 ∷ 117 ∷ 108 ∷ 100 ∷ 32 ∷ 110 ∷ 111 ∷ 116 ∷ 32 ∷ 99
    ∷ 104 ∷ 97 ∷ 110 ∷ 103 ∷ 101 ∷ 32 ∷ 105 ∷ 110 ∷ 116 ∷ 101 ∷ 114 ∷ 114 ∷ 117 ∷ 112 ∷ 116 ∷ 32
    ∷ 100 ∷ 101 ∷ 115 ∷ 99 ∷ 114 ∷ 105 ∷ 112 ∷ 116 ∷ 105 ∷ 111 ∷ 110 ∷ 44 ∷ 32 ∷ 105 ∷ 110 ∷ 116
    ∷ 101 ∷ 114 ∷ 114 ∷ 117 ∷ 112 ∷ 116 ∷ 32 ∷ 108 ∷ 111 ∷ 99 ∷ 107 ∷ 101 ∷ 100 ∷ []

-- `addDescription`. The index is not compared with the array's end.
unfoldable pub add_description :
    (num : ℕ) (description : List ℕ) (descriptions : ℕ → List ℕ) → Console → (ℕ → List ℕ) × Console
add_description num description descriptions s =
    if leb num 19
    then (descriptions, kprint description_locked s)
    else (write descriptions num description, s)
