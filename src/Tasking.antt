-- ===== src/Tasking.antt =====
-- hal/x86/tasking/process.c: the move of the kernel's stack.
pub mod Relocate
mod Tests
use jslk.Base.{
  ℕ, zero, suc, min, max, bit_and, bit_or, refl, sym, ap, fun_ext, inl, inr, Bool, true, false, not,
  Option, none, some, List, [], map, arith, ltb, leb, ltb→lt, ltb→le, lt→ltb, le→ltb, ==→eq, ==→ne,
  eq→==, ne→==, Bool-cases, tests, write, write_self, write_ne, length, get_or, length-append, ◌+◌,
  ◌-◌, ◌*◌, ◌/◌, ◌%◌, ◌^◌, ◌≤◌, ◌<◌, ◌≡◌, ◌∙◌, ◌≢◌, ◌↔◌, ◌⊎◌, ◌&&◌, ◌||◌, ◌∷◌, ◌++◌, ◌==◌,
  if◌then◌else◌,
}
use jslk.Base.Memory.{Memory, load32, store32}
use jslk.Base.Outcome.{Outcome, done, no_fuel, ◌>>=◌}
use jslk.Heap.{u32, sub32}
use jslk.Strings.{memcpy}
use jslk.Paging.{Allocator, Paging, get_page, alloc_frame_at}

-- The memory that the stacks lie in, the processor's stack pointers, and the state of the paging
-- code.
pub record Task (A : Type 0) : Type 0 where
  pub memory : Memory
  pub esp : ℕ
  pub ebp : ℕ
  pub paging : Paging A

-- `i <= new_stack_start - size`, of words.
unfoldable pub alloc_stack :
    {A : Type 0} (kmalloc : Allocator A) (undefined : ℕ) (rounds i limit : ℕ)
    → Paging A
    → Outcome (Paging A)
alloc_stack kmalloc undefined zero i limit s = if leb i limit then no_fuel else done s
alloc_stack kmalloc undefined (suc n) i limit s =
    let mapped = get_page kmalloc undefined i 1 s.current_directory s >>= λ (p, s').
    alloc_frame_at kmalloc undefined p false true s' >>= λ s''.
    alloc_stack kmalloc undefined n (sub32 i 0x1000) limit s'' in
    if leb i limit then mapped else done s

-- The loop that moves the pointers into the old stack, which lies above `low` and below `high`.
unfoldable pub relocate : (rounds i limit low high offset : ℕ) → Memory → Outcome Memory
relocate zero i limit low high offset m = if ltb limit i then no_fuel else done m
relocate (suc n) i limit low high offset m =
    let tmp = load32 m i in
    let m' = if ltb low tmp && ltb tmp high then store32 m i (u32 (tmp + offset)) else m in
    let rest = relocate n (sub32 i 4) limit low high offset m' in
    if ltb limit i then rest else done m

unfoldable pub move_stack :
    {A : Type 0} (kmalloc : Allocator A) (undefined initial_esp : ℕ)
    (rounds new_stack_start size : ℕ)
    → Task A
    → Outcome (Task A)
unfolding alloc_stack relocate
move_stack kmalloc undefined initial_esp rounds new_stack_start size t = do
  let limit = sub32 new_stack_start size
  s ← alloc_stack kmalloc undefined rounds new_stack_start limit t.paging
  let offset = sub32 new_stack_start initial_esp
  let new_stack_pointer = u32 (t.esp + offset)
  let new_base_pointer = u32 (t.ebp + offset)
  let m = memcpy t.memory new_stack_pointer t.esp (sub32 initial_esp t.esp)
  m' ← relocate rounds new_stack_start limit t.esp initial_esp offset m
  done (record t { memory = m'; esp = new_stack_pointer; ebp = new_base_pointer; paging = s })
