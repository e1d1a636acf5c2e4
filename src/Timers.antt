-- ===== src/Timers.antt =====
-- kernel/timer.c and hal/x86/drivers/pit.c: the timers, and the interval timer that drives them.
pub mod Fire
mod Tests
use jslk.Base.{
  ℕ, zero, suc, min, max, bit_and, bit_or, refl, sym, ap, fun_ext, inl, inr, Bool, true, false, not,
  Option, none, some, List, [], map, arith, ltb, leb, ltb→lt, ltb→le, lt→ltb, le→ltb, ==→eq, ==→ne,
  eq→==, ne→==, Bool-cases, tests, write, write_self, write_ne, length, get_or, length-append, ◌+◌,
  ◌-◌, ◌*◌, ◌/◌, ◌%◌, ◌^◌, ◌≤◌, ◌<◌, ◌≡◌, ◌∙◌, ◌≢◌, ◌↔◌, ◌⊎◌, ◌&&◌, ◌||◌, ◌∷◌, ◌++◌, ◌==◌,
  if◌then◌else◌,
}
use jslk.Base.Outcome.{Outcome, done, panic, no_fuel, ◌>>=◌}
use jslk.Heap.{u32}
use jslk.Interrupts.{Locals, register_interrupt_handler}
use jslk.Interrupts.Dispatch.{Machine, outb}

-- `timer` is a `float`, of a type `T` of the model's user. Listeners are addresses.
pub record Timer (T : Type 0) : Type 0 where
  pub timer : T
  pub listener : ℕ
  pub timer_status : ℕ

-- `machine` is all else that a listener may change.
pub record Clock (T M : Type 0) : Type 0 where
  pub total_timers : ℕ
  pub sys_timers : ℕ → Timer T
  pub sys_ticks : ℕ
  pub machine : M

-- `deadline time ticks` is `(time * TICKSTOSEC) + ticks` and `due timer ticks` is `timer <= ticks`,
-- both of floating point. `call h` is what the listener at the address `h` does.
module _ {T M : Type 0} (due : T → ℕ → Bool) (call : ℕ → Clock T M → Clock T M) where
  -- The loop of `checkTimers`: a listener may register a timer, so the total is read in each round.
  unfoldable pub check_from : (rounds i : ℕ) → Clock T M → Outcome (Clock T M)
  check_from zero i s = if ltb i s.total_timers then no_fuel else done s
  check_from (suc n) i s =
      let timer = s.sys_timers i in
      let fired =
        call timer.listener
          (record s { sys_timers = write s.sys_timers i (record timer { timer_status = 1 }) }) in
      let now = due timer.timer s.sys_ticks && not (timer.timer_status == 1) in
      let rest = check_from n (i + 1) (if now then fired else s) in
      if ltb i s.total_timers then rest else done s

  unfoldable pub check_timers : (rounds : ℕ) → Clock T M → Outcome (Clock T M)
  unfolding check_from
  check_timers rounds s = if s.total_timers == 0 then done s else check_from rounds 0 s

  unfoldable pub pit_handler : (rounds : ℕ) → Clock T M → Outcome (Clock T M)
  unfolding check_timers
  pit_handler rounds s = check_timers rounds (record s { sys_ticks = u32 (s.sys_ticks + 1) })

-- `sysTimers` has ten cells, and no test for an eleventh timer.
unfoldable pub register_timer :
    {T M F : Type 0} (deadline : F → ℕ → T) → (time : F) → (listener : ℕ) → Clock T M → Clock T M
register_timer deadline time listener s = record s {
  sys_timers =
      write s.sys_timers s.total_timers
        (record { timer = deadline time s.sys_ticks; listener = listener; timer_status = 0 });
  total_timers = u32 (s.total_timers + 1);
}

-- `handler` is the address of `pitHandler`, `stack` what the local variables of
-- `registerInterruptHandler` hold, and `args` the words behind its arguments. A division by 0 is a
-- fault of the processor.
unfoldable pub start_pit :
    (handler : ℕ) (stack : Locals) (args : ℕ → ℕ) → (freq : ℕ) → Machine → Outcome Machine
unfolding outb
start_pit handler stack args freq s =
    let words : ℕ → ℕ = λ i. if i == 0 then 2 else if i == 1 then 5 else args i in
    let (tables, _) = register_interrupt_handler stack s.tables 32 handler words in
    let divisor = 1193180 / freq in
    let l = bit_and divisor 0xFF in
    let h = bit_and (divisor / 2 ^ 8) 0xFF in
    if freq == 0
    then panic
    else done (outb 0x40 h (outb 0x40 l (outb 0x46 0x36 (record s { tables = tables }))))
