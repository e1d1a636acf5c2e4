-- ===== src/Timers/Fire.antt =====
-- Which timers fire, and how often; the divisor of the interval timer.
use jslk.Base.{
  ℕ, zero, suc, bit_and, refl, sym, ap, inl, inr, Bool, false, not, arith, ltb, ltb→lt, ltb→le,
  ==→eq, ==→ne, ne→==, Bool-cases, write, write_self, write_ne, ◌+◌, ◌-◌, ◌*◌, ◌/◌, ◌%◌, ◌^◌, ◌≤◌,
  ◌<◌, ◌≡◌, ◌∙◌, ◌&&◌, ◌∷◌, ◌==◌, if◌then◌else◌,
}
use jslk.Timers.{Timer, Clock, check_from, check_timers, start_pit}
use jslk.Base.Outcome.{done}
use jslk.Base.Bits.{bit_and_mask}
use native.Mathlib.Nat.{div-lt_iff_lt-mul}
use jslk.Interrupts.{register_interrupt_handler, Locals}
use jslk.Interrupts.Dispatch.{Machine, outb}

-- The two bytes that `start_pit` sends last are the high and the low byte of the divisor, which
-- they hold in full from 19 Hz on; it sends them behind the command byte.
pub start_pit-divisor :
    (handler freq : ℕ) (stack : Locals) (args : ℕ → ℕ) (s : Machine)
    → 19 ≤ freq
    → (l h : ℕ) × (s' : Machine) × (start_pit handler stack args freq s ≡ done s')
      × (s'.ports ≡ (0x40, h) ∷ (0x40, l) ∷ (0x46, 0x36) ∷ s.ports)
      × (l < 256)
      × (h < 256)
      × (l + 256 * h ≡ 1193180 / freq)
unfolding start_pit outb
start_pit-divisor handler freq stack args s fast =
    let divisor = 1193180 / freq in
    let some_freq : (freq == 0) ≡ false = ne→== freq 0 (λ e. absurd (omega arith)) in
    let low : bit_and divisor 0xFF ≡ divisor % 256 = bit_and_mask divisor 8 in
    let high : bit_and (divisor / 2 ^ 8) 0xFF ≡ divisor / 256 % 256 =
      bit_and_mask (divisor / 2 ^ 8) 8 in
    let small : divisor < 65536 = (div-lt_iff_lt-mul {k = freq} (omega arith)).1 (omega arith) in
    (
      divisor % 256,
      divisor / 256 % 256,
      outb 0x40 (divisor / 256 % 256) (
          outb 0x40 (divisor % 256) (
            outb 0x46 0x36 (record s {
              tables =
                  (register_interrupt_handler stack s.tables 32 handler
                    (λ i. if i == 0 then 2 else if i == 1 then 5 else args i)).0;
            }))),
      rw (some_freq, low, high) refl,
      refl,
      omega arith,
      omega arith,
      omega arith,
    )

-- `checkTimers` with listeners that change no timer: `act h` is what the listener `h` does to the
-- machine.
module _ {T M : Type 0} (due : T → ℕ → Bool) (act : ℕ → M → M) where
  -- The listener `h` leaves the timers as they are.
  abbrev pub quiet : ℕ → Clock T M → Clock T M
  quiet h s = record s { machine = act h s.machine }

  -- The timer has its time behind it and has not fired.
  abbrev pub ready : (ticks : ℕ) → Timer T → Bool
  ready ticks timer = due timer.timer ticks && not (timer.timer_status == 1)

  -- The listeners of the ready timers among `n` from `i` on are called in order.
  unfoldable pub act_all : (ticks : ℕ) → (ℕ → Timer T) → (n i : ℕ) → M → M
  act_all ticks timers zero i m = m
  act_all ticks timers (suc n) i m =
      act_all ticks timers n (i + 1)
        (if ready ticks (timers i) then act (timers i).listener m else m)

  not_ready_done :
      (ticks : ℕ) (timer : Timer T) → ready ticks (record timer { timer_status = 1 }) ≡ false
  not_ready_done ticks timer = elim (Bool-cases (due timer.timer ticks)) [
    | inl e ↦ rw e refl
    | inr e ↦ rw e refl
  ]

  act_all_same :
      (ticks n i : ℕ) (timers timers' : ℕ → Timer T) (m : M)
      → ((j : ℕ) → i ≤ j → timers' j ≡ timers j)
      → act_all ticks timers' n i m ≡ act_all ticks timers n i m
  unfolding act_all
  act_all_same ticks zero i timers timers' m same = refl
  act_all_same ticks (suc n) i timers timers' m same =
      rw (same i (omega arith))
        (act_all_same ticks n (i + 1) timers timers' _ (λ j le. same j (omega arith)))

  act_all_none :
      (ticks n i : ℕ) (timers : ℕ → Timer T) (m : M)
      → ((j : ℕ) → i ≤ j → j < i + n → ready ticks (timers j) ≡ false)
      → act_all ticks timers n i m ≡ m
  unfolding act_all
  act_all_none ticks zero i timers m idle = refl
  act_all_none ticks (suc n) i timers m idle =
      rw (idle i (omega arith) (omega arith))
        (act_all_none ticks n (i + 1) timers m (λ j lo hi. idle j (omega arith) (omega arith)))

  act_all_step :
      (ticks n k i : ℕ) (timers : ℕ → Timer T) (m : M) {b : Bool}
      → k ≡ suc n
      → ready ticks (timers i) ≡ b
      → act_all ticks timers k i m
        ≡ act_all ticks timers n (i + 1) (if b then act (timers i).listener m else m)
  unfolding act_all
  act_all_step ticks n k i timers m e r = rw (e, r) refl

  idle_step :
      (ticks i last : ℕ) (timers : ℕ → Timer T)
      → ready ticks (timers i) ≡ false
      → ((j : ℕ) → i + 1 ≤ j → j < last → ready ticks (timers j) ≡ false)
      → (j : ℕ) → i ≤ j
      → j < last
      → ready ticks (timers j) ≡ false
  idle_step ticks i last timers here later j lo hi = elim (Bool-cases (j == i)) [
    | inl e ↦ rw (==→eq j i e) here
    | inr e ↦ let ne = ==→ne j i e in later j (omega arith) hi
  ]

  check_from-act_all :
      (rounds i : ℕ) (s : Clock T M)
      → s.total_timers ≤ i + rounds
      → i ≤ s.total_timers
      → (s' : Clock T M) × (check_from due quiet rounds i s ≡ done s')
        × (s'.total_timers ≡ s.total_timers)
        × (s'.sys_ticks ≡ s.sys_ticks)
        × ((j : ℕ) → i ≤ j → j < s.total_timers → ready s.sys_ticks (s'.sys_timers j) ≡ false)
        × ((j : ℕ) → j < i → s'.sys_timers j ≡ s.sys_timers j)
        × (s'.machine ≡ act_all s.sys_ticks s.sys_timers (s.total_timers - i) i s.machine)
  unfolding check_from act_all
  check_from-act_all zero i s enough le =
      let stop : ltb i s.total_timers ≡ false = ground arith in
      let none_left : s.total_timers - i ≡ 0 = omega arith in
      rw (stop, none_left)
        (s, refl, refl, refl, (λ j lo hi. absurd (omega arith)), (λ j lt. refl), refl)
  check_from-act_all (suc n) i s enough le = elim (Bool-cases (ltb i s.total_timers)) [
    | inr e ↦
        let past = ltb→le i s.total_timers e in
        let none_left : s.total_timers - i ≡ 0 = omega arith in
        rw (e, none_left)
          (s, refl, refl, refl, (λ j lo hi. absurd (omega arith)), (λ j lt. refl), refl)
    | inl e ↦
        let more = ltb→lt i s.total_timers e in
        let left : s.total_timers - i ≡ suc (s.total_timers - (i + 1)) = omega arith in
        elim (Bool-cases (ready s.sys_ticks (s.sys_timers i))) [
          | inl r ↦
              let old = s.sys_timers i in
              let fired : Timer T = record old { timer_status = 1 } in
              let s1 : Clock T M = record s {
                sys_timers = write s.sys_timers i fired;
                machine = act old.listener s.machine;
              } in
              let (s', run, totals, ticks, idle, before, machine) =
                check_from-act_all n (i + 1) s1 (omega arith) (omega arith) in
              let done_here : s'.sys_timers i ≡ fired =
                before i (omega arith) ∙ write_self s.sys_timers i fired in
              (
                s',
                rw (e, r) run,
                totals,
                ticks,
                idle_step s.sys_ticks i s.total_timers s'.sys_timers
                    (rw done_here (not_ready_done s.sys_ticks old)) idle,
                (λ j lt. before j (omega arith) ∙ write_ne s.sys_timers i j fired (omega arith)),
                machine
                    ∙ act_all_same s.sys_ticks (s.total_timers - (i + 1)) (i + 1) s.sys_timers
                        s1.sys_timers (act old.listener s.machine)
                        (λ j lo. write_ne s.sys_timers i j fired (omega arith))
                    ∙ sym (
                        act_all_step s.sys_ticks (s.total_timers - (i + 1)) (s.total_timers - i) i
                          s.sys_timers s.machine left r),
              )
          | inr r ↦
              let (s', run, totals, ticks, idle, before, machine) =
                check_from-act_all n (i + 1) s (omega arith) (omega arith) in
              (
                s',
                rw (e, r) run,
                totals,
                ticks,
                idle_step s.sys_ticks i s.total_timers s'.sys_timers (rw (before i (omega arith)) r)
                    idle,
                (λ j lt. before j (omega arith)),
                machine
                    ∙ sym (
                        act_all_step s.sys_ticks (s.total_timers - (i + 1)) (s.total_timers - i) i
                          s.sys_timers s.machine left r),
              )
        ]
  ]

  check_timers_run :
      (rounds : ℕ) (s : Clock T M)
      → check_timers due quiet rounds s ≡ check_from due quiet rounds 0 s
  unfolding check_timers check_from
  check_timers_run zero s = ground arith
  check_timers_run (suc n) s = elim (Bool-cases (s.total_timers == 0)) [
    | inl e ↦ let empty : ltb 0 s.total_timers ≡ false = ground arith in rw (e, empty) refl
    | inr e ↦ rw e refl
  ]

  -- `checkTimers` returns, given as many rounds as there are timers. It calls the listeners of the
  -- timers whose time has come and that have not fired, in their order, and no other. A second call
  -- right behind it returns too and calls nothing: each timer fires once. The listeners change no
  -- timer.
  pub check_timers_once :
      (rounds : ℕ) (s : Clock T M)
      → s.total_timers ≤ rounds
      → (s' : Clock T M) × (check_timers due quiet rounds s ≡ done s')
        × (s'.machine ≡ act_all s.sys_ticks s.sys_timers s.total_timers 0 s.machine)
        × ((s'' : Clock T M) × (check_timers due quiet rounds s' ≡ done s'')
            × (s''.machine ≡ s'.machine))
  check_timers_once rounds s enough =
      let all : s.total_timers - 0 ≡ s.total_timers = omega arith in
      let (s', run, totals, ticks, idle, before, machine) =
        check_from-act_all rounds 0 s (omega arith) (omega arith) in
      let (s'', run', _, _, _, _, machine') =
        check_from-act_all rounds 0 s' (omega arith) (omega arith) in
      (
        s',
        check_timers_run rounds s ∙ run,
        machine ∙ ap (λ (k : ℕ). act_all s.sys_ticks s.sys_timers k 0 s.machine) all,
        (
          s'',
          check_timers_run rounds s' ∙ run',
          machine'
              ∙ act_all_none s'.sys_ticks (s'.total_timers - 0) 0 s'.sys_timers s'.machine
                  (λ j lo hi. rw ticks (idle j lo (omega arith))),
        ),
      )
