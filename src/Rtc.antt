-- ===== src/Rtc.antt =====
-- hal/x86/drivers/rtc/rtc.c: the time of the real-time clock.
pub mod Steady
mod Tests
use jslk.Base.{
  ℕ, zero, suc, min, max, bit_and, bit_or, refl, sym, ap, fun_ext, inl, inr, Bool, true, false, not,
  Option, none, some, List, [], map, arith, ltb, leb, ltb→lt, ltb→le, lt→ltb, le→ltb, ==→eq, ==→ne,
  eq→==, ne→==, Bool-cases, tests, write, write_self, write_ne, length, get_or, length-append, ◌+◌,
  ◌-◌, ◌*◌, ◌/◌, ◌%◌, ◌^◌, ◌≤◌, ◌<◌, ◌≡◌, ◌∙◌, ◌≢◌, ◌↔◌, ◌⊎◌, ◌&&◌, ◌||◌, ◌∷◌, ◌++◌, ◌==◌,
  if◌then◌else◌,
}
use jslk.Base.Outcome.{Outcome, done, no_fuel, ◌>>=◌}

-- The clock's registers behind the ports 0x70 and 0x71. `values k r` is what the register `r` holds
-- at the read number `k`; `reads` counts the reads, and `ports` is what was written, the latest
-- first.
pub record Cmos : Type 0 where
  pub values : ℕ → ℕ → ℕ
  pub reads : ℕ
  pub ports : List (ℕ × ℕ)

pub record RtcTime : Type 0 where
  pub seconds : ℕ
  pub minutes : ℕ
  pub hours : ℕ
  pub week_day : ℕ
  pub month_day : ℕ
  pub month : ℕ
  pub year : ℕ

abbrev pub rtc_status : ℕ
rtc_status = 0x0A

abbrev pub rtc_regb : ℕ
rtc_regb = 0x0B

-- The register is selected by a byte, and its value is a byte.
unfoldable pub get_rtc_reg : (reg : ℕ) → Cmos → ℕ × Cmos
get_rtc_reg reg c =
    (c.values c.reads reg % 2 ^ 8, record c { reads = c.reads + 1; ports = (0x70, reg) ∷ c.ports })

unfoldable pub check_rtc_update : Cmos → Bool × Cmos
unfolding get_rtc_reg
check_rtc_update c =
    let (status, c') = get_rtc_reg rtc_status c in (not (bit_and status 0x80 == 0), c')

-- `while (checkRtcUpdate()) {}`
unfoldable pub wait_update : (rounds : ℕ) → Cmos → Outcome Cmos
unfolding check_rtc_update
wait_update zero c = no_fuel
wait_update (suc n) c =
    let (updating, c') = check_rtc_update c in
    let rest = wait_update n c' in if updating then rest else done c'

-- The reads of the seven registers.
unfoldable pub read_registers : Cmos → RtcTime × Cmos
unfolding get_rtc_reg
read_registers c =
    let (seconds, c1) = get_rtc_reg 0 c in
    let (minutes, c2) = get_rtc_reg 2 c1 in
    let (hours, c3) = get_rtc_reg 4 c2 in
    let (week_day, c4) = get_rtc_reg 6 c3 in
    let (month_day, c5) = get_rtc_reg 7 c4 in
    let (month, c6) = get_rtc_reg 8 c5 in
    let (year, c7) = get_rtc_reg 9 c6 in
    (
      record {
        seconds = seconds;
        minutes = minutes;
        hours = hours;
        week_day = week_day;
        month_day = month_day;
        month = month;
        year = year;
      },
      c7,
    )

abbrev pub bcd : ℕ → ℕ
bcd x = bit_and x 0x0F + x / 16 * 10

unfoldable pub bcd_hours : ℕ → ℕ
bcd_hours hours = bit_or (bit_and hours 0x0F + bit_and hours 0x70 / 16 * 10) (bit_and hours 0x80)

-- The two conversions. Their tests are of the number of the register B, not of its value.
unfoldable pub convert : RtcTime → RtcTime
unfolding bcd_hours
convert t =
    let t' : RtcTime =
      if bit_and rtc_regb 0x04 == 0
      then (record {
        seconds = bcd t.seconds;
        minutes = bcd t.minutes;
        hours = bcd_hours t.hours;
        week_day = bcd t.week_day;
        month_day = bcd t.month_day;
        month = bcd t.month;
        year = bcd t.year;
      })
      else t in
    if (bit_and rtc_regb 0x02 == 0) && not (bit_and t'.hours 0x80 == 0)
    then record t' { hours = (bit_and t'.hours 0x7F + 12) % 24 }
    else t'

-- The inner `do`: while the clock updates, what was converted is converted again.
unfoldable pub convert_while_updating : (rounds : ℕ) → RtcTime → Cmos → Outcome (RtcTime × Cmos)
unfolding convert check_rtc_update
convert_while_updating zero t c = no_fuel
convert_while_updating (suc n) t c =
    let t' = convert t in
    let (updating, c') = check_rtc_update c in
    let rest = convert_while_updating n t' c' in if updating then rest else done (t', c')

unfoldable pub same_time : RtcTime → RtcTime → Bool
same_time t u =
    (t.seconds == u.seconds)
    && (t.minutes == u.minutes)
    && (t.hours == u.hours)
    && (t.week_day == u.week_day)
    && (t.month_day == u.month_day)
    && (t.month == u.month)
    && (t.year == u.year)

-- The end of a round, with what the first reads came to: `again` is the next round.
unfoldable pub compare_time :
    (again : Cmos → Outcome (RtcTime × Cmos)) → RtcTime × Cmos → Outcome (RtcTime × Cmos)
unfolding read_registers convert same_time
compare_time again (result, c) =
    let (second, c') = read_registers c in
    if same_time (convert second) result then done (result, c') else again c'

-- A round from the first reads on.
unfoldable pub sample_time :
    (again : Cmos → Outcome (RtcTime × Cmos)) (rounds : ℕ) → Cmos → Outcome (RtcTime × Cmos)
unfolding read_registers convert_while_updating compare_time
sample_time again rounds c =
    let (first, c') = read_registers c in
    convert_while_updating rounds first c' >>= compare_time again

unfoldable pub get_rtc_time : (rounds : ℕ) → Cmos → Outcome (RtcTime × Cmos)
unfolding wait_update sample_time
get_rtc_time zero c = no_fuel
get_rtc_time (suc n) c = wait_update (suc n) c >>= sample_time (get_rtc_time n) (suc n)
