-- ===== src/Rtc/Tests.antt =====
-- The theorems at the evening of a 31st of December.
use jslk.Base.{ℕ, refl, [], arith, ◌≡◌, ◌==◌, if◌then◌else◌}
use jslk.Base.Outcome.{done}
use jslk.Rtc.{Cmos, RtcTime, get_rtc_time}
use jslk.Rtc.Steady.{clock, to_bcd, Shows, get_rtc_time-Shows}

abbrev late : RtcTime
late = record {
  seconds = 58;
  minutes = 59;
  hours = 23;
  week_day = 4;
  month_day = 31;
  month = 12;
  year = 21;
}

-- The registers, with `hours` in the one of the hour.
abbrev registers : (hours : ℕ) → ℕ → ℕ
registers hours r =
    if r == 0
    then 0x58
    else if r == 2
    then 0x59
    else if r == 4
    then hours
    else if r == 6
    then 4
    else if r == 7
    then 0x31
    else if r == 8
    then 0x12
    else if r == 9
    then 0x21
    else 0x26

late-Shows : (hours : ℕ) → Shows (registers hours) late
unfolding to_bcd
late-Shows hours = record {
  seconds_at = (refl, omega arith);
  minutes_at = (refl, omega arith);
  week_day_at = (refl, omega arith);
  month_day_at = (refl, omega arith);
  month_at = (refl, omega arith);
  year_at = (refl, omega arith);
  no_update = refl;
}

get_rtc_time-Shows_example :
    (c : Cmos) × (get_rtc_time 3 (clock (registers 0x23) 0 []) ≡ done (late, c))
unfolding to_bcd
get_rtc_time-Shows_example =
    get_rtc_time-Shows 3 0 [] (registers 0x23) late (late-Shows 0x23) refl (omega arith)
      (omega arith)
