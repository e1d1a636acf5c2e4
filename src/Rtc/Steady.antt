-- ===== src/Rtc/Steady.antt =====
-- The time that a clock shows whose registers do not change.
use jslk.Base.{
  ℕ, zero, suc, bit_and, refl, ap, inl, inr, Bool, true, List, arith, ==→eq, ==→ne, eq→==,
  Bool-cases, ◌+◌, ◌*◌, ◌/◌, ◌%◌, ◌^◌, ◌≤◌, ◌<◌, ◌≡◌, ◌∙◌, ◌&&◌, ◌∷◌, ◌==◌,
}
use jslk.Base.Outcome.{Outcome, done, ◌>>=◌}
use jslk.Rtc.{
  Cmos, RtcTime, get_rtc_reg, check_rtc_update, wait_update, read_registers, bcd, bcd_hours,
  convert, convert_while_updating, same_time, compare_time, sample_time, get_rtc_time,
}

all_below : ℕ → (ℕ → Bool) → Bool
all_below zero p = true
all_below (suc n) p = p n && all_below n p

all_below-get : (n : ℕ) (p : ℕ → Bool) (k : ℕ) → all_below n p ≡ true → k < n → p k ≡ true
unfolding all_below
all_below-get zero p k e lt = absurd (omega arith)
all_below-get (suc n) p k e lt = elim (Bool-cases (p n)) [
  | inr f ↦ absurd (ground (arith, f, e))
  | inl f ↦ elim (Bool-cases (k == n)) [
    | inl at ↦ rw (==→eq k n at) f
    | inr away ↦ let ne = ==→ne k n away in all_below-get n p k (rw f at e) (omega arith)
  ]
]

-- The two decimal digits of a number as the clock holds them.
unfoldable pub to_bcd : ℕ → ℕ
to_bcd n = n / 10 * 16 + n % 10

bcd-to_bcd : (n : ℕ) → n < 100 → bcd (to_bcd n % 2 ^ 8) ≡ n
unfolding to_bcd all_below
bcd-to_bcd n lt = ==→eq _ _ (all_below-get 100 (λ k. bcd (to_bcd k % 2 ^ 8) == k) n refl lt)

bcd_hours-to_bcd : (n : ℕ) → n < 24 → (bcd_hours (to_bcd n % 2 ^ 8) ≡ n)
unfolding to_bcd all_below bcd_hours
bcd_hours-to_bcd n lt =
    ==→eq _ _ (all_below-get 24 (λ k. bcd_hours (to_bcd k % 2 ^ 8) == k) n refl lt)

-- The registers hold a time, in two decimal digits each and the hour of 24, and no update is under
-- way.
pub record Shows (v : ℕ → ℕ) (t : RtcTime) : Type 0 where
  pub seconds_at : (v 0 ≡ to_bcd t.seconds) × (t.seconds < 100)
  pub minutes_at : (v 2 ≡ to_bcd t.minutes) × (t.minutes < 100)
  pub week_day_at : (v 6 ≡ to_bcd t.week_day) × (t.week_day < 100)
  pub month_day_at : (v 7 ≡ to_bcd t.month_day) × (t.month_day < 100)
  pub month_at : (v 8 ≡ to_bcd t.month) × (t.month < 100)
  pub year_at : (v 9 ≡ to_bcd t.year) × (t.year < 100)
  pub no_update : bit_and (v 10 % 2 ^ 8) 0x80 ≡ 0

-- The registers as `read_registers` finds them.
abbrev raw : (ℕ → ℕ) → RtcTime
raw v = record {
  seconds = v 0 % 2 ^ 8;
  minutes = v 2 % 2 ^ 8;
  hours = v 4 % 2 ^ 8;
  week_day = v 6 % 2 ^ 8;
  month_day = v 7 % 2 ^ 8;
  month = v 8 % 2 ^ 8;
  year = v 9 % 2 ^ 8;
}

same_time_self : (t : RtcTime) → same_time t t ≡ true
unfolding same_time
same_time_self t =
    rw
      (
        eq→== t.seconds _ refl,
        eq→== t.minutes _ refl,
        eq→== t.hours _ refl,
        eq→== t.week_day _ refl,
        eq→== t.month_day _ refl,
        eq→== t.month _ refl,
        eq→== t.year _ refl,
      )
      refl

abbrev pub clock : (ℕ → ℕ) → (reads : ℕ) → List (ℕ × ℕ) → Cmos
clock v reads ports = record { values = λ k. v; reads = reads; ports = ports }

calm_wait :
    (n reads : ℕ) (ports : List (ℕ × ℕ)) (v : ℕ → ℕ)
    → bit_and (v 10 % 2 ^ 8) 0x80 ≡ 0
    → wait_update (suc n) (clock v reads ports) ≡ done (clock v (reads + 1) ((0x70, 10) ∷ ports))
unfolding wait_update check_rtc_update get_rtc_reg
calm_wait n reads ports v calm = rw calm refl

calm_convert :
    (n reads : ℕ) (ports : List (ℕ × ℕ)) (v : ℕ → ℕ) (t : RtcTime)
    → bit_and (v 10 % 2 ^ 8) 0x80 ≡ 0
    → convert_while_updating (suc n) t (clock v reads ports)
      ≡ done (convert t, clock v (reads + 1) ((0x70, 10) ∷ ports))
unfolding convert_while_updating check_rtc_update get_rtc_reg
calm_convert n reads ports v t calm = rw calm refl

-- The state after the seven reads.
abbrev after_read : (ℕ → ℕ) → (reads : ℕ) → List (ℕ × ℕ) → Cmos
after_read v reads ports =
    clock v (reads + 1 + 1 + 1 + 1 + 1 + 1 + 1)
      ((0x70, 9) ∷ (0x70, 8) ∷ (0x70, 7) ∷ (0x70, 6) ∷ (0x70, 4) ∷ (0x70, 2) ∷ (0x70, 0) ∷ ports)

calm_compare :
    (again : Cmos → Outcome (RtcTime × Cmos)) (reads : ℕ) (ports : List (ℕ × ℕ)) (v : ℕ → ℕ)
    → compare_time again (convert (raw v), clock v reads ports)
      ≡ done (convert (raw v), after_read v reads ports)
unfolding compare_time read_registers get_rtc_reg
calm_compare again reads ports v = rw (same_time_self (convert (raw v))) refl

calm_sample :
    (again : Cmos → Outcome (RtcTime × Cmos)) (n reads : ℕ) (ports : List (ℕ × ℕ)) (v : ℕ → ℕ)
    → bit_and (v 10 % 2 ^ 8) 0x80 ≡ 0
    → (c : Cmos) × (sample_time again (suc n) (clock v reads ports) ≡ done (convert (raw v), c))
unfolding sample_time read_registers get_rtc_reg
calm_sample again n reads ports v calm =
    let c2 = after_read v reads ports in
    let status : ℕ × ℕ = (0x70, 10) in
    (
      after_read v (c2.reads + 1) (status ∷ c2.ports),
      ap (λ m. m >>= compare_time again) (calm_convert n c2.reads c2.ports v (raw v) calm)
          ∙ calm_compare again (c2.reads + 1) (status ∷ c2.ports) v,
    )

steady :
    (rounds reads : ℕ) (ports : List (ℕ × ℕ)) (v : ℕ → ℕ)
    → bit_and (v 10 % 2 ^ 8) 0x80 ≡ 0
    → 0 < rounds
    → (c : Cmos) × (get_rtc_time rounds (clock v reads ports) ≡ done (convert (raw v), c))
unfolding get_rtc_time
steady zero reads ports v calm pos = absurd (omega arith)
steady (suc n) reads ports v calm pos =
    let (c, run) = calm_sample (get_rtc_time n) n (reads + 1) ((0x70, 10) ∷ ports) v calm in
    (c, ap (λ m. m >>= sample_time (get_rtc_time n) (suc n)) (calm_wait n reads ports v calm) ∙ run)

converted :
    (v : ℕ → ℕ) (t : RtcTime)
    → Shows v t
    → convert (raw v) ≡ record t { hours = bcd_hours (v 4 % 2 ^ 8) }
unfolding convert
converted v t h =
    rw
      (h.seconds_at.0, h.minutes_at.0, h.week_day_at.0, h.month_day_at.0, h.month_at.0, h.year_at.0)
      (rw
        (
          bcd-to_bcd t.seconds h.seconds_at.1,
          bcd-to_bcd t.minutes h.minutes_at.1,
          bcd-to_bcd t.week_day h.week_day_at.1,
          bcd-to_bcd t.month_day h.month_day_at.1,
          bcd-to_bcd t.month h.month_at.1,
          bcd-to_bcd t.year h.year_at.1,
        )
        refl)

-- `get_rtc_time` of a clock that shows a time, the hour of 24, and does not change while it is
-- read: the first round returns that time.
pub get_rtc_time-Shows :
    (rounds reads : ℕ) (ports : List (ℕ × ℕ)) (v : ℕ → ℕ) (t : RtcTime)
    → Shows v t
    → v 4 ≡ to_bcd t.hours
    → t.hours < 24
    → 0 < rounds
    → (c : Cmos) × (get_rtc_time rounds (clock v reads ports) ≡ done (t, c))
get_rtc_time-Shows rounds reads ports v t h hours_at small pos =
    let (c, run) = steady rounds reads ports v h.no_update pos in
    let hours : bcd_hours (v 4 % 2 ^ 8) ≡ t.hours = rw hours_at (bcd_hours-to_bcd t.hours small) in
    (c, run ∙ ap (λ (x : RtcTime). done (x, c)) (converted v t h ∙ rw hours refl))

afternoon : (n : ℕ) → n < 24 → bcd_hours ((to_bcd n + 0x80) % 2 ^ 8) ≡ n + 128
unfolding to_bcd all_below bcd_hours
afternoon n lt =
    ==→eq _ _ (all_below-get 24 (λ k. bcd_hours ((to_bcd k + 0x80) % 2 ^ 8) == k + 128) n refl lt)

-- On a clock that shows the hour of 12, with the flag 0x80 in the afternoon, the hour is not
-- converted: the result is the number of the hour and 128.
pub get_rtc_time_afternoon :
    (rounds reads hour : ℕ) (ports : List (ℕ × ℕ)) (v : ℕ → ℕ) (t : RtcTime)
    → Shows v t
    → v 4 ≡ to_bcd hour + 0x80
    → hour ≤ 12
    → 0 < rounds
    → (c : Cmos) × (get_rtc_time rounds (clock v reads ports)
        ≡ done (record t { hours = hour + 128 }, c))
get_rtc_time_afternoon rounds reads hour ports v t h hours_at small pos =
    let (c, run) = steady rounds reads ports v h.no_update pos in
    let hours : bcd_hours (v 4 % 2 ^ 8) ≡ hour + 128 = rw hours_at (afternoon hour (omega arith)) in
    (c, run ∙ ap (λ (x : RtcTime). done (x, c)) (converted v t h ∙ rw hours refl))
