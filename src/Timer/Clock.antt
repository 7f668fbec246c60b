-- ===== src/Timer/Clock.antt =====
-- src/timer.c: the clock after some interrupts.
use lesch_os.Base.{
  ℕ, zero, suc, ◌+◌, ◌*◌, ◌/◌, ◌%◌, ◌^◌, ◌≤◌, ◌<◌, ◌≡◌, refl, false, some, arith, ltb, ◌==◌, ◌∙◌,
  Bool-cases, ==→ne, inl, inr,
}
use native.Mathlib.Nat.{mul-div-le, mul-le-mul_left}
use lesch_os.Base.Bits.{and_low}
use lesch_os.Timer.{
  ClockStr, start, timer_freq, count_tick, carry_sec, carry_min, timer_callback, divisor_bytes,
}

-- A clock whose fields are in their ranges, and the ticks that it shows.
pub record IsClock (c : ClockStr) : Type 0 where
  pub tick_in : c.tick < 1000
  pub sec_in : c.sec < 60
  pub min_in : c.min < 60
  pub hour_in : c.hour < 256

abbrev pub shown : ClockStr → ℕ
shown c = c.tick + 1000 * (c.sec + 60 * (c.min + 60 * c.hour))

-- The clock after some interrupts.
unfoldable pub clock_after : ℕ → ClockStr
clock_after zero = start
clock_after (suc n) = timer_callback (clock_after n)

in_range :
    (tick sec min hour : ℕ)
    → tick < 1000
    → sec < 60
    → min < 60
    → hour < 256
    → IsClock (record { tick = tick; sec = sec; min = min; hour = hour })
in_range tick sec min hour ht hs hm hh = record {
  tick_in = ht;
  sec_in = hs;
  min_in = hm;
  hour_in = hh;
}

step_lem :
    (c : ClockStr)
    → IsClock c
    → IsClock (timer_callback c) × (shown (timer_callback c) ≡ (shown c + 1) % 921600000)
unfolding timer_callback count_tick carry_sec carry_min timer_freq
step_lem c h =
    let quiet_sec : ltb 59 c.sec ≡ false = ground (arith, h.sec_in) in
    let quiet_min : ltb 59 c.min ≡ false = ground (arith, h.min_in) in
    elim (Bool-cases ((c.tick + 1) % 2 ^ 32 == 1000)) [
      | inr run ↦
          rw (run, quiet_sec, quiet_min)
            (
              in_range ((c.tick + 1) % 2 ^ 32) c.sec c.min c.hour (ground (arith, h.tick_in))
                  h.sec_in h.min_in h.hour_in,
              omega (
                arith,
                ==→ne ((c.tick + 1) % 2 ^ 32) 1000 run,
                h.tick_in,
                h.sec_in,
                h.min_in,
                h.hour_in,
              ),
            )
      | inl second ↦ rw second (elim (Bool-cases (ltb 59 ((c.sec + 1) % 2 ^ 8))) [
        | inr run ↦
            rw (run, quiet_min)
              (
                in_range 0 ((c.sec + 1) % 2 ^ 8) c.min c.hour (omega arith) (ground arith) h.min_in
                    h.hour_in,
                ground (arith, h.tick_in, h.sec_in, h.min_in, h.hour_in),
              )
        | inl minute ↦ rw minute (elim (Bool-cases (ltb 59 ((c.min + 1) % 2 ^ 8))) [
          | inr run ↦ rw run (
            in_range 0 0 ((c.min + 1) % 2 ^ 8) c.hour (omega arith) (omega arith) (ground arith)
                h.hour_in,
            ground (arith, h.tick_in, h.sec_in, h.min_in, h.hour_in),
          )
          | inl hour ↦ rw hour (
            in_range 0 0 0 ((c.hour + 1) % 2 ^ 8) (omega arith) (omega arith) (omega arith)
                (omega arith),
            ground (arith, h.tick_in, h.sec_in, h.min_in, h.hour_in),
          )
        ])
      ])
    ]

-- After any number of interrupts the fields are in their ranges, and the clock shows their number,
-- less whole periods of 256 hours.
pub clock_after_lem : (n : ℕ) → IsClock (clock_after n) × (shown (clock_after n) ≡ n % 921600000)
unfolding clock_after
clock_after_lem zero = (
  record {
    tick_in = omega arith;
    sec_in = omega arith;
    min_in = omega arith;
    hour_in = omega arith;
  },
  refl,
)
clock_after_lem (suc n) =
    let (h, e) = clock_after_lem n in
    let (h', e') = step_lem (clock_after n) h in (h', e' ∙ omega (arith, e))

-- From a frequency of 19 on, the two bytes that the chip gets are the whole divisor.
pub divisor_bytes_lem :
    (f : ℕ)
    → 19 ≤ f
    → (low : ℕ) × (high : ℕ) × (divisor_bytes f ≡ some (low, high))
      × (low < 2 ^ 8)
      × (high < 2 ^ 8)
      × (low + 2 ^ 8 * high ≡ 1193180 / f)
unfolding divisor_bytes
divisor_bytes_lem zero h = absurd (omega arith)
divisor_bytes_lem (suc f) h =
    let d : ℕ = 1193180 / suc f in
    let below = mul-div-le 1193180 (suc f) in
    let bound = mul-le-mul_left d h in
    let small : d < 2 ^ 16 = omega arith in
    (
      _,
      _,
      refl,
      omega (arith, and_low 8 d),
      omega (arith, and_low 8 (d / 2 ^ 8)),
      omega (arith, and_low 8 d, and_low 8 (d / 2 ^ 8)),
    )
