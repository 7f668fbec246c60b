-- ===== src/Timer.antt =====
-- src/timer.c: the clock that the timer's interrupt counts, and the divisor for the timer's chip.
pub mod Clock
mod Tests
use lesch_os.Base.{
  ℕ, zero, suc, ◌+◌, ◌/◌, ◌%◌, ◌^◌, Bool, true, false, Option, none, some, if◌then◌else◌, ltb, ◌==◌,
  bit_and,
}

-- `tick` is a word; `sec`, `min` and `hour` are bytes. All start at 0.
pub record ClockStr : Type 0 where
  pub tick : ℕ
  pub sec : ℕ
  pub min : ℕ
  pub hour : ℕ

abbrev pub start : ClockStr
start = record { tick = 0; sec = 0; min = 0; hour = 0 }

unfoldable pub timer_freq : ℕ
timer_freq = 1000

-- The three tests of `timer_callback`, in their order; each byte wraps.
unfoldable pub count_tick : ClockStr → ClockStr
count_tick c =
    if (c.tick + 1) % 2 ^ 32 == timer_freq
    then record c { tick = 0; sec = (c.sec + 1) % 2 ^ 8 }
    else record c { tick = (c.tick + 1) % 2 ^ 32 }

unfoldable pub carry_sec : ClockStr → ClockStr
carry_sec c = if ltb 59 c.sec then record c { sec = 0; min = (c.min + 1) % 2 ^ 8 } else c

unfoldable pub carry_min : ClockStr → ClockStr
carry_min c = if ltb 59 c.min then record c { min = 0; hour = (c.hour + 1) % 2 ^ 8 } else c

-- What `timer_callback` does to the clock.
unfoldable pub timer_callback : ClockStr → ClockStr
timer_callback c = carry_min (carry_sec (count_tick c))

-- `init_timer` and `reset_timer` write these two bytes, the low one first. A frequency of 0 faults.
unfoldable pub divisor_bytes : (need_frequency : ℕ) → Option (ℕ × ℕ)
divisor_bytes zero = none
divisor_bytes (suc f) = some (bit_and (1193180 / suc f) 255, bit_and (1193180 / suc f / 2 ^ 8) 255)
