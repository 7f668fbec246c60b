-- ===== src/Timer/Tests.antt =====
-- src/timer.c at concrete times.
use lesch_os.Base.{◌≡◌, refl}
use lesch_os.Timer.{timer_callback, count_tick, carry_sec, carry_min, timer_freq}

midnight :
    timer_callback (record { tick = 999; sec = 59; min = 59; hour = 23 })
    ≡ record { tick = 0; sec = 0; min = 0; hour = 24 }
unfolding timer_callback count_tick carry_sec carry_min timer_freq
midnight = refl
