-- ===== src/Timer/Sleep.antt =====
-- How long a sleep lasts.
use osver.Prelude.{
  ℕ, zero, suc, ◌+◌, ◌-◌, ◌/◌, ◌%◌, ◌^◌, ◌<◌, ◌≤◌, ◌≡◌, refl, some, false, ltb, arith,
}
use osver.Timer.{ticks_to_wait, sleep_loop, timer_sleep_ms}

-- Where the counter wraps around before the end of a sleep of at least a tick, the sleep returns at once.
pub timer_sleep_ms-wraps :
    (ms ticks : ℕ)
    → ms + 9 < 2 ^ 32
    → ticks < 2 ^ 32
    → 2 ^ 32 ≤ ticks + (ms + 9) / 10
    → timer_sleep_ms ms ticks ≡ some 0
unfolding timer_sleep_ms ticks_to_wait sleep_loop
timer_sleep_ms-wraps ms ticks small low wraps =
    let n : (ms + 1000 / 100 - 1) % 2 ^ 32 / (1000 / 100) ≡ (ms + 9) / 10 = omega arith in
    let late : ltb ticks ((ticks + (ms + 9) / 10) % 2 ^ 32) ≡ false = ground arith in
    rw n (over ((ms + 9) / 10) ((ticks + (ms + 9) / 10) % 2 ^ 32) late)
  where
    over : (fuel target : ℕ) → ltb ticks target ≡ false → sleep_loop fuel target ticks ≡ some 0
    over zero target late = rw late refl
    over (suc fuel) target late = rw late refl
