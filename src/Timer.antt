-- ===== src/Timer.antt =====
-- The timer of src/drivers/timer.c: the ticks, the divisor of the PIT, and waiting.
pub mod Sleep
mod Tests
use osver.Prelude.{
  ℕ, zero, suc, ◌+◌, ◌-◌, ◌*◌, ◌/◌, ◌%◌, ◌^◌, Option, some, none, ltb, ◌==◌, if◌then◌else◌,
}

abbrev pub timer_hz : ℕ
timer_hz = 100

abbrev pub pit_base_hz : ℕ
pit_base_hz = 1193182

-- what `timer_init` writes to the PIT, low byte first
unfoldable pub timer_divisor : ℕ
timer_divisor =
    let divisor = pit_base_hz / timer_hz in
    let at_least = if divisor == 0 then 1 else divisor in
    if ltb 0xFFFF at_least then 0xFFFF else at_least

-- the part of `timer_irq` on `g_ticks`
unfoldable pub timer_irq : ℕ → ℕ
timer_irq ticks = (ticks + 1) % 2 ^ 32

unfoldable pub timer_uptime_seconds : ℕ → ℕ
timer_uptime_seconds ticks = ticks / timer_hz

unfoldable pub ticks_to_wait : ℕ → ℕ
ticks_to_wait ms = (ms + 1000 / timer_hz - 1) % 2 ^ 32 / (1000 / timer_hz)

-- The loop of `timer_sleep_ms`, in which each halt lasts until the next tick: how many ticks it
-- waits. `none`: not within `fuel` ticks.
unfoldable pub sleep_loop : ℕ → ℕ → ℕ → Option ℕ
unfolding timer_irq
sleep_loop zero target ticks = if ltb ticks target then none else some 0
sleep_loop (suc fuel) target ticks =
    let rest = sleep_loop fuel target (timer_irq ticks) in
    if ltb ticks target then elim rest [ none ↦ none | some n ↦ some (suc n) ] else some 0

-- Fuel: the ticks to wait for, from any value of the counter.
unfoldable pub timer_sleep_ms : ℕ → ℕ → Option ℕ
unfolding sleep_loop ticks_to_wait
timer_sleep_ms ms ticks = sleep_loop (ticks_to_wait ms) ((ticks + ticks_to_wait ms) % 2 ^ 32) ticks
