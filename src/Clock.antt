-- ===== src/Clock.antt =====
-- core/posix/sys_time.c: the time in milliseconds as a `uint32_t`, which starts again after 2 ^ 32.
mod Tests
use mlink_device.Prelude.{ℕ, ◌+◌, ◌-◌, ◌*◌, ◌/◌, ◌%◌, ◌^◌, ◌<◌, ◌≤◌, ◌≡◌, arith}
use mlink_device.Deadline.{Timespec}

abbrev pub milliseconds : Timespec → ℕ
milliseconds ts = ts.tv_sec * 1000 + ts.tv_nsec / 1000000

-- `ts` is what `clock_gettime` answers.
unfoldable pub sys_time_now : Timespec → ℕ
sys_time_now ts = milliseconds ts % 2 ^ 32

-- The time in nanoseconds.
abbrev pub nanoseconds : Timespec → ℕ
nanoseconds ts = ts.tv_sec * 1000000000 + ts.tv_nsec

-- For two times less than 2 ^ 32 - 1 milliseconds apart, the earlier one first, the difference of
-- what `sys_time_now` returns at them, as a `uint32_t`, is the number of milliseconds between
-- them, but for less than one millisecond to either side, also where the clock starts again.
pub sys_time_now-elapsed :
    (t u : Timespec)
    → nanoseconds t ≤ nanoseconds u
    → nanoseconds u < nanoseconds t + (2 ^ 32 - 1) * 1000000
    → let n = (sys_time_now u + (2 ^ 32 - sys_time_now t)) % 2 ^ 32 in
      (nanoseconds u < nanoseconds t + (n + 1) * 1000000)
      × (nanoseconds t + n * 1000000 < nanoseconds u + 1000000)
unfolding sys_time_now
sys_time_now-elapsed t u h l = (omega arith, omega arith)
