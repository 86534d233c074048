-- ===== src/Deadline.antt =====
-- The time at which a wait with a timeout ends: `calc_timeout` of core/posix/queue.c, which
-- core/posix/event_group.c repeats in `event_group_wait`.
mod Tests
use mlink_device.Prelude.{ℕ, ◌+◌, ◌-◌, ◌*◌, ◌/◌, ◌%◌, ◌<◌, ◌≡◌, leb, arith, if◌then◌else◌}

-- `struct timespec`.
pub record Timespec : Type 0 where
  pub tv_sec : ℕ
  pub tv_nsec : ℕ

abbrev pub nanoseconds : ℕ
nanoseconds = 1000000000

-- `now` is the answer of the clock, `timeout_ms` is not negative.
unfoldable pub calc_timeout : Timespec → ℕ → Timespec
calc_timeout now timeout_ms =
    let sec = now.tv_sec + timeout_ms / 1000 in
    let nsec = now.tv_nsec + timeout_ms % 1000 * 1000000 in
    if leb nanoseconds nsec
    then record { tv_sec = sec + 1; tv_nsec = nsec - nanoseconds }
    else record { tv_sec = sec; tv_nsec = nsec }

abbrev pub total : Timespec → ℕ
total t = t.tv_sec * nanoseconds + t.tv_nsec

-- For a clock that keeps its nanoseconds below a second, the end of a wait lies exactly the
-- timeout behind the clock's time, and keeps its nanoseconds below a second.
pub calc_timeout-total :
    (now : Timespec) (timeout_ms : ℕ)
    → now.tv_nsec < nanoseconds
    → ((calc_timeout now timeout_ms).tv_nsec < nanoseconds)
      × (total (calc_timeout now timeout_ms) ≡ total now + timeout_ms * 1000000)
unfolding calc_timeout
calc_timeout-total now timeout_ms h = ground arith
