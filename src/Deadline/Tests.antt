-- ===== src/Deadline/Tests.antt =====
-- The theorem on `calc_timeout` at a wait that passes a second.
use mlink_device.Prelude.{◌+◌, ◌*◌, ◌<◌, ◌≡◌, arith}
use mlink_device.Deadline.{Timespec, nanoseconds, calc_timeout, total, calc_timeout-total}

abbrev now : Timespec
now = record { tv_sec = 7; tv_nsec = 900000000 }

calc_timeout-total_example :
    ((calc_timeout now 1500).tv_nsec < nanoseconds)
    × (total (calc_timeout now 1500) ≡ total now + 1500 * 1000000)
calc_timeout-total_example = calc_timeout-total now 1500 (omega arith)
