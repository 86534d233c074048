-- ===== src/Clock/Tests.antt =====
-- The theorem on `sys_time_now` at two times between which it starts again.
use mlink_device.Prelude.{◌+◌, ◌-◌, ◌%◌, ◌^◌, ◌*◌, ◌<◌, arith}
use mlink_device.Deadline.{Timespec}
use mlink_device.Clock.{nanoseconds, sys_time_now, sys_time_now-elapsed}

abbrev before : Timespec
before = record { tv_sec = 4294967; tv_nsec = 290000000 }

abbrev later : Timespec
later = record { tv_sec = 4294967; tv_nsec = 300000000 }

sys_time_now-elapsed_example :
    let n = (sys_time_now later + (2 ^ 32 - sys_time_now before)) % 2 ^ 32 in
    (nanoseconds later < nanoseconds before + (n + 1) * 1000000)
    × (nanoseconds before + n * 1000000 < nanoseconds later + 1000000)
sys_time_now-elapsed_example = sys_time_now-elapsed before later (omega arith) (omega arith)
