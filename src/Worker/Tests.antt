-- ===== src/Worker/Tests.antt =====
-- The theorems on core/posix/background_sched.c for two posted tasks.
use mlink_device.Prelude.{ℕ}
use mlink_device.Worker.{Sched, empty, enqueue, posts, Reachable, created, stepped}
use mlink_device.Worker.Order.{IsOrdered, Reachable-IsOrdered}

abbrev two : Sched ℕ
two = enqueue (enqueue empty 5) 7

two-Reachable : Reachable two
two-Reachable = stepped (stepped created (posts empty 5)) (posts (enqueue empty 5) 7)

Reachable-IsOrdered_example : IsOrdered two
Reachable-IsOrdered_example = Reachable-IsOrdered two two-Reachable
