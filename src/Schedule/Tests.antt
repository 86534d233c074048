-- ===== src/Schedule/Tests.antt =====
-- The theorems on core/posix/schedule.c at a schedule with two tasks.
use mlink_device.Prelude.{ℕ, true, List, [], ◌∷◌, ◌==◌, if◌then◌else◌}
use mlink_device.Schedule.{Schedule, Effect, run}
use mlink_device.Schedule.Order.{Progress, run-Progress}

abbrev two_tasks : Schedule ℕ
two_tasks = record { task_queue = 1 ∷ 2 ∷ []; running = true; ran = [] }

-- Task 1 posts task 5.
abbrev posting : ℕ → Effect ℕ
posting n = record { posts = if n == 1 then 5 ∷ [] else []; keeps_running = true }

run-Progress_example : (more : List ℕ) × Progress posting two_tasks (run posting 2 two_tasks) more
run-Progress_example = run-Progress posting 2 two_tasks
