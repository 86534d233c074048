-- ===== src/Schedule.antt =====
-- core/posix/schedule.c: tasks that one caller of `schedule_run` runs until none is left. The list
-- from `task_queue` is `task_queue`; `ran` records the callbacks that were run.
-- What a callback does to the schedule is a parameter: the tasks that it posts, in their order, and
-- whether it leaves `running` set. `schedule_post` of a NULL callback is refused, so that every
-- queued task has one.
pub mod Order
mod Tests
use mlink_device.Prelude.{
  ℕ, zero, suc, ◌+◌, Bool, true, false, Option, none, some, List, [], ◌∷◌, ◌++◌, if◌then◌else◌,
}
use mlink_device.Memory.{M, pure, ◌>>=◌, ◌>>◌, malloc}
use mlink_device.Memory as Memory

pub record Schedule (Task : Type 0) : Type 0 where
  pub task_queue : List Task
  pub running : Bool
  pub ran : List Task

pub record Effect (Task : Type 0) : Type 0 where
  pub posts : List Task
  pub keeps_running : Bool

module _ {Task : Type 0} where
  unfoldable pub create : M (Option (Schedule Task))
  create = malloc >>= λ granted.
      pure (if granted then some (record { task_queue = []; running = true; ran = [] }) else none)

  -- The nodes that are still queued, in a loop, and the schedule.
  unfoldable pub free_tasks : List Task → M (Unit {0})
  free_tasks [] = pure tt
  free_tasks (task ∷ tasks) = Memory.free (some task) >> free_tasks tasks

  unfoldable pub destroy : Option (Schedule Task) → M (Unit {0})
  destroy none = pure tt
  destroy (some s) = free_tasks s.task_queue >> Memory.free (some s)

  -- The walk to the last node.
  unfoldable pub append_node : List Task → Task → List Task
  append_node [] task = task ∷ []
  append_node (t ∷ ts) task = t ∷ append_node ts task

  unfoldable pub post : Schedule Task → Option Task → M (Bool × Schedule Task)
  post s none = pure (false, s)
  post s (some task) = malloc >>= λ granted. pure (
      if granted
      then (true, record s { task_queue = append_node s.task_queue task })
      else (false, s))

  abbrev pub post_all : List Task → List Task → List Task
  post_all queue [] = queue
  post_all queue (t ∷ ts) = post_all (append_node queue t) ts

  module _ (effect : Task → Effect Task) where
    -- The callback of the task that was taken off the queue.
    unfoldable pub call : Schedule Task → Task → List Task → Schedule Task
    unfolding append_node
    call s task rest = record {
      task_queue = post_all rest (effect task).posts;
      running = (effect task).keeps_running;
      ran = s.ran ++ task ∷ [];
    }

    abbrev pub rounds :
        (Schedule Task → Schedule Task) → Schedule Task → List Task → Bool → Schedule Task
    rounds again s [] running = s
    rounds again s (task ∷ rest) false = s
    rounds again s (task ∷ rest) true = again (call s task rest)

    -- The loop, for a number of rounds.
    unfoldable pub run : ℕ → Schedule Task → Schedule Task
    run zero s = s
    run (suc fuel) s = rounds (run fuel) s s.task_queue s.running
