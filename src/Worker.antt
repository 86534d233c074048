-- ===== src/Worker.antt =====
-- core/posix/background_sched.c: one worker thread that runs posted tasks. The list from `queue_head`
-- is `queue`, and each function here is what its code does in one hold of the mutex. `Task` stands
-- for a callback with its argument; `taken` is the worker's local `task`, and `accepted` and `ran`
-- record the calls of `bg_sched_post` that succeeded and the callbacks that returned.
pub mod Order
pub mod Blocks
mod Tests
use mlink_device.Prelude.{
  ℕ, zero, suc, ◌+◌, ◌-◌, ◌≡◌, Bool, true, false, not, Option, none, some, List, [], ◌∷◌, ◌++◌,
  if◌then◌else◌,
}
use mlink_device.Memory.{M, pure, ◌>>=◌, ◌>>◌, malloc}
use mlink_device.Memory as Memory

pub record Sched (Task : Type 0) : Type 0 where
  pub queue : List Task
  pub running : Bool
  pub pending : ℕ
  pub active : ℕ
  pub taken : Option Task
  pub accepted : List Task
  pub ran : List Task

-- What the worker does in its first hold of the mutex.
pub data Turn (Task : Type 0) : Type 0 where
  takes : Sched Task → Turn Task
  leaves : Turn Task
  waits : Turn Task

module _ {Task : Type 0} where
  abbrev pub empty : Sched Task
  empty = record {
    queue = [];
    running = true;
    pending = 0;
    active = 0;
    taken = none;
    accepted = [];
    ran = [];
  }

  -- `started` is the answer of `pthread_create`.
  unfoldable pub create : Bool → M (Option (Sched Task))
  create started = malloc >>= λ granted.
      if not granted
      then pure none
      else if started
      then pure (some empty)
      else (Memory.free (some (tt {0})) >> pure none)

  -- The node behind the last one.
  unfoldable pub enqueue : Sched Task → Task → Sched Task
  enqueue s task = record s {
    queue = s.queue ++ task ∷ [];
    pending = s.pending + 1;
    accepted = s.accepted ++ task ∷ [];
  }

  unfoldable pub post : Sched Task → Option Task → M (Bool × Sched Task)
  post s none = pure (false, s)
  post s (some task) =
      malloc >>= λ granted. pure (if granted then (true, enqueue s task) else (false, s))

  -- The head of the queue goes to the worker.
  unfoldable pub take : Sched Task → Task → List Task → Sched Task
  take s task rest = record s {
    queue = rest;
    pending = s.pending - 1;
    active = s.active + 1;
    taken = some task;
  }

  abbrev pub turn_at : Sched Task → List Task → Turn Task
  turn_at s [] = if s.running then waits else leaves
  turn_at s (task ∷ rest) = takes (take s task rest)

  unfoldable pub turn : Sched Task → Turn Task
  turn s = turn_at s s.queue

  abbrev pub finish_with : Sched Task → Option Task → Sched Task
  finish_with s none = s
  finish_with s (some task) = record s {
    active = s.active - 1;
    taken = none;
    ran = s.ran ++ task ∷ [];
  }

  -- Its second hold, behind the callback.
  unfoldable pub finish : Sched Task → Sched Task
  finish s = finish_with s s.taken

  -- What `bg_sched_destroy` does before it joins the worker.
  unfoldable pub stop : Sched Task → Sched Task
  stop s = record s { running = false }

  -- What it does behind the join: the nodes that are still queued, in a loop, and the scheduler.
  unfoldable pub free_nodes : List Task → M (Unit {0})
  free_nodes [] = pure tt
  free_nodes (task ∷ rest) = Memory.free (some task) >> free_nodes rest

  unfoldable pub destroy_joined : Sched Task → M (Unit {0})
  destroy_joined s = free_nodes s.queue >> Memory.free (some s)

  -- The holds of the mutex, in any order that the threads allow.
  pub data Step : Sched Task → Sched Task → Type 0 where
    posts : (s : Sched Task) (task : Task) → Step s (enqueue s task)
    picks :
        (s : Sched Task) (task : Task) (rest : List Task)
        → s.taken ≡ none
        → s.queue ≡ task ∷ rest
        → Step s (take s task rest)
    finishes : (s : Sched Task) → Step s (finish s)
    stops : (s : Sched Task) → Step s (stop s)

  pub data Reachable : Sched Task → Type 0 where
    created : Reachable empty
    stepped : {s s' : Sched Task} → Reachable s → Step s s' → Reachable s'

  abbrev pub act : Turn Task → Sched Task → (Sched Task → Bool × Sched Task) → Bool × Sched Task
  act leaves s again = (true, s)
  act waits s again = (false, s)
  act (takes s') s again = again s'

  -- The worker on its own, for a number of rounds; true once it has left.
  unfoldable pub worker_main : ℕ → Sched Task → Bool × Sched Task
  worker_main zero s = (false, s)
  worker_main (suc fuel) s = act (turn s) s (λ s'. worker_main fuel (finish s'))
