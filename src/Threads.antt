-- ===== src/Threads.antt =====
-- core/posix/task.c: threads of the system behind a block of their own. `Work` stands for a
-- function with its argument. Of the attributes only `detached` is kept: stack size, priority and
-- name go to the system and nothing reads them here.
pub mod Life
use mlink_device.Prelude.{
  ℕ, ◌*◌, ◌%◌, ◌^◌, Bool, true, false, not, Option, none, some, if◌then◌else◌,
}
use mlink_device.Memory.{M, pure, ◌>>=◌, ◌>>◌, malloc}
use mlink_device.Memory as Memory

-- `struct thread`, without the number that the system gives.
pub record Thread (Work : Type 0) : Type 0 where
  pub threadfn : Work
  pub detached : Bool

module _ {Work : Type 0} where
  -- `started` is the answer of `pthread_create`.
  unfoldable pub create_ex : Bool → Work → Bool → M (Option (Thread Work))
  create_ex started threadfn detached = malloc >>= λ granted.
      if not granted
      then pure none
      else if started
      then pure (some (record { threadfn = threadfn; detached = detached }))
      else (Memory.free (some (tt {0})) >> pure none)

  unfoldable pub create : Bool → Work → M (Option (Thread Work))
  unfolding create_ex
  create started threadfn = create_ex started threadfn false

  -- Whether the thread was cancelled and joined; the C function returns 0.
  unfoldable pub stop_ex : Option (Thread Work) → Bool → M Bool
  stop_ex none detached = pure false
  stop_ex (some thread) detached = Memory.free (some thread) >> pure (not detached)

  unfoldable pub stop : Option (Thread Work) → M Bool
  unfolding stop_ex
  stop thread = stop_ex thread false

-- The argument of `usleep`.
unfoldable pub msleep : ℕ → ℕ
msleep ms = 1000 * ms % 2 ^ 32
