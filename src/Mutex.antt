-- ===== src/Mutex.antt =====
-- core/posix/mutex.c: a mutex of the system in a block of its own. What pthread answers is an
-- argument: whether it makes a mutex, and the status of a lock or an unlock.
use mlink_device.Prelude.{
  inl, inr, Bool, true, false, not, Option, none, some, arith, if◌then◌else◌,
}
use mlink_device.Prelude.Int.{ℤ, negsuc}
use mlink_device.Memory.{Heap, M, pure, ◌>>=◌, ◌>>◌, malloc}
use mlink_device.Memory as Memory
use mlink_device.DynList.Add.{Balanced, malloc_cases}
use mlink_device.DynList.Free.{free-block}

-- `struct ch_mutex`; the mutex within it belongs to pthread.
pub data Mutex : Type 0 where
  ch_mutex : Mutex

unfoldable pub init : Bool → M (Option Mutex)
init made = malloc >>= λ granted.
    if not granted
    then pure none
    else if made
    then pure (some ch_mutex)
    else (Memory.free (some ch_mutex) >> pure none)

unfoldable pub deinit : Option Mutex → M Bool
deinit none = pure false
deinit (some mutex) = Memory.free (some mutex) >> pure true

-- Lock and unlock pass on the status, and answer -1 for NULL.
unfoldable pub lock : Option Mutex → ℤ → ℤ
lock none status = negsuc 0
lock (some mutex) status = status

unfoldable pub unlock : Option Mutex → ℤ → ℤ
unlock none status = negsuc 0
unlock (some mutex) status = status

-- Whatever the system and the allocator answer, `mutex_deinit` behind `mutex_init` gives back what it took.
init-deinit-Balanced :
    (made : Bool) (h : Heap) → Balanced h 0 (deinit (init made h).0 (init made h).1).1 0
unfolding init deinit
init-deinit-Balanced true h = elim (malloc_cases h) [
  | inr (g, b) ↦ rw g b
  | inl (g, b) ↦ rw g (omega (arith, b, free-block (some ch_mutex) (malloc h).1))
]
init-deinit-Balanced false h = elim (malloc_cases h) [
  | inr (g, b) ↦ rw g b
  | inl (g, b) ↦ rw g (omega (arith, b, free-block (some ch_mutex) (malloc h).1))
]
