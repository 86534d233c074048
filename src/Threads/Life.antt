-- ===== src/Threads/Life.antt =====
-- The blocks of a thread, from its creation to its stop (core/posix/task.c).
use mlink_device.Prelude.{◌≡◌, refl, inl, inr, Bool, true, false, Option, none, some, arith}
use mlink_device.Memory.{Heap, malloc}
use mlink_device.DynList.Add.{Balanced, block, malloc_cases}
use mlink_device.DynList.Free.{free-block}
use mlink_device.Threads.{Thread, create_ex, stop}

-- What comes of a creation: the thread that was asked for, with a block; or none and no block, where
-- the system or the allocator refuses.
pub data Born {Work : Type 0} (started : Bool) (threadfn : Work) (detached : Bool) (h : Heap)
    : Option (Thread Work) × Heap → Type 0 where
  unborn :
      {h' : Heap}
      → started ≡ false
      → Balanced h 0 h' 0
      → Born started threadfn detached h (none, h')
  no_block :
      {h' : Heap}
      → (malloc h).0 ≡ false
      → Balanced h 0 h' 0
      → Born started threadfn detached h (none, h')
  born :
      {h' : Heap}
      → started ≡ true
      → Balanced h 0 h' 1
      → Born started threadfn detached h
          (some (record { threadfn = threadfn; detached = detached }), h')

pub create_ex-Born :
    {Work : Type 0} (started : Bool) (threadfn : Work) (detached : Bool) (h : Heap)
    → Born started threadfn detached h (create_ex started threadfn detached h)
unfolding create_ex
create_ex-Born true threadfn detached h = elim (malloc_cases h) [
  | inr (g, b) ↦ rw g (no_block g b)
  | inl (g, b) ↦ rw g (born refl b)
]
create_ex-Born false threadfn detached h = elim (malloc_cases h) [
  | inr (g, b) ↦ rw g (no_block g b)
  | inl (g, b) ↦ rw g (unborn refl (omega (arith, b, free-block (some (tt {0})) (malloc h).1)))
]

pub stop-Balanced :
    {Work : Type 0} (thread : Option (Thread Work)) (h : Heap)
    → Balanced h (block thread) (stop thread h).1 0
unfolding stop
stop-Balanced none h = omega arith
stop-Balanced (some thread) h = free-block (some thread) h
