-- ===== src/Worker/Blocks.antt =====
-- The blocks of a scheduler (core/posix/background_sched.c).
use mlink_device.Prelude.{
  ◌+◌, ◌≡◌, refl, ◌⊎◌, inl, inr, Bool, true, false, none, some, List, [], ◌∷◌, arith, length,
}
use mlink_device.Memory.{Heap, malloc}
use mlink_device.Memory as Memory
use mlink_device.DynList.Add.{Balanced, malloc_cases}
use mlink_device.DynList.Free.{free-block}
use mlink_device.Worker.{Sched, empty, create, free_nodes, destroy_joined}

module _ {Task : Type 0} where
  pub worker_create_cases :
      (started : Bool) (h : Heap)
      → (((create {Task = Task} started h).0 ≡ some empty)
          × Balanced h 0 (create {Task = Task} started h).1 1)
        ⊎ (((create {Task = Task} started h).0 ≡ none)
            × Balanced h 0 (create {Task = Task} started h).1 0)
  unfolding create
  worker_create_cases true h = elim (malloc_cases h) [
    | inl (g, b) ↦ inl (rw g refl, rw g b)
    | inr (g, b) ↦ inr (rw g refl, rw g b)
  ]
  worker_create_cases false h = elim (malloc_cases h) [
    | inl (g, b) ↦ inr (rw g refl, rw g (omega (arith, b, free-block (some (tt {0})) (malloc h).1)))
    | inr (g, b) ↦ inr (rw g refl, rw g b)
  ]

  free_nodes-Balanced :
      (queue : List Task) (h : Heap) → Balanced h (length queue) (free_nodes queue h).1 0
  unfolding free_nodes
  free_nodes-Balanced [] h = omega arith
  free_nodes-Balanced (task ∷ rest) h =
      omega
        (arith, free-block (some task) h, free_nodes-Balanced rest (Memory.free (some task) h).1)

  pub destroy_joined-Balanced :
      (s : Sched Task) (h : Heap) → Balanced h (1 + length s.queue) (destroy_joined s h).1 0
  unfolding destroy_joined
  destroy_joined-Balanced s h =
      omega (arith, free_nodes-Balanced s.queue h, free-block (some s) (free_nodes s.queue h).1)
