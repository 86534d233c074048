-- ===== src/DynList/Free.antt =====
-- What `list_free` of core/posix/list.c gives back.
use mlink_device.Prelude.{ℕ, zero, suc, ◌+◌, ◌≡◌, Option, none, some, List, [], ◌∷◌, ◌++◌, arith}
use mlink_device.Memory.{Heap, M, pure, ◌>>=◌, ◌>>◌}
use mlink_device.Memory as Memory
use mlink_device.DynList.{DynList, slots, free_items, free}
use mlink_device.DynList.Contents.{collect, contents}
use mlink_device.DynList.Add.{block, Balanced}

-- The blocks that the items own.
abbrev pub total : {A : Type 0} → (A → ℕ) → List A → ℕ
total owned [] = 0
total owned (x ∷ xs) = owned x + total owned xs

pub total-append :
    {A : Type 0} (owned : A → ℕ) (xs ys : List A)
    → total owned (xs ++ ys) ≡ total owned xs + total owned ys
total-append owned [] ys = omega arith
total-append owned (x ∷ xs) ys = omega (arith, total-append owned xs ys)

pub free-block : {B : Type 0} (p : Option B) (h : Heap) → Balanced h (block p) (Memory.free p h).1 0
unfolding Memory.free
free-block none h = omega arith
free-block (some b) h = omega arith

module _ {A : Type 0} (owned : A → ℕ) (free_func : A → M (Unit {0}))
    (frees_owned : (x : A) (h : Heap) → Balanced h (owned x) (free_func x h).1 0) where
  free_items-Balanced :
      (n : ℕ) (xs : List (Option A)) (h : Heap)
      → Balanced h (total owned (collect n xs)) (free_items free_func n xs h).1 0
  unfolding free_items
  free_items-Balanced zero xs h = omega arith
  free_items-Balanced (suc n) [] h = omega arith
  free_items-Balanced (suc n) (none ∷ xs) h = free_items-Balanced n xs h
  free_items-Balanced (suc n) (some x ∷ xs) h =
      omega (arith, frees_owned x h, free_items-Balanced n xs (free_func x h).1)

  -- With a free function that gives back what an item owns, `list_free` gives back everything
  -- that the list holds, the items' blocks and its own.
  pub free-Balanced :
      (l : DynList A) (h : Heap)
      → Balanced h (block l.items + total owned (contents l)) (free free_func l h).1 0
  unfolding free
  free-Balanced l h = omega (
    arith,
    free_items-Balanced l.count (slots l.items) h,
    free-block l.items (free_items free_func l.count (slots l.items) h).1,
  )
