-- ===== src/DynList/Tests.antt =====
-- The theorems on core/posix/list.c at a list of two numbers in a block of four slots.
use mlink_device.Prelude.{ℕ, ◌≤◌, true, none, some, [], ◌∷◌, arith}
use mlink_device.Memory.{Heap}
use mlink_device.DynList.{DynList, memcpy, add, new_capacity}
use mlink_device.DynList.Contents.{IsValid}
use mlink_device.DynList.Add.{Fits, Added, add_cases}
use mlink_device.DynList.Grow.{required-le-new_capacity}

abbrev heap : Heap
heap = record { grant = λ n. true; next = 0; allocs = 0; frees = 0 }

abbrev two : DynList ℕ
two = record {
  items = some (some 5 ∷ some 7 ∷ none ∷ none ∷ []);
  count = 2;
  capacity = 4;
  item_size = 8;
}

two-IsValid : IsValid two
two-IsValid = omega arith

two-Fits : Fits two
two-Fits = record { sized = omega arith; small = omega arith }

add_cases_example : Added memcpy two 9 heap (add memcpy two 9 heap)
add_cases_example = add_cases memcpy two 9 heap two-IsValid two-Fits

required-le-new_capacity_example : 9 ≤ new_capacity 4 9
required-le-new_capacity_example = required-le-new_capacity 4 9 (omega arith) (omega arith)
