-- ===== src/DynList.antt =====
-- core/posix/list.c: the growing array that property lists are made of.
-- The block at `items` is a list of slots, `none` for memory that nothing was written to.
pub mod Grow
pub mod Contents
pub mod Add
pub mod Free
pub mod Clone
pub mod Copying
pub mod Every
pub mod Granting
mod Tests
use mlink_device.Prelude.{
  ℕ, zero, suc, ◌+◌, ◌*◌, ◌/◌, ◌%◌, ◌^◌, Bool, true, false, Option, none, some, List, [], ◌∷◌, leb,
  ltb, ◌==◌, if◌then◌else◌, set,
}
use mlink_device.Memory.{M, pure, ◌>>=◌, ◌>>◌, realloc}
use mlink_device.Memory as Memory

-- One past the largest `size_t`.
abbrev pub size_mod : ℕ
size_mod = 2 ^ 64

pub record DynList (A : Type 0) : Type 0 where
  pub items : Option (List (Option A))
  pub count : ℕ
  pub capacity : ℕ
  pub item_size : ℕ

abbrev pub slots : {A : Type 0} → Option (List (Option A)) → List (Option A)
slots none = []
slots (some xs) = xs

-- What `realloc` leaves in a block of `n` slots.
abbrev pub resize : {A : Type 0} → ℕ → List (Option A) → List (Option A)
resize zero xs = []
resize (suc n) [] = none ∷ resize n []
resize (suc n) (x ∷ xs) = x ∷ resize n xs

-- `while (new_capacity < required) new_capacity *= 2;`
pub grow : ℕ → ℕ → ℕ → ℕ
grow zero capacity required = capacity
grow (suc fuel) capacity required =
    let rest = grow fuel ((capacity * 2) % size_mod) required in
    if ltb capacity required then rest else capacity

-- The capacity that the loop starts from.
abbrev pub first_capacity : ℕ → ℕ
first_capacity capacity = if capacity == 0 then 4 else (capacity * 2) % size_mod

-- A capacity doubles at most 64 times before it leaves `size_t`.
pub new_capacity : ℕ → ℕ → ℕ
new_capacity capacity required = grow 64 (first_capacity capacity) required

-- The product that is handed to `realloc` wraps; the block has as many slots as fit into it.
abbrev pub slot_count : ℕ → ℕ → ℕ
slot_count capacity item_size = ((capacity * item_size) % size_mod) / item_size

unfoldable pub init : (A : Type 0) → ℕ → DynList A
init A item_size = record { items = none; count = 0; capacity = 0; item_size = item_size }

module _ {A : Type 0} where
  pub reserve : DynList A → ℕ → M (Bool × DynList A)
  reserve l required =
      if leb required l.capacity
      then pure (true, l)
      else (let n = new_capacity l.capacity required in
          realloc l.items >>= λ granted. pure (
            if granted
            then (
              true,
              record l {
                items = some (resize (slot_count n l.item_size) (slots l.items));
                capacity = n;
              },
            )
            else (false, l)))

  -- Copies the item behind the last one; without a copy function the bytes are copied.
  pub add : (A → M A) → DynList A → A → M (Bool × DynList A)
  add copy l item = do
    (granted, l') ← reserve l ((l.count + 1) % size_mod)
    if granted
        then (copy item >>= λ item'. pure (
          true,
          record l' {
            items = some (set (slots l'.items) l'.count (some item'));
            count = (l'.count + 1) % size_mod;
          },
        ))
        else pure (false, l')

  abbrev pub memcpy : A → M A
  memcpy = pure

  -- The slot at an offset into the block.
  abbrev pub read : List (Option A) → ℕ → Option A
  read [] i = none
  read (x ∷ xs) zero = x
  read (x ∷ xs) (suc i) = read xs i

  -- Also `list_get_const`.
  unfoldable pub get : DynList A → ℕ → Option A
  get l index = if ltb index l.count then read (slots l.items) index else none

  -- The free function on each of the first `n` slots.
  pub free_items : (A → M (Unit {0})) → ℕ → List (Option A) → M (Unit {0})
  free_items free_func zero xs = pure tt
  free_items free_func (suc n) [] = pure tt
  free_items free_func (suc n) (none ∷ xs) = free_items free_func n xs
  free_items free_func (suc n) (some x ∷ xs) = free_func x >> free_items free_func n xs

  pub free : (A → M (Unit {0})) → DynList A → M (DynList A)
  unfolding free_items
  free free_func l = do
    free_items free_func l.count (slots l.items)
    Memory.free l.items
    pure (record l { items = none; count = 0; capacity = 0 })

  pub clear : (A → M (Unit {0})) → DynList A → M (DynList A)
  unfolding free_items
  clear free_func l = do free_items free_func l.count (slots l.items); pure (record l { count = 0 })

  module _ (copy : A → M A) (free_func : A → M (Unit {0})) (src : DynList A) where
    -- `rounds` items of the source are still to be copied, from `index` on.
    unfoldable pub clone_loop : DynList A → ℕ → ℕ → M (Bool × DynList A)
    clone_loop dst index zero = pure (true, dst)
    clone_loop dst index (suc rounds) = elim (get src index) [
      | none ↦ free free_func dst >>= λ dst'. pure (false, dst')
      | some item ↦ do
        (added, dst') ← add copy dst item
        if added
            then clone_loop dst' (index + 1) rounds
            else (free free_func dst' >>= λ dst''. pure (false, dst''))
    ]

    unfoldable pub clone : M (Bool × DynList A)
    unfolding init
    clone = clone_loop (init A src.item_size) 0 src.count
