-- ===== src/DynList/Add.antt =====
-- What `list_reserve` and `list_add` of core/posix/list.c do on each branch.
use native.Mathlib.Nat.{mul-le-mul_right}
use mlink_device.Prelude.{
  ℕ, suc, ◌+◌, ◌∙◌, ap, List, ◌*◌, ◌%◌, ◌≤◌, ◌<◌, ◌≡◌, refl, ◌⊎◌, inl, inr, Bool, true, false,
  Option, none, some, [], ◌∷◌, ◌++◌, arith, length, set, length-set, if◌then◌else◌,
}
use native.Mathlib.Decide.{dec_lt}
use mlink_device.Memory.{Heap, M, pure, ◌>>=◌, realloc, malloc}
use mlink_device.DynList.{DynList, slots, resize, size_mod, first_capacity, reserve, add}
use mlink_device.DynList.Grow.{new_capacity_step, slot_count_exact}
use mlink_device.DynList.Contents.{
  IsValid, contents, length-resize, Filled-resize, collect-resize, Filled-set, collect-set,
}

-- Twice the capacity can be asked for without a wrap.
pub record Fits {A : Type 0} (l : DynList A) : Type 0 where
  pub sized : 0 < l.item_size
  pub small : (l.capacity * 2 + 4) * l.item_size < size_mod

-- The blocks that a pointer keeps.
abbrev pub block : {A : Type 0} → Option A → ℕ
block none = 0
block (some x) = 1

-- From `h` to `h'` as many blocks came in as `after` counts more than `before`.
abbrev pub Balanced : Heap → ℕ → Heap → ℕ → Type 0
Balanced h before h' after = h'.allocs + h.frees + before ≡ h.allocs + h'.frees + after

pub malloc_cases :
    (h : Heap)
    → (((malloc h).0 ≡ true) × Balanced h 0 (malloc h).1 1)
      ⊎ (((malloc h).0 ≡ false) × Balanced h 0 (malloc h).1 0)
unfolding malloc
malloc_cases h = ground arith

grown_size :
    {A : Type 0} (l : DynList A) → Fits l → first_capacity l.capacity * l.item_size < size_mod
grown_size l f =
    grind
      (arith, mul-le-mul_right {m = first_capacity l.capacity} {n = l.capacity * 2 + 4} l.item_size)

small_capacity : {A : Type 0} (l : DynList A) → Fits l → l.capacity * 2 + 4 < size_mod
small_capacity l f = grind (arith, mul-le-mul_right {m = 1} {n = l.item_size} (l.capacity * 2 + 4))

realloc_cases :
    {B : Type 0} (p : Option B) (h : Heap)
    → (((realloc p h).0 ≡ false) × Balanced h 0 (realloc p h).1 0)
      ⊎ (((realloc p h).0 ≡ true) × Balanced h (block p) (realloc p h).1 1)
unfolding realloc malloc
realloc_cases none h = ground arith
realloc_cases (some b) h = ground arith

block_of_room : {B : Type 0} (p : Option (List (Option B))) → 0 < length (slots p) → block p ≡ 1
block_of_room none h = absurd (omega arith)
block_of_room (some xs) h = refl

module _ {A : Type 0} where
  -- The list after its block has grown.
  abbrev pub grown : DynList A → DynList A
  grown l = record l {
    items = some (resize (first_capacity l.capacity) (slots l.items));
    capacity = first_capacity l.capacity;
  }

  grown-IsValid : (l : DynList A) → IsValid l → Fits l → IsValid (grown l)
  grown-IsValid l v f = record {
    within = ground (arith, small_capacity l f);
    room = omega (arith, length-resize (first_capacity l.capacity) (slots l.items));
    filled =
        Filled-resize l.count (first_capacity l.capacity) (slots l.items)
          (ground (arith, small_capacity l f)) v.filled;
  }

  contents-grown : (l : DynList A) → IsValid l → Fits l → contents (grown l) ≡ contents l
  contents-grown l v f =
      collect-resize l.count (first_capacity l.capacity) (slots l.items)
        (ground (arith, small_capacity l f)) v.filled

  reserve_grow :
      (l : DynList A) (h : Heap)
      → l.count ≡ l.capacity
      → Fits l
      → reserve l (l.count + 1) h ≡ (
        ((realloc l.items h).0, (if (realloc l.items h).0 then grown l else l)),
        (realloc l.items h).1,
      )
  unfolding reserve
  reserve_grow l h e f =
      rw (e, new_capacity_step l.capacity (small_capacity l f))
        (ground (
          arith,
          slot_count_exact (first_capacity l.capacity) l.item_size f.sized (grown_size l f),
        ))

  -- A list that only grew has no more than twice the room that it needs.
  abbrev pub IsTight : DynList A → Type 0
  IsTight l = l.capacity ≤ l.count * 2 + 4

  abbrev Reserved : DynList A → Heap → (Bool × DynList A) × Heap → Type 0
  Reserved l h r =
      ((r.0.0 ≡ false) × (r.0.1 ≡ l) × Balanced h 0 r.1 0)
      ⊎ ((r.0.0 ≡ true)
          × IsValid r.0.1
          × (l.count < r.0.1.capacity)
          × (r.0.1.count ≡ l.count)
          × (r.0.1.item_size ≡ l.item_size)
          × (IsTight l → IsTight r.0.1)
          × (contents r.0.1 ≡ contents l)
          × Balanced h (block l.items) r.1 (block r.0.1.items))

  reserve_cases :
      (l : DynList A) (h : Heap) → IsValid l → Fits l → Reserved l h (reserve l (l.count + 1) h)
  reserve_cases l h v f = elim (dec_lt l.count l.capacity) [
    | yes p ↦ unfold reserve in ground arith
    | no p ↦ rw (reserve_grow l h (omega (arith, v.within)) f) (elim (realloc_cases l.items h) [
      | inl (e, b) ↦ rw e (inl (refl, refl, b))
      | inr (e, b) ↦ rw e (
          inr (
            refl,
            grown-IsValid l v f,
            ground (arith, small_capacity l f),
            refl,
            refl,
            (λ t. ground (arith, small_capacity l f, v.within, p)),
            contents-grown l v f,
            b,
          ))
    ])
  ]

  -- The outcomes of adding: nothing changed, or one copy stands at the end.
  abbrev pub Added : (A → M A) → DynList A → A → Heap → (Bool × DynList A) × Heap → Type 0
  Added copy l x h r =
      ((r.0.0 ≡ false) × (r.0.1 ≡ l) × Balanced h 0 r.1 0)
      ⊎ ((h₁ : Heap) × (r.0.0 ≡ true)
          × IsValid r.0.1
          × (r.0.1.item_size ≡ l.item_size)
          × (IsTight l → IsTight r.0.1)
          × (contents r.0.1 ≡ contents l ++ (copy x h₁).0 ∷ [])
          × (r.1 ≡ (copy x h₁).1)
          × Balanced h (block l.items) h₁ (block r.0.1.items))

  -- `list_add` behind its call of `list_reserve`.
  abbrev after_reserve :
      (A → M A) → DynList A → A → (Bool × DynList A) × Heap → (Bool × DynList A) × Heap
  after_reserve copy l x r =
      (if r.0.0
          then (copy x >>= λ x'. pure (
            true,
            record (r.0.1) {
              items = some (set (slots (r.0.1).items) (r.0.1).count (some x'));
              count = ((r.0.1).count + 1) % size_mod;
            },
          ))
          else pure (false, r.0.1))
        r.1

  after_reserve-Added :
      (copy : A → M A) (l : DynList A) (x : A) (h : Heap) (r : (Bool × DynList A) × Heap)
      → (l.capacity * 2 + 4 < size_mod)
      → IsValid l
      → Reserved l h r
      → Added copy l x h (after_reserve copy l x r)
  after_reserve-Added copy l x h ((false, l'), h') s lv (inl c) = inl c
  after_reserve-Added copy l x h ((false, l'), h') s lv (inr c) = cc (c.0)
  after_reserve-Added copy l x h ((true, l'), h') s lv (inl c) = cc (c.0)
  after_reserve-Added copy l x h ((true, l'), h') s lv
        (inr (e, v, more, same_count, size, tight, same, b)) =
      inr (
        h',
        refl,
        valid,
        size,
        (λ t. omega (arith, next, tight t)),
        appended,
        refl,
        omega (arith, b, block_of_room l'.items (omega (arith, room))),
      )
    where
      next : (l'.count + 1) % size_mod ≡ suc l'.count
      next = omega (arith, lv.within)

      room : l'.count < length (slots l'.items)
      room = omega (arith, v.room)

      valid : IsValid (after_reserve copy l x ((true, l'), h')).0.1
      valid = record {
        within = omega (arith, next);
        room = omega (arith, v.room, length-set (slots l'.items) l'.count (some (copy x h').0));
        filled = rw next (Filled-set l'.count (slots l'.items) (copy x h').0 room v.filled);
      }

      appended :
          contents (after_reserve copy l x ((true, l'), h')).0.1 ≡ contents l ++ (copy x h').0 ∷ []
      appended = rw next (
          collect-set l'.count (slots l'.items) (copy x h').0 room v.filled
          ∙ ap (λ (xs : List A). xs ++ (copy x h').0 ∷ []) same)

  -- On a valid list that can still double within `size_t`, `list_add` either fails, with the list
  -- as it was and no block taken, or makes a valid list with the copy of the item behind the old
  -- contents; but for the copy, the blocks taken are the one that the list keeps for its items.
  pub add_cases :
      (copy : A → M A) (l : DynList A) (x : A) (h : Heap)
      → IsValid l
      → Fits l
      → Added copy l x h (add copy l x h)
  unfolding add
  add_cases copy l x h v f =
      after_reserve-Added copy l x h (reserve l ((l.count + 1) % size_mod) h) (small_capacity l f) v
        (rw next (reserve_cases l h v f))
    where
      next : (l.count + 1) % size_mod ≡ l.count + 1
      next = omega (arith, small_capacity l f, v.within)
