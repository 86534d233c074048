-- ===== src/DynList/Every.antt =====
-- A predicate on all items of the block, through the operations of core/posix/list.c.
use mathlib.Core.Path.{subst}
use mlink_device.Prelude.{
  ℕ, zero, suc, ◌+◌, ◌%◌, ◌≡◌, inl, inr, Option, none, some, List, [], ◌∷◌, arith, set, leb, ltb,
  Bool-cases,
}
use mlink_device.Memory.{Heap, M, realloc}
use mlink_device.DynList.{
  DynList, slots, size_mod, resize, slot_count, new_capacity, reserve, add, read, get, free,
}

module _ {A : Type 0} (P : A → Type 0) where
  -- Also of slots that lie behind the last item.
  abbrev pub Every : List (Option A) → Type 0
  Every [] = Unit
  Every (none ∷ xs) = Every xs
  Every (some x ∷ xs) = P x × Every xs

  resize-Every : (n : ℕ) (xs : List (Option A)) → Every xs → Every (resize n xs)
  resize-Every zero xs e = tt
  resize-Every (suc n) [] e = resize-Every n [] tt
  resize-Every (suc n) (none ∷ xs) e = resize-Every n xs e
  resize-Every (suc n) (some x ∷ xs) e = (e.0, resize-Every n xs e.1)

  set-Every : (xs : List (Option A)) (i : ℕ) (x : A) → P x → Every xs → Every (set xs i (some x))
  set-Every [] i x p e = tt
  set-Every (none ∷ xs) zero x p e = (p, e)
  set-Every (some y ∷ xs) zero x p e = (p, e.1)
  set-Every (none ∷ xs) (suc i) x p e = set-Every xs i x p e
  set-Every (some y ∷ xs) (suc i) x p e = (e.0, set-Every xs i x p e.1)

  read-Every : (xs : List (Option A)) (i : ℕ) (x : A) → Every xs → read xs i ≡ some x → P x
  read-Every [] i x e r = ground arith
  read-Every (none ∷ xs) zero x e r = ground arith
  read-Every (some y ∷ xs) zero x e r = subst P (cc r) e.0
  read-Every (none ∷ xs) (suc i) x e r = read-Every xs i x e r
  read-Every (some y ∷ xs) (suc i) x e r = read-Every xs i x e.1 r

  pub get-Every : (l : DynList A) (i : ℕ) (x : A) → Every (slots l.items) → get l i ≡ some x → P x
  unfolding get
  get-Every l i x e g = elim (Bool-cases (ltb i l.count)) [
    | inl t ↦ read-Every (slots l.items) i x e (ground arith)
    | inr t ↦ ground arith
  ]

  reserve-Every :
      (l : DynList A) (n : ℕ) (h : Heap)
      → Every (slots l.items)
      → Every (slots (reserve l n h).0.1.items)
  unfolding reserve
  reserve-Every l n h e = elim (Bool-cases (leb n l.capacity)) [
    | inl t ↦ rw t e
    | inr t ↦ rw t (elim (Bool-cases (realloc l.items h).0) [
      | inl g ↦
          rw g (resize-Every (slot_count (new_capacity l.capacity n) l.item_size) (slots l.items) e)
      | inr g ↦ rw g e
    ])
  ]

  pub add-Every :
      (copy : A → M A) (l : DynList A) (x : A) (h : Heap)
      → ((h' : Heap) → P (copy x h').0)
      → Every (slots l.items)
      → Every (slots (add copy l x h).0.1.items)
  unfolding add
  add-Every copy l x h copied e =
      let n = (l.count + 1) % size_mod in
      elim (Bool-cases (reserve l n h).0.0) [
        | inl g ↦ rw g (
            set-Every (slots (reserve l n h).0.1.items) (reserve l n h).0.1.count _
              (copied (reserve l n h).1) (reserve-Every l n h e))
        | inr g ↦ rw g (reserve-Every l n h e)
      ]

  pub free-Every :
      (free_func : A → M (Unit {0})) (l : DynList A) (h : Heap)
      → Every (slots (free free_func l h).0.items)
  unfolding free
  free-Every free_func l h = tt
