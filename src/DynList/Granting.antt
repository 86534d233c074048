-- ===== src/DynList/Granting.antt =====
-- The operations of core/posix/list.c leave the allocator's answers to later requests as they are.
use mlink_device.Prelude.{
  ℕ, zero, suc, ◌+◌, ◌%◌, ◌∙◌, ◌≡◌, refl, true, inl, inr, Bool-cases, Option, none, some, List, [],
  ◌∷◌, leb,
}
use mlink_device.Memory.{Heap, M}
use mlink_device.Memory.Granting.{
  HasMemory, realloc-granted, KeepsGrant, if-KeepsGrant, free-KeepsGrant, realloc-KeepsGrant,
}
use mlink_device.DynList.{DynList, slots, size_mod, reserve, add, free_items, free}

module _ {A : Type 0} where
  reserve-KeepsGrant : (l : DynList A) (n : ℕ) → KeepsGrant (reserve l n)
  unfolding reserve
  reserve-KeepsGrant l n =
      if-KeepsGrant (leb n l.capacity) _ _ (λ h. refl) (λ h. realloc-KeepsGrant l.items h)

  pub add-KeepsGrant :
      (copy : A → M A) (l : DynList A) (x : A) → KeepsGrant (copy x) → KeepsGrant (add copy l x)
  unfolding add
  add-KeepsGrant copy l x k h =
      let r = reserve l ((l.count + 1) % size_mod) h in
      if-KeepsGrant (r.0.0) _ _ k (λ h'. refl) r.1 ∙ reserve-KeepsGrant l _ h

  reserve-granted : (l : DynList A) (n : ℕ) (h : Heap) → HasMemory h → (reserve l n h).0.0 ≡ true
  unfolding reserve
  reserve-granted l n h m = elim (Bool-cases (leb n l.capacity)) [
    | inl t ↦ rw t refl
    | inr t ↦ rw (t, realloc-granted l.items h m) refl
  ]

  pub add-granted :
      (copy : A → M A) (l : DynList A) (x : A) (h : Heap)
      → HasMemory h
      → (add copy l x h).0.0 ≡ true
  unfolding add
  add-granted copy l x h m = rw (reserve-granted l ((l.count + 1) % size_mod) h m) refl

  module _ (free_func : A → M (Unit {0})) (k : (x : A) → KeepsGrant (free_func x)) where
    free_items-KeepsGrant : (n : ℕ) (xs : List (Option A)) → KeepsGrant (free_items free_func n xs)
    unfolding free_items
    free_items-KeepsGrant zero xs h = refl
    free_items-KeepsGrant (suc n) [] h = refl
    free_items-KeepsGrant (suc n) (none ∷ xs) h = free_items-KeepsGrant n xs h
    free_items-KeepsGrant (suc n) (some x ∷ xs) h =
        free_items-KeepsGrant n xs (free_func x h).1 ∙ k x h

    pub list_free-KeepsGrant : (l : DynList A) → KeepsGrant (free free_func l)
    unfolding free
    list_free-KeepsGrant l h =
        free-KeepsGrant l.items _ ∙ free_items-KeepsGrant l.count (slots l.items) h
