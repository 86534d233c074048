-- ===== src/Mcp/PropertyList/Clone.antt =====
-- `mcp_property_list_clone` of core/mcp/mcp_property.c against `list_clone` of core/posix/list.c.
use mathlib.Core.Path.{subst}
use mlink_device.Prelude.{
  sym, ℕ, zero, suc, ◌+◌, ◌*◌, ◌<◌, ◌≡◌, refl, ◌⊎◌, inl, inr, Bool, List, [], arith, Option-cases,
  Bool-cases,
}
use mlink_device.Memory.{Heap}
use mlink_device.DynList.{size_mod, get}
use mlink_device.DynList as Items
use mlink_device.DynList.Contents.{IsValid, contents}
use mlink_device.DynList.Add.{Balanced}
use mlink_device.DynList.Clone.{Pointwise, Cloned, clone-Cloned}
use mlink_device.DynList.Copying.{clone_exactly}
use mlink_device.Memory.Granting.{HasMemory}
use mlink_device.Mcp.Property.{Property, copy_func, free_func}
use mlink_device.Mcp.Property.Copy.{Copied, Exact, copy_func-Exact, ownership}
use mlink_device.Mcp.Property.Granting.{copy_func-KeepsGrant}
use mlink_device.Mcp.PropertyList.{
  PropertyList, sizeof_property, init, add, free, clone_loop, clone,
}
use mlink_device.Mcp.PropertyList.Add.{kept}

-- The two loops leave the same list and the same heap.
clone_loop-Items :
    (source dst : PropertyList) (index rounds : ℕ) (h : Heap)
    → clone_loop source dst index rounds h ≡ (
      (Items.clone_loop copy_func free_func source dst index rounds h).0.1,
      (Items.clone_loop copy_func free_func source dst index rounds h).1,
    )
unfolding clone_loop Items.clone_loop add free
clone_loop-Items source dst index zero h = refl
clone_loop-Items source dst index (suc rounds) h = elim (Option-cases (get source index)) [
  | inl e ↦ rw (e, clone_loop, Items.clone_loop) refl
  | inr (p, e) ↦
      rw (e, clone_loop, Items.clone_loop)
        (elim (Bool-cases (Items.add copy_func dst p h).0.0) [
          | inl b ↦ rw b (
              clone_loop-Items source (Items.add copy_func dst p h).0.1 (index + 1) rounds
                (Items.add copy_func dst p h).1)
          | inr b ↦ rw b refl
        ])
]

-- The clone that tools are made with is `list_clone` without its answer.
clone-Items :
    (source : PropertyList) (h : Heap)
    → source.item_size ≡ sizeof_property
    → clone source h ≡ (
      (Items.clone copy_func free_func source h).0.1,
      (Items.clone copy_func free_func source h).1,
    )
unfolding clone Items.clone Items.init init
clone-Items source h e =
    subst
      (λ n. clone_loop source init 0 source.count h ≡ (
        (Items.clone_loop copy_func free_func source (Items.init Property n) 0 source.count h).0.1,
        (Items.clone_loop copy_func free_func source (Items.init Property n) 0 source.count h).1,
      ))
      (sym e) (clone_loop-Items source init 0 source.count h)

-- A copy of every property in order or none, and with memory for everything a copy of every
-- property with all of its texts.
abbrev pub Clones : Heap → List Property → List Property → Type 0
Clones h ps qs = ((qs ≡ []) ⊎ Pointwise Copied ps qs) × (HasMemory h → Pointwise Exact ps qs)

abbrev pub ClonedOf : List Property → Heap → PropertyList × Heap → Type 0
ClonedOf ps h r = Clones h ps (contents r.0) × IsValid r.0 × Balanced h 0 r.1 (kept r.0)

of_Cloned :
    (ps : List Property) (h : Heap) (r : (Bool × PropertyList) × Heap)
    → (HasMemory h → Pointwise Exact ps (contents r.0.1))
    → Cloned copy_func free_func ownership ps h 0 r
    → ClonedOf ps h (r.0.1, r.1)
of_Cloned ps h r exact (inl (_, count, capacity, items, b)) =
    let (empty, v, kept_none) : (contents r.0.1 ≡ [])
        × IsValid r.0.1
        × Balanced h 0 r.1 (kept r.0.1) =
      rw (count, items, capacity) (refl, omega arith, omega arith) in
    ((inl empty, exact), v, kept_none)
of_Cloned ps h r exact (inr (_, v, p, b)) = ((inr p, exact), v, b)

-- Cloning a valid property list that is small enough for `size_t` makes a valid list with a copy
-- of every property in order, or with none, and the blocks taken are the ones that the clone
-- keeps; with an allocator that grants everything it has a copy of every property with all of its
-- texts.
pub clone_cases :
    (source : PropertyList) (h : Heap)
    → IsValid source
    → source.item_size ≡ sizeof_property
    → (source.count * 4 + 12) * sizeof_property < size_mod
    → ClonedOf (contents source) h (clone source h)
clone_cases source h v e small =
    subst (ClonedOf (contents source) h) (sym (clone-Items source h e)) (
      of_Cloned (contents source) h (Items.clone copy_func free_func source h)
        (clone_exactly copy_func free_func Exact copy_func-Exact copy_func-KeepsGrant source v
          (omega (arith, e)) (rw e small) h)
        (clone-Cloned copy_func free_func ownership source v (omega arith) (rw e small) h))
