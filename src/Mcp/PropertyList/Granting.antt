-- ===== src/Mcp/PropertyList/Granting.antt =====
-- The functions on lists of properties (core/mcp/mcp_property.c) leave the allocator's answers to
-- later requests as they are.
use mlink_device.Prelude.{ℕ, zero, suc, ◌+◌, ◌∙◌, refl, inl, inr, Option-cases}
use mlink_device.Memory.Granting.{KeepsGrant, if-KeepsGrant}
use mlink_device.DynList.{get}
use mlink_device.DynList.Granting.{add-KeepsGrant, list_free-KeepsGrant}
use mlink_device.Mcp.Property.{Property, copy_func, free_func}
use mlink_device.Mcp.Property.Granting.{copy_func-KeepsGrant, free_func-KeepsGrant}
use mlink_device.Mcp.PropertyList.{PropertyList, init, add, free, clone_loop, clone}

pub properties_add-KeepsGrant : (list : PropertyList) (p : Property) → KeepsGrant (add list p)
unfolding add
properties_add-KeepsGrant list p = add-KeepsGrant copy_func list p (copy_func-KeepsGrant p)

pub properties_free-KeepsGrant : (list : PropertyList) → KeepsGrant (free list)
unfolding free
properties_free-KeepsGrant list = list_free-KeepsGrant free_func free_func-KeepsGrant list

clone_loop-KeepsGrant :
    (source dst : PropertyList) (index rounds : ℕ) → KeepsGrant (clone_loop source dst index rounds)
unfolding clone_loop
clone_loop-KeepsGrant source dst index zero h = refl
clone_loop-KeepsGrant source dst index (suc rounds) h = elim (Option-cases (get source index)) [
  | inl n ↦ rw (n, clone_loop) (properties_free-KeepsGrant dst h)
  | inr (p, n) ↦
      rw (n, clone_loop)
        (if-KeepsGrant (add dst p h).0.0 _ _
            (clone_loop-KeepsGrant source (add dst p h).0.1 (index + 1) rounds)
            (properties_free-KeepsGrant (add dst p h).0.1) (add dst p h).1
          ∙ properties_add-KeepsGrant dst p h)
]

pub clone-KeepsGrant : (source : PropertyList) → KeepsGrant (clone source)
unfolding clone
clone-KeepsGrant source = clone_loop-KeepsGrant source init 0 source.count
