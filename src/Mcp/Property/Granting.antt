-- ===== src/Mcp/Property/Granting.antt =====
-- The functions on a property (core/mcp/mcp_property.c) leave the allocator's answers to later
-- requests as they are.
use mlink_device.Prelude.{◌≡◌, ◌∙◌, refl, inl, inr, ◌&&◌, Option, some, Option-cases, not}
use mlink_device.Prelude.Bytes.{Bytes}
use mlink_device.Memory.{Heap, strdup}
use mlink_device.Memory as Memory
use mlink_device.Memory.Granting.{KeepsGrant, if-KeepsGrant, free-KeepsGrant, strdup-KeepsGrant}
use mlink_device.Json.{Json, Env, is_bool, is_number, get_string}
use mlink_device.Mcp.Property.{
  Property, PropertyType, boolean, integer, string, is_string, as_string, copy_func, free_func,
  set_string, copy_from_json,
}

pub copy_func-KeepsGrant : (p : Property) → KeepsGrant (copy_func p)
unfolding copy_func
copy_func-KeepsGrant p h =
    if-KeepsGrant (is_string p.type && p.has_default) _ _
      (λ h'. strdup-KeepsGrant (as_string p.value) h') (λ h'. refl) (strdup p.name h).1
    ∙ strdup-KeepsGrant p.name h

pub free_func-KeepsGrant : (p : Property) → KeepsGrant (free_func p)
unfolding free_func
free_func-KeepsGrant p h =
    if-KeepsGrant (is_string p.type && p.has_default) _ _ (free-KeepsGrant (as_string p.value))
      (λ h'. refl) (Memory.free p.name h).1
    ∙ free-KeepsGrant p.name h

set_string-KeepsGrant : (p : Property) (text : Option Bytes) → KeepsGrant (set_string p text)
unfolding set_string
set_string-KeepsGrant p text =
    if-KeepsGrant (not (is_string p.type)) _ _ (λ h. refl)
      (λ h.
        strdup-KeepsGrant _ (Memory.free (as_string p.value) h).1
        ∙ free-KeepsGrant (as_string p.value) h)

module _ (e : Env) (p : Property) (json : Json) where
  of_type : (t : PropertyType) → p.type ≡ t → KeepsGrant (copy_from_json e p json)
  unfolding copy_from_json
  of_type boolean t h = rw t (if-KeepsGrant (is_bool (some json)) _ _ (λ h'. refl) (λ h'. refl) h)
  of_type integer t h = rw t (if-KeepsGrant (is_number (some json)) _ _ (λ h'. refl) (λ h'. refl) h)
  of_type string t h = rw t (elim (Option-cases (get_string (some json))) [
    | inl n ↦ rw (n, copy_from_json) refl
    | inr (text, n) ↦ rw (n, copy_from_json) (set_string-KeepsGrant _ (some text) h)
  ])

  pub copy_from_json-KeepsGrant : KeepsGrant (copy_from_json e p json)
  copy_from_json-KeepsGrant = of_type p.type refl
