-- ===== src/Mcp/Property/Blocks.antt =====
-- What an argument does to the blocks of a property (`mcp_property_copy_from_json` of
-- core/mcp/mcp_property.c).
use mathlib.Core.Path.{subst}
use mlink_device.Prelude.{
  ◌+◌, ◌≡◌, refl, sym, ap, ◌∙◌, inl, inr, Bool, false, none, some, arith, Bool-cases, Option-cases,
}
use mlink_device.Prelude.Int.{ℤ}
use mlink_device.Prelude.Bytes.{Bytes}
use mlink_device.Memory.{Heap}
use mlink_device.Memory as Memory
use mlink_device.DynList.Add.{Balanced, block}
use mlink_device.DynList.Free.{free-block}
use mlink_device.Json.{Json, Env, is_bool, is_number, get_string}
use mlink_device.Mcp.Property.{
  Property, PropertyType, boolean, integer, string, as_string, set_bool, set_int, set_string,
  is_one, copy_from_json,
}
use mlink_device.Mcp.Property.Copy.{Copied, owned, strdup_lem}

-- A text property without a default has no text.
abbrev pub IsTidy : Property → Type 0
IsTidy p = p.type ≡ string → p.has_default ≡ false → as_string p.value ≡ none

pub Copied-IsTidy : (p q : Property) → Copied p q → IsTidy p → IsTidy q
Copied-IsTidy p q c t s d =
    ap as_string (c.value (ground (arith, c.has_default)))
    ∙ t (sym c.type ∙ s) (sym c.has_default ∙ d)

-- The blocks follow the property.
abbrev pub Carried : Property → Heap → (Bool × Property) × Heap → Type 0
Carried p h r = Balanced h (owned p) r.1 (owned r.0.1)

set_bool-Carried :
    (p : Property) (b : Bool) (h : Heap) → p.type ≡ boolean → Carried p h (set_bool p b, h)
unfolding set_bool
set_bool-Carried p b h t = ground arith

set_int-Carried :
    (p : Property) (n : ℤ) (h : Heap) → p.type ≡ integer → Carried p h (set_int p n, h)
unfolding set_int
set_int-Carried p n h t = ground arith

owned_text :
    (p : Property) → p.type ≡ string → IsTidy p → owned p ≡ block p.name + block (as_string p.value)
owned_text p t tidy = elim (Bool-cases p.has_default) [
  | inl d ↦ rw (t, d) refl
  | inr d ↦ rw (tidy t d) (rw (t, d) refl)
]

set_string-Carried :
    (p : Property) (s : Bytes) (h : Heap)
    → p.type ≡ string
    → IsTidy p
    → Carried p h (set_string p (some s) h)
unfolding set_string
set_string-Carried p s h t tidy =
    let h₁ = (Memory.free (as_string p.value) h).1 in
    subst (λ n. Balanced h n (set_string p (some s) h).1 (owned (set_string p (some s) h).0.1))
      (sym (owned_text p t tidy))
      (rw t (omega (arith, free-block (as_string p.value) h, (strdup_lem (some s) h₁).1)))

module _ (e : Env) (p : Property) (j : Json) (h : Heap) (tidy : IsTidy p) where
  same :
      (r : (Bool × Property) × Heap)
      → copy_from_json e p j h ≡ r
      → Carried p h r
      → Carried p h (copy_from_json e p j h)
  same r eq c = subst (Carried p h) (sym eq) c

  unchanged : copy_from_json e p j h ≡ ((false, p), h) → Carried p h (copy_from_json e p j h)
  unchanged eq = same _ eq (omega arith)

  of_type : (t : PropertyType) → p.type ≡ t → Carried p h (copy_from_json e p j h)
  unfolding copy_from_json
  of_type boolean t = elim (Bool-cases (is_bool (some j))) [
    | inl b ↦
        same (set_bool p (is_one (e.valueint j)), h) (ground arith)
          (set_bool-Carried p (is_one (e.valueint j)) h t)
    | inr b ↦ unchanged (ground arith)
  ]
  of_type integer t = elim (Bool-cases (is_number (some j))) [
    | inl b ↦
        same (set_int p (e.valueint j), h) (ground arith) (set_int-Carried p (e.valueint j) h t)
    | inr b ↦ unchanged (ground arith)
  ]
  of_type string t = elim (Option-cases (get_string (some j))) [
    | inl n ↦ unchanged (ground arith)
    | inr (s, n) ↦ same (set_string p (some s) h) (ground arith) (set_string-Carried p s h t tidy)
  ]

  pub copy_from_json-Carried : Carried p h (copy_from_json e p j h)
  copy_from_json-Carried = of_type p.type refl
