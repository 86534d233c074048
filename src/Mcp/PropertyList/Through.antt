-- ===== src/Mcp/PropertyList/Through.antt =====
-- What adding any property keeps, the three functions that put one together keep as well
-- (core/mcp/mcp_property.c).
use mlink_device.Prelude.{inl, inr, Bool, true, false, Option, none, some, Option-cases}
use mlink_device.Prelude.Int.{ℤ}
use mlink_device.Prelude.Bytes.{Bytes}
use mlink_device.Memory.{Heap, strdup}
use mlink_device.Mcp.Property.{Property}
use mlink_device.Mcp.PropertyList.{
  PropertyList, add, add_bool, add_int, add_string, add_text, bool_property, int_property,
  string_property,
}

-- A predicate on the properties that the three functions put together.
pub record BuiltWith (Good : Property → Type 0) : Type 0 where
  pub booleans : (name : Bytes) (d b : Bool) → Good (bool_property name d b)
  pub integers :
      (name : Bytes) (d : Bool) (n : ℤ) (has_min : Bool) (lo : ℤ) (has_max : Bool) (hi : ℤ)
      → Good (int_property name d n has_min lo has_max hi)
  pub texts : (name text : Bytes) → Good (string_property name true (some text))
  pub no_texts : (name : Bytes) → Good (string_property name false none)

module _ (Q : PropertyList → Type 0) (Good : Property → Type 0) (g : BuiltWith Good)
    (list : PropertyList) (a : Q list)
    (step : (p : Property) (h : Heap) → Good p → Q (add list p h).0.1) where
  pub add_bool-keeps :
      (name : Option Bytes) (d b : Bool) (h : Heap) → Q (add_bool list name d b h).0.1
  unfolding add_bool
  add_bool-keeps none d b h = a
  add_bool-keeps (some name) d b h = elim (Option-cases (strdup (some name) h).0) [
    | inl e ↦ rw e a
    | inr (n, e) ↦ rw e (step (bool_property n d b) (strdup (some name) h).1 (g.booleans n d b))
  ]

  pub add_int-keeps :
      (name : Option Bytes) (d : Bool) (n : ℤ) (has_min : Bool) (lo : ℤ) (has_max : Bool) (hi : ℤ)
      (h : Heap)
      → Q (add_int list name d n has_min lo has_max hi h).0.1
  unfolding add_int
  add_int-keeps none d n has_min lo has_max hi h = a
  add_int-keeps (some name) d n has_min lo has_max hi h =
      elim (Option-cases (strdup (some name) h).0) [
        | inl e ↦ rw e a
        | inr (m, e) ↦ rw e (
            step (int_property m d n has_min lo has_max hi) (strdup (some name) h).1
              (g.integers m d n has_min lo has_max hi))
      ]

  add_text-keeps : (name text : Bytes) (h : Heap) → Q (add_text list name text h).0.1
  add_text-keeps name text h = elim (Option-cases (strdup (some text) h).0) [
    | inl e ↦ rw e a
    | inr (t, e) ↦
        rw e (step (string_property name true (some t)) (strdup (some text) h).1 (g.texts name t))
  ]

  pub add_string-keeps : (name text : Option Bytes) (h : Heap) → Q (add_string list name text h).0.1
  unfolding add_string
  add_string-keeps none text h = a
  add_string-keeps (some name) none h = elim (Option-cases (strdup (some name) h).0) [
    | inl e ↦ rw e a
    | inr (n, e) ↦
        rw e (step (string_property n false none) (strdup (some name) h).1 (g.no_texts n))
  ]
  add_string-keeps (some name) (some text) h = elim (Option-cases (strdup (some name) h).0) [
    | inl e ↦ rw e a
    | inr (n, e) ↦ rw e (add_text-keeps n text (strdup (some name) h).1)
  ]
