-- ===== src/Mcp/Property/Sound.antt =====
-- The union of a property against its type (core/mcp/mcp_property.c).
use mathlib.Core.Path.{subst}
use mlink_device.Prelude.{
  ◌≡◌, refl, sym, inl, inr, Bool, true, false, Option, some, arith, Bool-cases, Option-cases,
}
use mlink_device.Prelude.Int.{ℤ}
use mlink_device.Prelude.Bytes.{Bytes}
use mlink_device.Memory.{Heap, strdup}
use mlink_device.Memory as Memory
use mlink_device.Json.{Json, Env, is_bool, is_number, get_string}
use mlink_device.Mcp.Property.{
  Property, PropertyType, boolean, integer, string, Value, bool_value, int_value, string_value,
  as_string, or_empty, copy_func, set_bool, set_int, set_string, is_one, copy_from_json,
}
use mlink_device.Mcp.Property.Copy.{owns_text, copy_func-Copied}
use mlink_device.Mcp.Property.Blocks.{IsTidy, Copied-IsTidy}

-- The member that belongs to a type.
abbrev pub HasType : PropertyType → Value → Type 0
HasType boolean (bool_value b) = Unit
HasType integer (int_value n) = Unit
HasType string (string_value s) = Unit
HasType t v = ⊥

-- The union holds the member of the type, and a text only with a default.
pub record IsSound (p : Property) : Type 0 where
  pub member : HasType p.type p.value
  pub tidy : IsTidy p

-- A property of a type, whatever is put into it.
typed : (p : Property) (t : PropertyType) (v : Value) → p.type ≡ t → HasType t v → HasType p.type v
typed p t v e m = subst (λ u. HasType u v) (sym e) m

copy_func-HasType :
    (p : Property) (h : Heap)
    → HasType p.type p.value
    → HasType (copy_func p h).0.type (copy_func p h).0.value
copy_func-HasType p h m = elim (Bool-cases (owns_text p)) [
  | inl o ↦
      unfold copy_func in
      rw o (
        typed p string (string_value (strdup (as_string p.value) (strdup p.name h).1).0)
          (ground arith) tt)
  | inr o ↦ unfold copy_func in rw o m
]

pub copy_func-IsSound : (p : Property) (h : Heap) → IsSound p → IsSound (copy_func p h).0
copy_func-IsSound p h s = record {
  member = copy_func-HasType p h s.member;
  tidy = Copied-IsTidy p (copy_func p h).0 (copy_func-Copied p h) s.tidy;
}

stored-IsSound :
    (p : Property) (v : Value)
    → HasType p.type v
    → IsSound (record p { value = v; has_default = true })
stored-IsSound p v m = record { member = m; tidy = λ s d. cc d }

-- The three setters: the value is stored under the type that it belongs to, or nothing changes.
kept : (p q : Property) → IsSound p → q ≡ p → IsSound q
kept p q s e = subst IsSound (sym e) s

stored :
    (p q : Property) (t : PropertyType) (v : Value)
    → p.type ≡ t
    → HasType t v
    → q ≡ record p { value = v; has_default = true }
    → IsSound q
stored p q t v e m eq = subst IsSound (sym eq) (stored-IsSound p v (typed p t v e m))

set_bool-IsSound :
    (p : Property) (b : Bool) → IsSound p → p.type ≡ boolean → IsSound (set_bool p b).1
unfolding set_bool
set_bool-IsSound p b s t = stored p _ boolean (bool_value b) t tt (ground arith)

set_int-IsSound : (p : Property) (n : ℤ) → IsSound p → p.type ≡ integer → IsSound (set_int p n).1
unfolding set_int
set_int-IsSound p n s t = elim (Bool-cases (set_int p n).0) [
  | inl ok ↦ stored p _ integer (int_value n) t tt (ground arith)
  | inr failed ↦ kept p _ s (ground arith)
]

set_string-IsSound :
    (p : Property) (text : Option Bytes) (h : Heap)
    → IsSound p
    → p.type ≡ string
    → IsSound (set_string p text h).0.1
unfolding set_string
set_string-IsSound p text h s t =
    stored p _ string
      (string_value (strdup (some (or_empty text)) (Memory.free (as_string p.value) h).1).0) t tt
      (ground arith)

module _ (e : Env) (p : Property) (j : Json) (h : Heap) (s : IsSound p) where
  same :
      (r : (Bool × Property) × Heap)
      → copy_from_json e p j h ≡ r
      → IsSound r.0.1
      → IsSound (copy_from_json e p j h).0.1
  same r eq c = subst (λ r. IsSound r.0.1) (sym eq) c

  of_type : (t : PropertyType) → p.type ≡ t → IsSound (copy_from_json e p j h).0.1
  unfolding copy_from_json
  of_type boolean t = elim (Bool-cases (is_bool (some j))) [
    | inl b ↦
        same (set_bool p (is_one (e.valueint j)), h) (ground arith)
          (set_bool-IsSound p (is_one (e.valueint j)) s t)
    | inr b ↦ same ((false, p), h) (ground arith) s
  ]
  of_type integer t = elim (Bool-cases (is_number (some j))) [
    | inl b ↦
        same (set_int p (e.valueint j), h) (ground arith) (set_int-IsSound p (e.valueint j) s t)
    | inr b ↦ same ((false, p), h) (ground arith) s
  ]
  of_type string t = elim (Option-cases (get_string (some j))) [
    | inl n ↦ same ((false, p), h) (ground arith) s
    | inr (text, n) ↦
        same (set_string p (some text) h) (ground arith) (set_string-IsSound p (some text) h s t)
  ]

  -- Whatever argument it is given.
  pub copy_from_json-IsSound : IsSound (copy_from_json e p j h).0.1
  copy_from_json-IsSound = of_type p.type refl
