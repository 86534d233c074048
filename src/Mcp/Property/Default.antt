-- ===== src/Mcp/Property/Default.antt =====
-- The default value in the JSON description of a property, from `mcp_property_to_json` to
-- `mcp_property_copy_from_json` (core/mcp/mcp_property.c).
use mlink_device.Prelude.{
  sym, ap, ◌∙◌, ◌≡◌, refl, ◌⊎◌, inl, inr, Bool, true, false, Option, none, some, if◌then◌else◌,
}
use mlink_device.Prelude.Bytes.{Bytes, bytes, strcmp_eq}
use mlink_device.Memory.{Heap}
use mlink_device.Json.{Json, bool, Fields, end, field, obj, Env, EnvLaws}
use mlink_device.Mcp.Property.{
  Property, is_one, string, Value, string_value, copy_from_json, property_document,
}
use mlink_device.Mcp.Property.Accept.{
  Accepts, takes_bool, takes_int, takes_string, with_value, copy_from_json-Outcome,
}

-- The first member of an object under exactly that key.
abbrev first : Bytes → Fields → Option Json
first key end = none
first key (field k j rest) = if strcmp_eq k key then some j else first key rest

abbrev pub member : Bytes → Json → Option Json
member key (obj fs) = first key fs
member key _ = none

-- The property before it has a value, or with another one.
abbrev pub reset : Property → Value → Bool → Property
reset p v has_default = record p { value = v; has_default = has_default }

default-member :
    (e : Env) (p : Property) (j : Json) (v : Value)
    → p.has_default ≡ true
    → p.value ≡ v
    → Accepts e p j v
    → ((b : Bool) → j ≡ bool b → is_one (e.valueint j) ≡ b)
    → member (bytes "default") (property_document p) ≡ some j
unfolding property_document strcmp_eq
default-member k p j v d e (takes_bool b t) shown = rw (t, d, e, shown b refl) refl
default-member k p j v d e (takes_int n t r) shown = rw (t, d, e) refl
default-member k p j v d e (takes_string s t) shown = rw (t, d, e) refl

same_value :
    (k : Env) (p : Property) (j : Json) (v w : Value) → Accepts k p j v → Accepts k p j w → v ≡ w
same_value k p j v w (takes_bool b e) (takes_bool c f) = refl
same_value k p j v w (takes_int n e r) (takes_int m f s) = refl
same_value k p j v w (takes_string s e) (takes_string t f) = refl

default_value-Accepts :
    {k : Env} (p : Property) (v : Value) (d : Bool) {j : Json} {w : Value}
    → Accepts k p j w
    → Accepts k (reset p v d) j w
default_value-Accepts p v d (takes_bool b e) = takes_bool b e
default_value-Accepts p v d (takes_int n e r) =
    takes_int n e (record { above = r.above; below = r.below })
default_value-Accepts p v d (takes_string s e) = takes_string s e

module _ (e : Env) (laws : EnvLaws e) where
  -- With a cJSON whose `valueint` of a number is that number: for a property with a default that
  -- it accepts from some document, which, if it is a boolean, has a `valueint` that says so, the
  -- description of the property has exactly that document as its `default`; and the property with
  -- any other value, given this document, is the property again, unless it is a text and the
  -- allocator refuses the next request, which is answered by false and leaves a NULL text.
  pub property_document-copy_from_json :
      (p : Property) (j : Json) (v : Value) (d : Bool) (h : Heap)
      → p.has_default ≡ true
      → Accepts e p j p.value
      → ((b : Bool) → j ≡ bool b → is_one (e.valueint j) ≡ b)
      → (member (bytes "default") (property_document p) ≡ some j)
        × (((copy_from_json e (reset p v d) j h).0 ≡ (true, p))
            ⊎ ((p.type ≡ string)
                × (h.grant h.next ≡ false)
                × ((copy_from_json e (reset p v d) j h).0
                    ≡ (false, with_value p (string_value none)))))
  property_document-copy_from_json p j v d h f a shown = (
    default-member e p j p.value f refl a shown,
    elim (copy_from_json-Outcome e laws (reset p v d) h j) [
      | inl (w, b, r) ↦ inl (
          r
          ∙ ap (λ u. (true, with_value p u))
              (same_value e p j w p.value
                (default_value-Accepts (reset p v d) p.value p.has_default b) a)
          ∙ ap (λ t. (true, record p { has_default = t })) (sym f))
      | inr (refused, cause) ↦
          let (t, full, kept) = cause p.value (default_value-Accepts p v d a) in
          inr (t, full, λ i. (refused i, kept i))
    ],
  )
