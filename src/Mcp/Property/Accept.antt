-- ===== src/Mcp/Property/Accept.antt =====
-- How a JSON argument becomes the value of a property (`mcp_property_copy_from_json`).
use mathlib.Core.Path.{subst}
use mlink_device.Prelude.{
  sym, ◌∙◌, ◌≡◌, refl, ◌⊎◌, inl, inr, Bool, true, false, ◌&&◌, none, some, arith, Bool-cases,
}
use mlink_device.Prelude.Int.{ℤ, ◌≤ℤ◌, ltb_ℤ}
use mlink_device.Prelude.Bytes.{Bytes}
use mlink_device.Memory.{Heap}
use mlink_device.Memory as Memory
use mlink_device.Memory.Granting.{free-answer}
use mlink_device.Mcp.Property.Copy.{strdup-some}
use mlink_device.Json.{Json, bool, num, str, Env, EnvLaws}
use mlink_device.Mcp.Property.{
  Property, PropertyType, boolean, integer, string, Value, bool_value, int_value, string_value,
  is_one, set_bool, set_int, set_string, as_string, copy_from_json,
}

-- The bounds that a property sets.
pub record InRange (p : Property) (n : ℤ) : Type 0 where
  pub above : p.has_min ≡ true → p.min_value ≤ℤ n
  pub below : p.has_max ≡ true → n ≤ℤ p.max_value

-- The property with a value.
abbrev pub with_value : Property → Value → Property
with_value p v = record p { value = v; has_default = true }

range_tests :
    (p : Property) (n : ℤ)
    → InRange p n
      ⊎ (((p.has_min && ltb_ℤ n p.min_value) ≡ true) × ¬ InRange p n)
      ⊎ (((p.has_max && ltb_ℤ p.max_value n) ≡ true) × ¬ InRange p n)
range_tests p n = elim (Bool-cases (p.has_min && ltb_ℤ n p.min_value)) [
  | inl t ↦ inr (inl (t, λ r. ground (arith, r.above)))
  | inr t ↦ elim (Bool-cases (p.has_max && ltb_ℤ p.max_value n)) [
    | inl u ↦ inr (inr (u, λ r. ground (arith, r.below)))
    | inr u ↦ inl (record { above = λ m. ground arith; below = λ m. ground arith })
  ]
]

-- The arguments that a property accepts, and the value that each becomes. A boolean is read off
-- the item's `valueint`.
pub data Accepts (e : Env) (p : Property) : Json → Value → Type 0 where
  takes_bool :
      (b : Bool)
      → p.type ≡ boolean
      → Accepts e p (bool b) (bool_value (is_one (e.valueint (bool b))))
  takes_int : (n : ℤ) → p.type ≡ integer → InRange p n → Accepts e p (num n) (int_value n)
  takes_string : (s : Bytes) → p.type ≡ string → Accepts e p (str s) (string_value (some s))

-- What the loop over the arguments sees of one property: its new value where the argument is
-- accepted; otherwise a refusal, which an accepted text meets only where the allocator refuses the
-- next request, which is the one for its copy.
abbrev pub Outcome : Env → Property → Heap → Json → Bool × Property → Type 0
Outcome e p h j r =
    ((v : Value) × Accepts e p j v × (r ≡ (true, with_value p v)))
    ⊎ ((r.0 ≡ false)
        × ((v : Value)
            → Accepts e p j v
            → (p.type ≡ string)
              × (h.grant h.next ≡ false)
              × (r.1 ≡ with_value p (string_value none))))

in_range : {e : Env} {p : Property} {n : ℤ} {v : Value} → Accepts e p (num n) v → InRange p n
in_range (takes_int n e r) = r

set_int-Outcome :
    (k : Env) (p : Property) (h : Heap) (n : ℤ)
    → p.type ≡ integer
    → Outcome k p h (num n) (set_int p n)
unfolding set_int
set_int-Outcome k p h n e = elim (range_tests p n) [
  | inl r ↦ inl (int_value n, takes_int n e r, ground (arith, r.above, r.below))
  | inr (inl (t, out)) ↦ inr (ground arith, λ v a. absurd (out (in_range a)))
  | inr (inr (t, out)) ↦ inr (ground arith, λ v a. absurd (out (in_range a)))
]

set_bool-Outcome :
    (k : Env) (p : Property) (h : Heap) (b : Bool)
    → p.type ≡ boolean
    → Outcome k p h (bool b) (set_bool p (is_one (k.valueint (bool b))))
unfolding set_bool
set_bool-Outcome k p h b e =
    inl (bool_value (is_one (k.valueint (bool b))), takes_bool b e, ground arith)

set_string-Outcome :
    (k : Env) (p : Property) (s : Bytes) (h : Heap)
    → p.type ≡ string
    → Outcome k p h (str s) (set_string p (some s) h).0
unfolding set_string
set_string-Outcome k p s h e = elim (strdup-some s (Memory.free (as_string p.value) h).1) [
  | inl (d, _) ↦ inl (string_value (some s), takes_string s e, ground arith)
  | inr (d, _, refused) ↦
      inr
        (ground arith, λ v a. (e, sym (free-answer (as_string p.value) h) ∙ refused, ground arith))
]

-- The kind of item that a type of property is read from.
abbrev pub TypeFits : PropertyType → Json → Type 0
TypeFits boolean (bool b) = Unit
TypeFits integer (num n) = Unit
TypeFits string (str s) = Unit
TypeFits t j = ⊥

Accepts-TypeFits :
    {k : Env} {p : Property} {j : Json} {v : Value} → Accepts k p j v → TypeFits p.type j
Accepts-TypeFits {p = p} (takes_bool b e) = subst (λ t. TypeFits t (bool b)) (sym e) tt
Accepts-TypeFits {p = p} (takes_int n e r) = subst (λ t. TypeFits t (num n)) (sym e) tt
Accepts-TypeFits {p = p} (takes_string s e) = subst (λ t. TypeFits t (str s)) (sym e) tt

refused-Outcome :
    (k : Env) (p : Property) (h : Heap) (j : Json)
    → ¬ TypeFits p.type j
    → Outcome k p h j (false, p)
refused-Outcome k p h j m = inr (refl, λ v a. absurd (m (Accepts-TypeFits a)))

module _ (e : Env) (laws : EnvLaws e) (p : Property) (h : Heap) where
  as_declared :
      (t : PropertyType) (j : Json) → p.type ≡ t → Outcome e p h j (copy_from_json e p j h).0
  unfolding copy_from_json
  as_declared boolean (bool b) d =
      subst (Outcome e p h (bool b)) (ground arith) (set_bool-Outcome e p h b d)
  as_declared integer (num n) d =
      subst (Outcome e p h (num n)) (ground (arith, laws.valueint_num n))
        (set_int-Outcome e p h n d)
  as_declared string (str s) d =
      subst (Outcome e p h (str s)) (ground arith) (set_string-Outcome e p s h d)
  as_declared t j d =
      subst (Outcome e p h j) (ground arith)
        (refused-Outcome e p h j (λ m. subst (λ u. TypeFits u j) d m))

  -- With a cJSON whose `valueint` of a number is that number, a property takes from a document
  -- exactly the value that it accepts, of its type and within its range, a boolean being whether
  -- the item's `valueint` is 1, with its default flag set; otherwise it refuses, and an accepted
  -- value is refused only as a text and only where the allocator refuses the next request, which
  -- leaves a NULL text.
  pub copy_from_json-Outcome : (j : Json) → Outcome e p h j (copy_from_json e p j h).0
  copy_from_json-Outcome j = as_declared p.type j refl
