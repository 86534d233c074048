-- ===== src/Mcp/PropertyList/Blocks.antt =====
-- The blocks and the room of a property list, from its creation to its end (core/mcp/mcp_property.c).
use mathlib.Core.Path.{subst}
use mlink_device.Prelude.{
  ℕ, ◌+◌, ◌*◌, ◌≤◌, ◌<◌, ◌≡◌, refl, sym, ap, ◌∙◌, ◌⊎◌, inl, inr, Bool, Option, none, some, [], ◌∷◌,
  arith, length, length-append, suc,
}
use mlink_device.Prelude.Int.{ℤ}
use mlink_device.Prelude.Bytes.{Bytes}
use mlink_device.Memory.{Heap}
use mlink_device.DynList.{size_mod, slots}
use mlink_device.DynList as Items
use mlink_device.DynList.Contents.{IsValid, contents, init-IsValid, length-collect}
use mlink_device.DynList.Add.{Balanced, Fits, IsTight, Added, add_cases, malloc_cases}
use mlink_device.DynList.Free.{free-block, free-Balanced}
use mlink_device.Mcp.Property.{Property, copy_func, free_func}
use mlink_device.Mcp.Property.Copy.{owned, free_func-Balanced}
use mlink_device.Mcp.PropertyList.{
  PropertyList, sizeof_property, init, create, destroy, free, add, add_bool, add_int, add_string,
}
use mlink_device.Mcp.PropertyList.Add.{
  kept, AddedOne, add_bool-AddedOne, add_int-AddedOne, add_string-AddedOne,
}
use mlink_device.Mcp.PropertyList.Through.{
  BuiltWith, add_bool-keeps, add_int-keeps, add_string-keeps,
}

pub create_cases :
    (h : Heap)
    → (((create h).0 ≡ some init) × Balanced h 0 (create h).1 1)
      ⊎ (((create h).0 ≡ none) × Balanced h 0 (create h).1 0)
unfolding create
create_cases h = elim (malloc_cases h) [
  | inl (g, b) ↦ inl (rw g refl, b)
  | inr (g, b) ↦ inr (rw g refl, b)
]

pub destroy-Balanced :
    (list : PropertyList) (h : Heap) → Balanced h (1 + kept list) (destroy (some list) h).1 0
unfolding destroy free
destroy-Balanced list h = omega (
  arith,
  free-Balanced owned free_func free_func-Balanced list h,
  free-block (some (tt {0})) (free list h).1,
)

-- A valid list of at most n items, which has no more than twice the room that it needs.
pub record Roomy (n : ℕ) (list : PropertyList) : Type 0 where
  pub valid : IsValid list
  pub tight : IsTight list
  pub sized : list.item_size ≡ sizeof_property
  pub few : list.count ≤ n

-- As many items can be cloned within `size_t`.
abbrev pub IsSmall : ℕ → Type 0
IsSmall n = (n * 4 + 12) * sizeof_property < size_mod

pub Roomy-Fits : (n : ℕ) (list : PropertyList) → IsSmall n → Roomy n list → Fits list
Roomy-Fits n list s r = record {
  sized = omega (arith, r.sized);
  small = rw r.sized (omega (arith, r.tight, r.few));
}

pub init-Roomy : Roomy 0 init
unfolding init Items.init
init-Roomy = record {
  valid = init-IsValid Property sizeof_property;
  tight = omega arith;
  sized = refl;
  few = omega arith;
}

pub kept-init : kept init ≡ 0
unfolding init Items.init
kept-init = refl

more : (n : ℕ) (list : PropertyList) → Roomy n list → Roomy (suc n) list
more n list r = record {
  valid = r.valid;
  tight = r.tight;
  sized = r.sized;
  few = omega (arith, r.few);
}

of_Added :
    (n : ℕ) (list : PropertyList) (p : Property) (h : Heap) (r : (Bool × PropertyList) × Heap)
    → Roomy n list
    → Added copy_func list p h r
    → Roomy (suc n) r.0.1
of_Added n list p h ((b, l), h') m (inl (e, same, c)) =
    subst (Roomy (suc n)) (sym same) (more n list m)
of_Added n list p h ((b, l), h') m (inr (h₁, e, v, z, t, same, eh, c)) = record {
  valid = v;
  tight = t m.tight;
  sized = z ∙ m.sized;
  few = omega (
    arith,
    m.few,
    ap length same,
    length-append (contents list) ((copy_func p h₁).0 ∷ []),
    length-collect l.count (slots l.items) v.filled,
    length-collect list.count (slots list.items) (m.valid).filled,
  );
}

-- What one request to add a property does to a list with room for it.
pub record Grown (n : ℕ) (list : PropertyList) (h : Heap) (r : (Bool × PropertyList) × Heap)
    : Type 0 where
  pub roomy : Roomy (suc n) r.0.1
  pub balanced : Balanced h (kept list) r.1 (kept r.0.1)

of_AddedOne :
    (p : Property) (list : PropertyList) (h : Heap) (r : (Bool × PropertyList) × Heap)
    → AddedOne p list h r
    → Balanced h (kept list) r.1 (kept r.0.1)
of_AddedOne p list h r (inl (e, same, b, full)) = omega (arith, b, ap kept same)
of_AddedOne p list h r (inr (q, e, v, c, same, b, exact)) = b

any_property : BuiltWith (λ p. Unit)
any_property = record {
  booleans = λ name d b. tt;
  integers = λ name d n has_min lo has_max hi. tt;
  texts = λ name text. tt;
  no_texts = λ name. tt;
}

module _ (n : ℕ) (small : IsSmall n) (list : PropertyList) (m : Roomy n list) where
  step : (p : Property) (h : Heap) → Unit {0} → Roomy (suc n) (add list p h).0.1
  unfolding add
  step p h _ =
      of_Added n list p h (add list p h) m
        (add_cases copy_func list p h m.valid (Roomy-Fits n list small m))

  pub add_bool-Grown :
      (name : Option Bytes) (d b : Bool) (h : Heap) → Grown n list h (add_bool list name d b h)
  unfolding add_bool
  add_bool-Grown none d b h = record { roomy = more n list m; balanced = omega arith }
  add_bool-Grown (some name) d b h = record {
    roomy =
        add_bool-keeps (Roomy (suc n)) (λ p. Unit) any_property list (more n list m) step
          (some name) d b h;
    balanced =
        of_AddedOne _ list h (add_bool list (some name) d b h)
          (add_bool-AddedOne list m.valid (Roomy-Fits n list small m) name d b h);
  }

  pub add_int-Grown :
      (name : Option Bytes) (d : Bool) (k : ℤ) (has_min : Bool) (lo : ℤ) (has_max : Bool) (hi : ℤ)
      (h : Heap)
      → Grown n list h (add_int list name d k has_min lo has_max hi h)
  unfolding add_int
  add_int-Grown none d k has_min lo has_max hi h = record {
    roomy = more n list m;
    balanced = omega arith;
  }
  add_int-Grown (some name) d k has_min lo has_max hi h = record {
    roomy =
        add_int-keeps (Roomy (suc n)) (λ p. Unit) any_property list (more n list m) step (some name)
          d k has_min lo has_max hi h;
    balanced = of_AddedOne _ list h (add_int list (some name) d k has_min lo has_max hi h) (
        add_int-AddedOne list m.valid (Roomy-Fits n list small m) name d k has_min lo has_max hi h);
  }

  pub add_string-Grown :
      (name text : Option Bytes) (h : Heap) → Grown n list h (add_string list name text h)
  unfolding add_string
  add_string-Grown none text h = record { roomy = more n list m; balanced = omega arith }
  add_string-Grown (some name) text h = record {
    roomy =
        add_string-keeps (Roomy (suc n)) (λ p. Unit) any_property list (more n list m) step
          (some name) text h;
    balanced =
        of_AddedOne _ list h (add_string list (some name) text h)
          (add_string-AddedOne list m.valid (Roomy-Fits n list small m) name text h);
  }
