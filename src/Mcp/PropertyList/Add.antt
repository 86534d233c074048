-- ===== src/Mcp/PropertyList/Add.antt =====
-- What the three functions that add a property (core/mcp/mcp_property.c) do on each branch.
use mathlib.Core.Path.{subst}
use mlink_device.Prelude.{
  sym, ℕ, ◌≡◌, refl, ap, ◌∙◌, ◌⊎◌, inl, inr, Bool, true, false, Option, none, some, [], ◌∷◌, ◌++◌,
  arith,
}
use mlink_device.Prelude.Int.{ℤ}
use mlink_device.Prelude.Bytes.{Bytes}
use mlink_device.Memory.{Heap, M, strdup, pure, ◌>>=◌, ◌>>◌}
use mlink_device.DynList.Contents.{IsValid, contents}
use mlink_device.DynList.Add.{Balanced, Fits, Added, add_cases}
use mlink_device.DynList.Free.{total-append}
use mlink_device.DynList.Clone.{held}
use mlink_device.Memory.Granting.{HasMemory, HasMemory-kept, strdup-KeepsGrant}
use mlink_device.DynList.Granting.{add-granted}
use mlink_device.Mcp.Property.Granting.{copy_func-KeepsGrant}
use mlink_device.Mcp.PropertyList.Granting.{properties_add-KeepsGrant}
use mlink_device.Mcp.Property.{Property, copy_func, free_func}
use mlink_device.Mcp.Property.Copy.{
  Copied, Exact, owned, ownership, strdup-some, copy_func-Copied, copy_func-Exact,
  copy_func-Balanced, free_func-Balanced,
}
use mlink_device.Mcp.PropertyList.{
  PropertyList, add, add_built, add_bool, add_int, add_string, or_refuse, add_text, bool_property,
  int_property, string_property,
}

-- The blocks of a list and of its properties.
abbrev pub kept : PropertyList → ℕ
kept list = held copy_func free_func ownership list

-- Nothing changed, and the allocator does not grant everything; or a copy of the property stands at
-- the end, with all of its texts where the allocator grants everything. On both branches no block
-- is lost.
abbrev pub AddedOne : Property → PropertyList → Heap → (Bool × PropertyList) × Heap → Type 0
AddedOne p list h r =
    ((r.0.0 ≡ false) × (r.0.1 ≡ list) × Balanced h 0 r.1 0 × ¬ HasMemory h)
    ⊎ ((q : Property) × (r.0.0 ≡ true)
        × IsValid r.0.1
        × Copied p q
        × (contents r.0.1 ≡ contents list ++ q ∷ [])
        × Balanced h (kept list) r.1 (kept r.0.1)
        × (HasMemory h → Exact p q))

of_Added :
    (p : Property) (list : PropertyList) (h : Heap) (r : (Bool × PropertyList) × Heap)
    → (HasMemory h → r.0.0 ≡ true)
    → r.1.grant ≡ h.grant
    → Added copy_func list p h r
    → AddedOne p list h r
of_Added p list h r granted g (inl c) = inl (c.0, c.1, c.2, λ m. cc (c.0, granted m))
of_Added p list h r granted g (inr (h₁, e, v, z, t, same, eh, b)) = inr (
  (copy_func p h₁).0,
  e,
  v,
  copy_func-Copied p h₁,
  same,
  balanced,
  λ m.
      copy_func-Exact p h₁ (
        HasMemory-kept h h₁ (sym (ap (λ (k : Heap). k.grant) eh ∙ copy_func-KeepsGrant p h₁) ∙ g)
          m),
)
  where
    balanced : Balanced h (kept list) r.1 (kept r.0.1)
    balanced =
        rw (eh, same)
          (omega (
            arith,
            b,
            copy_func-Balanced p h₁,
            total-append owned (contents list) ((copy_func p h₁).0 ∷ []),
          ))

-- A heap that is some blocks behind another, with the same answers to come.
abbrev Behind : Heap → Heap → ℕ → Type 0
Behind h h' blocks = Balanced h 0 h' blocks × (h'.grant ≡ h.grant)

-- The property on the stack is given back behind the call.
free_built :
    (p : Property) (list : PropertyList) (h h₁ : Heap) (r : (Bool × PropertyList) × Heap)
    → Behind h h₁ (owned p)
    → AddedOne p list h₁ r
    → AddedOne p list h (r.0, (free_func p r.1).1)
free_built p list h h₁ r (b, g) (inl c) =
    inl (
      c.0,
      c.1,
      omega (arith, b, c.2, free_func-Balanced p r.1),
      λ m. c.3 (HasMemory-kept h h₁ g m),
    )
free_built p list h h₁ r (b, g) (inr (q, e, v, copied, same, c, exact)) = inr (
  q,
  e,
  v,
  copied,
  same,
  omega (arith, b, c, free_func-Balanced p r.1),
  λ m. exact (HasMemory-kept h h₁ g m),
)

-- With a NULL default the property has none.
abbrev pub given_string : Bytes → Option Bytes → Property
given_string name none = string_property name false none
given_string name (some text) = string_property name true (some text)

module _ (list : PropertyList) (v : IsValid list) (f : Fits list) where
  add_built-AddedOne :
      (p : Property) (h h₁ : Heap) → Behind h h₁ (owned p) → AddedOne p list h (add_built list p h₁)
  add_built-AddedOne p h h₁ b = free_built p list h h₁ (add list p h₁) b (
      of_Added p list h₁ (add list p h₁) (unfold add in add-granted copy_func list p h₁)
        (properties_add-KeepsGrant list p h₁) (unfold add in add_cases copy_func list p h₁ v f))

  -- Where the name cannot be duplicated, nothing is added.
  refused :
      (p : Property) (h h' : Heap)
      → Balanced h 0 h' 0
      → ¬ HasMemory h
      → AddedOne p list h ((false, list), h')
  refused p h h' b full = inl (refl, refl, b, full)

  -- The two ways in which a function goes on behind a `strdup`.
  by_strdup :
      (text : Bytes) (h h₁ : Heap) (p : Property) (stop : M (Bool × PropertyList))
      (go : Bytes → M (Bool × PropertyList))
      → h₁.grant ≡ h.grant
      → ((h₂ : Heap) → Balanced h₁ 0 h₂ 1 → h₂.grant ≡ h.grant → AddedOne p list h (go text h₂))
      → ((h₂ : Heap) → Balanced h₁ 0 h₂ 0 → ¬ HasMemory h → AddedOne p list h (stop h₂))
      → AddedOne p list h ((strdup (some text) >>= λ copied. or_refuse copied stop go) h₁)
  by_strdup text h h₁ p stop go g granted denied = elim (strdup-some text h₁) [
    | inl (e, c) ↦
        subst (λ o. AddedOne p list h (or_refuse o stop go (strdup (some text) h₁).1)) (sym e)
          (granted (strdup (some text) h₁).1 c (strdup-KeepsGrant (some text) h₁ ∙ g))
    | inr (e, c, full) ↦
        subst (λ o. AddedOne p list h (or_refuse o stop go (strdup (some text) h₁).1)) (sym e)
          (denied (strdup (some text) h₁).1 c (λ m. cc (full, HasMemory-kept h h₁ g m h₁.next)))
  ]

  -- A property that owns its name alone.
  by_name :
      (p : Property) (name : Bytes) (go : Bytes → Property) (h : Heap)
      → go name ≡ p
      → owned p ≡ 1
      → AddedOne p list h (
          (strdup (some name) >>= λ copied.
          or_refuse copied (pure (false, list)) (λ n. add_built list (go n)))
            h)
  by_name p name go h e o =
      by_strdup name h h p (pure (false, list)) (λ n. add_built list (go n)) refl
        (λ h₂ b k. rw e (add_built-AddedOne p h h₂ (omega (arith, o, b), k)))
        (λ h₂ b full. refused p h h₂ b full)

  -- On a valid list that can still double within `size_t`, adding a boolean property puts a copy
  -- of the property that is asked for at the end, and the blocks taken are the ones that the list
  -- keeps; or it fails, with the list as it was and no block lost.
  pub add_bool-AddedOne :
      (name : Bytes) (d b : Bool) (h : Heap)
      → AddedOne (bool_property name d b) list h (add_bool list (some name) d b h)
  unfolding add_bool
  add_bool-AddedOne name d b h =
      by_name (bool_property name d b) name (λ n. bool_property n d b) h refl refl

  -- On a valid list that can still double within `size_t`, adding an integer property with any
  -- default and limits puts a copy of it at the end, and the blocks taken are the ones that the
  -- list keeps; or it fails, with the list as it was and no block lost.
  pub add_int-AddedOne :
      (name : Bytes) (d : Bool) (n : ℤ) (has_min : Bool) (lo : ℤ) (has_max : Bool) (hi : ℤ)
      (h : Heap)
      → AddedOne
          (int_property name d n has_min lo has_max hi)
          list
          h
          (add_int list (some name) d n has_min lo has_max hi h)
  unfolding add_int
  add_int-AddedOne name d n has_min lo has_max hi h =
      by_name (int_property name d n has_min lo has_max hi) name
        (λ m. int_property m d n has_min lo has_max hi) h refl refl

  add_text-AddedOne :
      (name text : Bytes) (h h₁ : Heap)
      → Balanced h 0 h₁ 1
      → h₁.grant ≡ h.grant
      → AddedOne (string_property name true (some text)) list h (add_text list name text h₁)
  add_text-AddedOne name text h h₁ b g =
      by_strdup text h h₁ (string_property name true (some text))
        (free_func (string_property name true none) >> pure (false, list))
        (λ t. add_built list (string_property name true (some t))) g
        (λ h₂ c k.
          add_built-AddedOne (string_property name true (some text)) h h₂ (omega (arith, b, c), k))
        (λ h₂ c full.
          refused (string_property name true (some text)) h
            (free_func (string_property name true none) h₂).1
            (omega (arith, b, c, free_func-Balanced (string_property name true none) h₂)) full)

  -- On a valid list that can still double within `size_t`, adding a string property, with a
  -- default text or without one, puts a copy of it at the end, and the blocks taken are the ones
  -- that the list keeps; or it fails, with the list as it was and no block lost.
  pub add_string-AddedOne :
      (name : Bytes) (text : Option Bytes) (h : Heap)
      → AddedOne (given_string name text) list h (add_string list (some name) text h)
  unfolding add_string
  add_string-AddedOne name none h =
      by_name (string_property name false none) name (λ n. string_property n false none) h refl refl
  add_string-AddedOne name (some text) h =
      by_strdup name h h (string_property name true (some text)) (pure (false, list))
        (λ n. add_text list n text) refl (λ h₂ b g. add_text-AddedOne name text h h₂ b g)
        (λ h₂ b full. refused (string_property name true (some text)) h h₂ b full)

  -- What each of the three functions makes of a name.
  pub record AddsOne (name : Bytes) (h : Heap) : Type 0 where
    pub booleans :
        (d b : Bool) → AddedOne (bool_property name d b) list h (add_bool list (some name) d b h)
    pub integers :
        (d : Bool) (n : ℤ) (has_min : Bool) (lo : ℤ) (has_max : Bool) (hi : ℤ)
        → AddedOne
            (int_property name d n has_min lo has_max hi)
            list
            h
            (add_int list (some name) d n has_min lo has_max hi h)
    pub strings :
        (text : Option Bytes)
        → AddedOne (given_string name text) list h (add_string list (some name) text h)

  -- On a valid list that can still double within `size_t`, adding a boolean property, an integer
  -- property with any default and limits, or a string property with a default text or without one
  -- puts a copy of the property that is asked for at the end, and the blocks taken are the ones
  -- that the list keeps; or it fails, with the list as it was and no block lost. It fails, or
  -- adds a copy without its name or its text, only with an allocator that does not grant
  -- everything.
  pub add-AddsOne : (name : Bytes) (h : Heap) → AddsOne name h
  add-AddsOne name h = record {
    booleans = λ d b. add_bool-AddedOne name d b h;
    integers = λ d n has_min lo has_max hi. add_int-AddedOne name d n has_min lo has_max hi h;
    strings = λ text. add_string-AddedOne name text h;
  }
