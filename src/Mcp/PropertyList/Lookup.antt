-- ===== src/Mcp/PropertyList/Lookup.antt =====
-- A property that was added, as the getters see it (core/mcp/mcp_property.c).
use mlink_device.Prelude.{
  ◌≡◌, refl, sym, ap, ◌∙◌, ◌⊎◌, inl, inr, Bool, true, false, not, Option, none, some, List, [], ◌∷◌,
  ◌++◌, if◌then◌else◌, arith, Bool-cases,
}
use mlink_device.Prelude.Int.{ℤ}
use mlink_device.Prelude.Bytes.{Bytes, strcmp_eq_refl}
use mlink_device.Memory.{Heap}
use mlink_device.DynList.Contents.{IsValid, contents}
use mlink_device.DynList.Add.{Fits}
use mathlib.Core.Path.{subst}
use mlink_device.Prelude.{◌||◌}
use mlink_device.Mcp.Property.{
  Property, is_boolean, is_integer, is_string, as_bool, as_int, as_string,
}
use mlink_device.Mcp.Property.Copy.{Copied, Exact}
use mlink_device.Memory.Granting.{HasMemory}
use mlink_device.Mcp.PropertyList.{
  PropertyList, is_named, add_bool, add_int, add_string, bool_property, int_property,
  string_property, get_bool, get_int, get_string,
}
use mlink_device.Mcp.PropertyList as PropertyList
use mlink_device.Mcp.PropertyList.Add.{
  AddedOne, given_string, add_bool-AddedOne, add_int-AddedOne, add_string-AddedOne,
}
use mlink_device.Mcp.PropertyList.Find.{first_named, get-first_named}

first_named-snoc :
    (name : Bytes) (ps : List Property) (q : Property)
    → first_named name ps ≡ none
    → first_named name (ps ++ q ∷ []) ≡ (if is_named name q then some q else none)
unfolding first_named
first_named-snoc name [] q e = refl
first_named-snoc name (p ∷ ps) q e = elim (Bool-cases (is_named name p)) [
  | inl t ↦ ground arith
  | inr f ↦ ground (arith, first_named-snoc name ps q)
]

named_copy :
    (name : Bytes) (p q : Property)
    → p.name ≡ some name
    → Copied p q
    → (is_named name q ≡ true) ⊎ (q.name ≡ none)
named_copy name p q named c = elim c.name [
  | inl e ↦ inl (rw (e ∙ named) (strcmp_eq_refl name))
  | inr e ↦ inr e
]

-- What comes of adding a value: the list in which the name now has the value; or, only where the
-- allocator does not grant everything, nothing, or a list whose last property has lost a text of
-- its own, so that the name has none.
pub data Stored {V : Type 0} (list : PropertyList) (name : Bytes) (value : Option V)
    (look : PropertyList → Option Bytes → Option V) (Lost : Property → Type 0) (h : Heap)
    : Bool × PropertyList → Type 0 where
  kept_out : ¬ HasMemory h → Stored list name value look Lost h (false, list)
  found :
      {list' : PropertyList}
      → look list' (some name) ≡ value
      → Stored list name value look Lost h (true, list')
  forgotten :
      {list' : PropertyList} (q : Property)
      → contents list' ≡ contents list ++ q ∷ []
      → Lost q
      → look list' (some name) ≡ none
      → ¬ HasMemory h
      → Stored list name value look Lost h (true, list')

abbrev pub HasNoName : Property → Type 0
HasNoName q = q.name ≡ none

abbrev pub HasNoText : Property → Type 0
HasNoText q = (q.name ≡ none) ⊎ (as_string q.value ≡ none)

-- What a getter makes of the property that is found.
abbrev Reads :
    {V : Type 0} → (PropertyList → Option Bytes → Option V) → (Property → Option V) → Type 0
Reads look read =
    (list : PropertyList) (name : Option Bytes)
    → look list name ≡ (elim (PropertyList.get list name) [ none ↦ none | some p ↦ read p ])

module _ {V : Type 0} (look : PropertyList → Option Bytes → Option V) (read : Property → Option V)
    (reads : Reads look read) (Lost : Property → Type 0)
    (lost_name : (q : Property) → q.name ≡ none → Lost q) where
  of_copy :
      (list list' : PropertyList) (name : Bytes) (value : Option V) (p q : Property) (h : Heap)
      → first_named name (contents list) ≡ none
      → p.name ≡ some name
      → IsValid list'
      → Copied p q
      → contents list' ≡ contents list ++ q ∷ []
      → (HasMemory h → Exact p q)
      → (read q ≡ value) ⊎ (Lost q × (read q ≡ none) × ¬ HasMemory h)
      → Stored list name value look Lost h (true, list')
  of_copy list list' name value p q h unused named v c e exact known =
      let got =
        (get-first_named list' name v).0
        ∙ ap (first_named name) e
        ∙ first_named-snoc name (contents list) q unused in
      elim (Bool-cases (is_named name q)) [
        | inl t ↦
            let here : look list' (some name) ≡ read q =
              reads list' (some name)
              ∙ ap (λ o. elim o [ none ↦ none | some p ↦ read p ])
                  (got ∙ ap (λ b. if b then some q else none) t) in
            elim known [
              | inl k ↦ found (here ∙ k)
              | inr (l, k, full) ↦ forgotten q e l (here ∙ k) full
            ]
        | inr f ↦ elim (named_copy name p q named c) [
          | inl t ↦ cc (t, f)
          | inr gone ↦
              forgotten q e (lost_name q gone)
                (reads list' (some name)
                  ∙ ap (λ o. elim o [ none ↦ none | some p ↦ read p ])
                      (got ∙ ap (λ b. if b then some q else none) f))
                (λ m. cc (gone, (exact m).same_name, named))
        ]
      ]

  of_AddedOne :
      (list : PropertyList) (name : Bytes) (value : Option V) (p : Property) (h : Heap)
      (r : (Bool × PropertyList) × Heap)
      → AddedOne p list h r
      → first_named name (contents list) ≡ none
      → p.name ≡ some name
      → ((q : Property)
          → Copied p q
          → (HasMemory h → Exact p q)
          → (read q ≡ value) ⊎ (Lost q × (read q ≡ none) × ¬ HasMemory h))
      → Stored list name value look Lost h r.0
  of_AddedOne list name value p h ((b, list'), h') (inl (no_success, same, _, full)) unused named
        known =
      subst (Stored list name value look Lost h) (cc (no_success, same)) (kept_out full)
  of_AddedOne list name value p h ((b, list'), h') (inr (q, success, v, c, e, _, exact)) unused
        named known =
      subst (λ b. Stored list name value look Lost h (b, list')) (sym success)
        (of_copy list list' name value p q h unused named v c e exact (known q c exact))

abbrev read_bool : Property → Option Bool
read_bool p = if not (is_boolean p.type) || not p.has_default then none else some (as_bool p.value)

abbrev read_int : Property → Option ℤ
read_int p = if not (is_integer p.type) || not p.has_default then none else some (as_int p.value)

abbrev read_string : Property → Option Bytes
read_string p = if not (is_string p.type) || not p.has_default then none else as_string p.value

bool_getter : Reads get_bool read_bool
unfolding get_bool
bool_getter list name = refl

int_getter : Reads get_int read_int
unfolding get_int
int_getter list name = refl

string_getter : Reads get_string read_string
unfolding get_string
string_getter list name = refl

known_bool :
    (name : Bytes) (d b : Bool) (q : Property)
    → Copied (bool_property name d b) q
    → read_bool q ≡ (if d then some b else none)
known_bool name d b q c =
    rw (c.type, c.has_default, c.value refl)
      (elim (Bool-cases d) [ inl t ↦ rw t refl | inr t ↦ rw t refl ])

known_int :
    (name : Bytes) (d : Bool) (n : ℤ) (has_min : Bool) (lo : ℤ) (has_max : Bool) (hi : ℤ)
    (q : Property)
    → Copied (int_property name d n has_min lo has_max hi) q
    → read_int q ≡ (if d then some n else none)
known_int name d n has_min lo has_max hi q c =
    rw (c.type, c.has_default, c.value refl)
      (elim (Bool-cases d) [ inl t ↦ rw t refl | inr t ↦ rw t refl ])

known_string :
    (h : Heap) (name : Bytes) (text : Option Bytes) (q : Property)
    → Copied (given_string name text) q
    → (HasMemory h → Exact (given_string name text) q)
    → (read_string q ≡ text) ⊎ (HasNoText q × (read_string q ≡ none) × ¬ HasMemory h)
known_string h name none q c exact = inl (rw (c.type, c.has_default) refl)
known_string h name (some text) q c exact = elim (c.text refl) [
  | inl e ↦ inl (rw (c.type, c.has_default) e)
  | inr e ↦ inr (inr e, rw (c.type, c.has_default) e, λ m. cc (e, (exact m).same_text refl))
]

given_string-name : (name : Bytes) (text : Option Bytes) → (given_string name text).name ≡ some name
given_string-name name none = refl
given_string-name name (some text) = refl

-- What each pair of functions makes of a name.
pub record AddsThenGets (list : PropertyList) (name : Bytes) (h : Heap) : Type 0 where
  pub booleans :
      (d b : Bool)
      → Stored list name
          (if d then some b else none)
          get_bool
          HasNoName
          h
          (add_bool list (some name) d b h).0
  pub integers :
      (d : Bool) (n : ℤ) (has_min : Bool) (lo : ℤ) (has_max : Bool) (hi : ℤ)
      → Stored list name
          (if d then some n else none)
          get_int
          HasNoName
          h
          (add_int list (some name) d n has_min lo has_max hi h).0
  pub strings :
      (text : Option Bytes)
      → Stored list name text get_string HasNoText h (add_string list (some name) text h).0

-- On a valid list that can still double within `size_t` and has no property of a name: behind
-- adding a boolean, integer or string property under that name, the getter of the type returns
-- its default, and nothing for a property without one. Only with an allocator that does not grant
-- everything, adding can fail instead, with the list as it was, or the list can end in a property
-- that has lost its name or its text, and the getter returns nothing.
pub add-AddsThenGets :
    (list : PropertyList) (name : Bytes) (h : Heap)
    → IsValid list
    → Fits list
    → first_named name (contents list) ≡ none
    → AddsThenGets list name h
add-AddsThenGets list name h v f unused = record {
  booleans = λ d b.
      of_AddedOne get_bool read_bool bool_getter HasNoName (λ q e. e) list name _
        (bool_property name d b) h (add_bool list (some name) d b h)
        (add_bool-AddedOne list v f name d b h) unused refl
        (λ q c exact. inl (known_bool name d b q c));
  integers = λ d n has_min lo has_max hi.
      of_AddedOne get_int read_int int_getter HasNoName (λ q e. e) list name _
        (int_property name d n has_min lo has_max hi) h
        (add_int list (some name) d n has_min lo has_max hi h)
        (add_int-AddedOne list v f name d n has_min lo has_max hi h) unused refl
        (λ q c exact. inl (known_int name d n has_min lo has_max hi q c));
  strings = λ text.
      of_AddedOne get_string read_string string_getter HasNoText (λ q e. inl e) list name _
        (given_string name text) h (add_string list (some name) text h)
        (add_string-AddedOne list v f name text h) unused (given_string-name name text)
        (known_string h name text);
}
