-- ===== src/Mcp/PropertyList/Sound.antt =====
-- The properties of a list (core/mcp/mcp_property.c), each with the member of its type in its union.
use mlink_device.Prelude.{
  ℕ, zero, suc, ◌+◌, refl, inl, inr, Bool, true, false, Option, none, some, Option-cases,
  Bool-cases,
}
use mlink_device.Prelude.Int.{ℤ}
use mlink_device.Prelude.Bytes.{Bytes}
use mlink_device.Memory.{Heap}
use mlink_device.DynList.{slots, get}
use mlink_device.DynList.Every.{Every, get-Every, add-Every, free-Every}
use mlink_device.Mcp.Property.{Property, copy_func, free_func}
use mlink_device.Mcp.Property.Sound.{IsSound, copy_func-IsSound}
use mlink_device.Mcp.PropertyList.Through.{
  BuiltWith, add_bool-keeps, add_int-keeps, add_string-keeps,
}
use mlink_device.Mcp.PropertyList.{
  PropertyList, init, add, free, add_bool, add_int, add_string, bool_property, int_property,
  string_property, clone_loop, clone,
}

abbrev pub AllSound : PropertyList → Type 0
AllSound list = Every IsSound (slots list.items)

pub init-AllSound : AllSound init
unfolding init
init-AllSound = tt

pub free-AllSound : (list : PropertyList) (h : Heap) → AllSound (free list h).0
unfolding free
free-AllSound list h = free-Every IsSound free_func list h

add-AllSound :
    (list : PropertyList) (p : Property) (h : Heap)
    → AllSound list
    → IsSound p
    → AllSound (add list p h).0.1
unfolding add
add-AllSound list p h a s = add-Every IsSound copy_func list p h (λ h'. copy_func-IsSound p h' s) a

bool_property-IsSound : (name : Bytes) (d b : Bool) → IsSound (bool_property name d b)
bool_property-IsSound name d b = record { member = tt; tidy = λ t e. refl }

int_property-IsSound :
    (name : Bytes) (d : Bool) (n : ℤ) (has_min : Bool) (lo : ℤ) (has_max : Bool) (hi : ℤ)
    → IsSound (int_property name d n has_min lo has_max hi)
int_property-IsSound name d n has_min lo has_max hi = record { member = tt; tidy = λ t e. refl }

text-IsSound : (name text : Bytes) → IsSound (string_property name true (some text))
text-IsSound name text = record { member = tt; tidy = λ t e. cc e }

no_text-IsSound : (name : Bytes) → IsSound (string_property name false none)
no_text-IsSound name = record { member = tt; tidy = λ t e. refl }

built_soundly : BuiltWith IsSound
built_soundly = record {
  booleans = bool_property-IsSound;
  integers = int_property-IsSound;
  texts = text-IsSound;
  no_texts = no_text-IsSound;
}

module _ (list : PropertyList) (a : AllSound list) where
  pub add_bool-AllSound :
      (name : Option Bytes) (d b : Bool) (h : Heap) → AllSound (add_bool list name d b h).0.1
  add_bool-AllSound =
      add_bool-keeps AllSound IsSound built_soundly list a (λ p h s. add-AllSound list p h a s)

  pub add_int-AllSound :
      (name : Option Bytes) (d : Bool) (n : ℤ) (has_min : Bool) (lo : ℤ) (has_max : Bool) (hi : ℤ)
      (h : Heap)
      → AllSound (add_int list name d n has_min lo has_max hi h).0.1
  add_int-AllSound =
      add_int-keeps AllSound IsSound built_soundly list a (λ p h s. add-AllSound list p h a s)

  pub add_string-AllSound :
      (name text : Option Bytes) (h : Heap) → AllSound (add_string list name text h).0.1
  add_string-AllSound =
      add_string-keeps AllSound IsSound built_soundly list a (λ p h s. add-AllSound list p h a s)

clone_loop-AllSound :
    (source dst : PropertyList) (index rounds : ℕ) (h : Heap)
    → AllSound source
    → AllSound dst
    → AllSound (clone_loop source dst index rounds h).0
unfolding clone_loop
clone_loop-AllSound source dst index zero h a d = d
clone_loop-AllSound source dst index (suc rounds) h a d = elim (Option-cases (get source index)) [
  | inl e ↦ rw (e, clone_loop) (free-AllSound dst h)
  | inr (p, e) ↦
      let added = add-AllSound dst p h d (get-Every IsSound source index p a e) in
      rw (e, clone_loop)
        (elim (Bool-cases (add dst p h).0.0) [
          | inl b ↦ rw b (
              clone_loop-AllSound source (add dst p h).0.1 (index + 1) rounds (add dst p h).1 a
                added)
          | inr b ↦ rw b (free-AllSound (add dst p h).0.1 (add dst p h).1)
        ])
]

pub clone-AllSound :
    (source : PropertyList) (h : Heap) → AllSound source → AllSound (clone source h).0
unfolding clone
clone-AllSound source h a = clone_loop-AllSound source init 0 source.count h a init-AllSound
