-- ===== src/Mcp/Property/Copy.antt =====
-- What copying and freeing a property (core/mcp/mcp_property.c) does to its fields and its blocks.
use mlink_device.Prelude.{
  ℕ, ◌+◌, ◌≡◌, ap, ◌∙◌, ◌⊎◌, Bool, true, false, ◌&&◌, Option, none, some, if◌then◌else◌, arith,
}
use mlink_device.Prelude.Bytes.{Bytes}
use mlink_device.Memory.{Heap, M, strdup, malloc}
use mlink_device.Memory as Memory
use mlink_device.Memory.Granting.{HasMemory, strdup-granted, strdup-KeepsGrant}
use mlink_device.DynList.Add.{block, Balanced}
use mlink_device.DynList.Free.{free-block}
use mlink_device.DynList.Clone.{Ownership}
use mlink_device.Mcp.Property.{Property, as_string, is_string, copy_func, free_func}

-- The text itself, or NULL where its block was refused.
abbrev pub Duplicate : Option Bytes → Option Bytes → Type 0
Duplicate s t = (t ≡ s) ⊎ (t ≡ none)

pub strdup_lem :
    (s : Option Bytes) (h : Heap)
    → Duplicate s (strdup s h).0 × Balanced h 0 (strdup s h).1 (block (strdup s h).0)
unfolding strdup malloc
strdup_lem none h = ground arith
strdup_lem (some s) h = ground arith

pub strdup-some :
    (s : Bytes) (h : Heap)
    → (((strdup (some s) h).0 ≡ some s) × Balanced h 0 (strdup (some s) h).1 1)
      ⊎ (((strdup (some s) h).0 ≡ none)
          × Balanced h 0 (strdup (some s) h).1 0
          × (h.grant h.next ≡ false))
unfolding strdup malloc
strdup-some s h = ground arith

-- Whether the value is a text with a block of its own.
abbrev pub owns_text : Property → Bool
owns_text p = is_string p.type && p.has_default

-- The blocks that a property keeps.
abbrev pub owned : Property → ℕ
owned p = block p.name + (if owns_text p then block (as_string p.value) else 0)

-- A copy differs at most in texts that could not be duplicated.
pub record Copied (p q : Property) : Type 0 where
  pub name : Duplicate p.name q.name
  pub type : q.type ≡ p.type
  pub has_default : q.has_default ≡ p.has_default
  pub has_min : q.has_min ≡ p.has_min
  pub has_max : q.has_max ≡ p.has_max
  pub min_value : q.min_value ≡ p.min_value
  pub max_value : q.max_value ≡ p.max_value
  pub text : owns_text p ≡ true → Duplicate (as_string p.value) (as_string q.value)
  pub value : owns_text p ≡ false → q.value ≡ p.value

pub copy_func-Copied : (p : Property) (h : Heap) → Copied p (copy_func p h).0
unfolding copy_func
copy_func-Copied p h =
    ground (arith, strdup_lem p.name h, strdup_lem (as_string p.value) (strdup p.name h).1)

-- A copy that has lost none of its texts.
pub record Exact (p q : Property) : Type 0 where
  pub copied : Copied p q
  pub same_name : q.name ≡ p.name
  pub same_text : owns_text p ≡ true → as_string q.value ≡ as_string p.value

pub copy_func-Exact : (p : Property) (h : Heap) → HasMemory h → Exact p (copy_func p h).0
unfolding copy_func
copy_func-Exact p h m =
    let name = strdup-granted p.name h m in
    let text =
      strdup-granted (as_string p.value) (strdup p.name h).1
        (λ n. ap (λ g. g n) (strdup-KeepsGrant p.name h) ∙ m n) in
    record {
      copied = copy_func-Copied p h;
      same_name = ground (arith, name);
      same_text = λ o. ground (arith, text);
    }

pub copy_func-Balanced :
    (p : Property) (h : Heap) → Balanced h 0 (copy_func p h).1 (owned (copy_func p h).0)
unfolding copy_func
copy_func-Balanced p h =
    ground (arith, strdup_lem p.name h, strdup_lem (as_string p.value) (strdup p.name h).1)

pub free_func-Balanced : (p : Property) (h : Heap) → Balanced h (owned p) (free_func p h).1 0
unfolding free_func
free_func-Balanced p h =
    ground (arith, free-block p.name h, free-block (as_string p.value) (Memory.free p.name h).1)

abbrev pub ownership : Ownership copy_func free_func
ownership = record {
  Copied = Copied;
  owned = owned;
  copied = copy_func-Copied;
  allocated = copy_func-Balanced;
  freed = free_func-Balanced;
}
