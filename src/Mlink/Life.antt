-- ===== src/Mlink/Life.antt =====
-- A tool of an application, from its property list to its end (core/mlink.c): `mlink_property_list_create`,
-- the properties, `mlink_tool_create`, and the destruction of both.
use mathlib.Core.Path.{subst}
use mlink_device.Prelude.{
  ℕ, suc, ◌+◌, refl, inl, inr, Bool, Option, none, some, List, [], ◌∷◌, arith, length,
}
use mlink_device.Prelude.Int.{ℤ}
use mlink_device.Prelude.Bytes.{Bytes}
use mlink_device.Memory.{Heap, M, pure, ◌>>=◌, ◌>>◌}
use mlink_device.DynList.Add.{Balanced}
use mlink_device.Mcp.PropertyList.{PropertyList, init}
use mlink_device.Mcp.PropertyList.Add.{kept}
use mlink_device.Mcp.PropertyList.Blocks.{
  create_cases, destroy-Balanced, Roomy, IsSmall, init-Roomy, kept-init, Grown, add_bool-Grown,
  add_int-Grown, add_string-Grown,
}
use mlink_device.Mcp.Tool.{Tool}
use mlink_device.Mlink.Properties as Properties
use mlink_device.Mlink.{MlinkCallback, create_tool, destroy_tool}
use mlink_device.Mlink.Wrapper.{Wrapped, unmade, wrapped, create_tool-Wrapped}

-- The calls that add a property, with any arguments.
pub data Request : Type 0 where
  wants_bool : Option Bytes → Bool → Bool → Request
  wants_int : Option Bytes → Bool → ℤ → Bool → ℤ → Bool → ℤ → Request
  wants_string : Option Bytes → Option Bytes → Request

abbrev pub add_one : PropertyList → Request → M (Bool × PropertyList)
add_one list (wants_bool name d b) = Properties.add_bool list name d b
add_one list (wants_int name d n has_min lo has_max hi) =
    Properties.add_int list name d n has_min lo has_max hi
add_one list (wants_string name text) = Properties.add_string list name text

abbrev pub add_all : List Request → PropertyList → M PropertyList
add_all [] list = pure list
add_all (request ∷ requests) list = add_one list request >>= λ r. add_all requests r.1

module _ (requests : List Request) (name description : Option Bytes)
    (callback : Option MlinkCallback) (user_only : Bool) where
  -- Behind the creation of the list.
  abbrev with_list : Option PropertyList → M (Unit {0})
  with_list none = pure tt
  with_list (some empty_list) = add_all requests empty_list >>= λ list.
      create_tool name description list callback user_only >>= λ made.
      Properties.destroy (some list) >> destroy_tool made

  unfoldable pub life : M (Unit {0})
  life = Properties.create >>= with_list

add_one-Grown :
    (n : ℕ) (list : PropertyList) (request : Request) (h : Heap)
    → IsSmall n
    → Roomy n list
    → Grown n list h (add_one list request h)
unfolding Properties.add_bool Properties.add_int Properties.add_string
add_one-Grown n list (wants_bool name d b) h s m = add_bool-Grown n s list m name d b h
add_one-Grown n list (wants_int name d k has_min lo has_max hi) h s m =
    add_int-Grown n s list m name d k has_min lo has_max hi h
add_one-Grown n list (wants_string name text) h s m = add_string-Grown n s list m name text h

add_all-Roomy :
    (requests : List Request) (n : ℕ) (list : PropertyList) (h : Heap)
    → IsSmall (n + length requests)
    → Roomy n list
    → Roomy (n + length requests) (add_all requests list h).0
      × Balanced h (kept list) (add_all requests list h).1 (kept (add_all requests list h).0)
add_all-Roomy [] n list h s m = (subst (λ k. Roomy k list) (omega arith) m, refl)
add_all-Roomy (request ∷ requests) n list h s m =
    let grown = add_one-Grown n list request h (omega (arith, s)) m in
    let r = add_one list request h in
    let ih = add_all-Roomy requests (suc n) r.0.1 r.1 (omega (arith, s)) grown.roomy in
    (
      subst (λ k. Roomy k (add_all requests r.0.1 r.1).0) (omega arith) ih.0,
      omega (arith, grown.balanced, ih.1),
    )

Wrapped-Balanced :
    (name description : Option Bytes) (list : PropertyList) (callback : Option MlinkCallback)
    (user_only : Bool) (h : Heap) (r : Option Tool × Heap)
    → Wrapped name description list callback user_only h r
    → Balanced h (1 + kept list) ((Properties.destroy (some list) >> destroy_tool r.0) r.1).1 0
unfolding Properties.destroy destroy_tool
Wrapped-Balanced name description list callback user_only h r (unmade {h'} b) =
    omega (arith, b, destroy-Balanced list h')
Wrapped-Balanced name description list callback user_only h r
      (wrapped {h'} tool n d c k u blocks b later) =
    omega (arith, b, destroy-Balanced list h', later (Properties.destroy (some list) h').1)

-- For any sequence of requests to add a property, few enough that as many properties can be
-- cloned within `size_t`, with any arguments, and any allocator: from
-- `mlink_property_list_create` over these requests, `mlink_tool_create` and
-- `mlink_property_list_destroy` to `mlink_tool_destroy`, whichever of the calls fail on the way,
-- as many blocks are given back as were taken.
pub life-Balanced :
    (requests : List Request) (name description : Option Bytes) (callback : Option MlinkCallback)
    (user_only : Bool) (h : Heap)
    → IsSmall (length requests)
    → Balanced h 0 (life requests name description callback user_only h).1 0
unfolding life Properties.create
life-Balanced requests name description callback user_only h s = elim (create_cases h) [
  | inr (e, b) ↦ rw e b
  | inl (e, b) ↦
      let h₁ = (Properties.create h).1 in
      let added = add_all-Roomy requests 0 init h₁ (omega (arith, s)) init-Roomy in
      let list = (add_all requests init h₁).0 in
      let h₂ = (add_all requests init h₁).1 in
      rw e (
        omega (
          arith,
          b,
          kept-init,
          added.1,
          Wrapped-Balanced name description list callback user_only h₂
              (create_tool name description list callback user_only h₂)
              (create_tool-Wrapped name description list callback user_only h₂ (added.0).valid
                (added.0).sized (omega (arith, s, (added.0).few))),
        ))
]
