-- ===== src/Mcp/Tool/Lifetime.antt =====
-- The blocks of a tool, from `mcp_tool_create` to `mcp_tool_destroy` (core/mcp/mcp_tool.c).
use mlink_device.Prelude.{
  ℕ, ◌+◌, ◌*◌, ◌<◌, ◌≡◌, refl, ◌⊎◌, [], inl, inr, Bool, Option, none, some, arith,
}
use mlink_device.Prelude.Bytes.{Bytes}
use mlink_device.Memory.{Heap, M, strdup, malloc}
use mlink_device.Memory as Memory
use mlink_device.DynList.{size_mod}
use mlink_device.DynList.Contents.{IsValid, contents}
use mlink_device.DynList.Add.{Balanced, block, malloc_cases}
use mlink_device.DynList.Free.{free-block, free-Balanced}
use mlink_device.DynList.Clone.{Pointwise}
use mlink_device.Mcp.Property.{free_func}
use mlink_device.Mcp.Property.Copy.{Copied, owned, strdup-some, free_func-Balanced}
use mlink_device.Mcp.PropertyList.{PropertyList, sizeof_property}
use mlink_device.Mcp.PropertyList as PropertyList
use mlink_device.Mcp.PropertyList.Add.{kept}
use mlink_device.Mcp.PropertyList.Clone.{clone_cases}
use mlink_device.Mcp.Tool.{Tool, Callback, create, destroy, destroy_parts, finish}

destroy_parts-Balanced :
    (name description : Option Bytes) (properties : PropertyList) (h : Heap)
    → Balanced h
        (block name + block description + kept properties + 1)
        (destroy_parts name description properties h).1
        0
unfolding PropertyList.free
destroy_parts-Balanced name description properties h =
    let h₁ = (Memory.free name h).1 in
    let h₂ = (Memory.free description h₁).1 in
    let h₃ = (PropertyList.free properties h₂).1 in
    omega (
      arith,
      free-block name h,
      free-block description h₁,
      free-Balanced owned free_func free_func-Balanced properties h₂,
      free-block (some (tt {0})) h₃,
    )

-- The blocks of a tool.
abbrev pub kept_by : Tool → ℕ
kept_by tool = 3 + kept tool.properties

-- `mcp_tool_destroy` gives back exactly the blocks of the tool: its own, its two texts, its
-- property list and what the properties own.
pub destroy-Balanced :
    (tool : Tool) (h : Heap) → Balanced h (kept_by tool) (destroy (some tool) h).1 0
unfolding destroy
destroy-Balanced tool h =
    omega (arith, destroy_parts-Balanced (some tool.name) (some tool.description) tool.properties h)

-- What comes of a creation: nothing and no block kept, or the tool that was asked for.
pub data Made (name description : Option Bytes) (source : PropertyList) (callback : Option Callback)
    (user_only : Bool) (h : Heap) : Option Tool × Heap → Type 0 where
  refused :
      {h' : Heap} → Balanced h 0 h' 0 → Made name description source callback user_only h (none, h')
  made :
      {h' : Heap} (tool : Tool)
      → some tool.name ≡ name
      → some tool.description ≡ description
      → (contents tool.properties ≡ [])
        ⊎ Pointwise Copied (contents source) (contents tool.properties)
      → tool.callback ≡ callback
      → tool.user_only ≡ user_only
      → Balanced h 0 h' (kept_by tool)
      → Made name description source callback user_only h (some tool, h')

strdup_cases :
    (s : Option Bytes) (h : Heap)
    → (((strdup s h).0 ≡ s) ⊎ ((strdup s h).0 ≡ none))
      × Balanced h 0 (strdup s h).1 (block (strdup s h).0)
strdup_cases none h = unfold strdup in (inl refl, omega arith)
strdup_cases (some s) h = elim (strdup-some s h) [
  | inl (e, b) ↦ (inl e, rw e b)
  | inr (e, b, full) ↦ (inr e, rw e b)
]

only : {s : Option Bytes} {t : Bytes} → (some t ≡ s) ⊎ (some t ≡ none) → some t ≡ s
only (inl e) = e
only (inr e) = ground arith

finish-Made :
    (name description n d : Option Bytes) (source ps : PropertyList) (callback : Option Callback)
    (user_only : Bool) (h₀ h : Heap)
    → ((n ≡ name) ⊎ (n ≡ none))
    → ((d ≡ description) ⊎ (d ≡ none))
    → (contents ps ≡ []) ⊎ Pointwise Copied (contents source) (contents ps)
    → Balanced h₀ 0 h (block n + block d + kept ps + 1)
    → Made name description source callback user_only h₀ (finish n d ps callback user_only h)
finish-Made name description (some n) (some d) source ps callback user_only h₀ h e f c b =
    made
      (record {
        name = n;
        description = d;
        properties = ps;
        callback = callback;
        user_only = user_only;
      })
      (only e) (only f) c refl refl (omega (arith, b))
finish-Made name description none d source ps callback user_only h₀ h e f c b =
    refused (omega (arith, b, destroy_parts-Balanced none d ps h))
finish-Made name description (some n) none source ps callback user_only h₀ h e f c b =
    refused (omega (arith, b, destroy_parts-Balanced (some n) none ps h))

-- For a valid property list that is small enough for `size_t`: `mcp_tool_create` makes a tool
-- with that name and description, callback and flag, and a copy of every property in order or
-- none at all, and keeps exactly the tool's blocks; or it fails and keeps none.
pub create-Made :
    (name description : Option Bytes) (source : PropertyList) (callback : Option Callback)
    (user_only : Bool) (h : Heap)
    → IsValid source
    → source.item_size ≡ sizeof_property
    → (source.count * 4 + 12) * sizeof_property < size_mod
    → Made name description source callback user_only h
        (create name description source callback user_only h)
unfolding create
create-Made name description source callback user_only h v z small = elim (malloc_cases h) [
  | inr (e, b) ↦ rw e (refused b)
  | inl (e, b) ↦
      let h₁ = (malloc h).1 in
      let n = strdup name h₁ in
      let d = strdup description n.1 in
      let c = clone_cases source d.1 v z small in
      rw e (
        finish-Made name description n.0 d.0 source (PropertyList.clone source d.1).0 callback
          user_only h (PropertyList.clone source d.1).1 (strdup_cases name h₁).0
          (strdup_cases description n.1).0 c.0.0
          (omega (arith, b, (strdup_cases name h₁).1, (strdup_cases description n.1).1, c.2)))
]
