-- ===== src/Mlink/Wrapper.antt =====
-- The blocks of a tool with its wrapped callback, from `mlink_tool_create` to `mlink_tool_destroy`
-- (core/mlink.c).
use mlink_device.Prelude.{
  ℕ, ◌+◌, ◌*◌, ◌<◌, ◌≡◌, refl, ap, ◌∙◌, ◌⊎◌, inl, inr, [], Bool, Option, none, some, arith,
}
use mlink_device.Prelude.Bytes.{Bytes}
use mlink_device.Memory.{Heap, malloc, M, pure, ◌>>=◌, ◌>>◌}
use mlink_device.Memory as Memory
use mlink_device.DynList.{size_mod}
use mlink_device.DynList.Contents.{IsValid, contents}
use mlink_device.DynList.Add.{Balanced, malloc_cases}
use mlink_device.DynList.Free.{free-block}
use mlink_device.DynList.Clone.{Pointwise}
use mlink_device.Mcp.Property.Copy.{Copied}
use mlink_device.Mcp.PropertyList.{PropertyList, sizeof_property}
use mlink_device.Mcp.ReturnValue.{string_rv}
use mlink_device.Mcp.Tool.{Tool, Callback}
use mlink_device.Mcp.Tool.Lifetime.{Made, refused, made, kept_by, create-Made, destroy-Balanced}
use mlink_device.Mlink.Values.{to_mcp}
use mlink_device.Mlink.{MlinkCallback, callback_wrapper, create_tool, destroy_tool}

destroy_tool-Balanced :
    (tool : Tool) (h : Heap) → Balanced h (kept_by tool + 1) (destroy_tool (some tool) h).1 0
unfolding destroy_tool
destroy_tool-Balanced tool h =
    let h₁ = (Memory.free (some (tt {0})) h).1 in
    omega (arith, free-block (some (tt {0})) h, destroy-Balanced tool h₁)

-- What a tool answers: what the application's callback does, and a NULL text without one.
abbrev pub answers : Option MlinkCallback → Callback
answers none properties = string_rv none
answers (some application) properties = to_mcp (application properties)

wrapper-answers :
    (callback : Option MlinkCallback) → callback_wrapper (some callback) ≡ answers callback
unfolding callback_wrapper
wrapper-answers none = refl
wrapper-answers (some application) = refl

abbrev kept_or_freed : Option Tool → M (Option Tool)
kept_or_freed none = Memory.free (some (tt {0})) >> pure none
kept_or_freed (some tool) = pure (some tool)

module _ (name description : Option Bytes) (source : PropertyList) (callback : Option MlinkCallback)
    (user_only : Bool) where
  -- No tool and no block; or a tool whose calls are those of the application's callback, and whose
  -- destruction, on whatever heap it comes, gives back as many blocks as the creation took.
  pub data Wrapped (h : Heap) : Option Tool × Heap → Type 0 where
    unmade : {h' : Heap} → Balanced h 0 h' 0 → Wrapped h (none, h')
    wrapped :
        {h' : Heap} (tool : Tool)
        → some tool.name ≡ name
        → some tool.description ≡ description
        → (contents tool.properties ≡ [])
          ⊎ Pointwise Copied (contents source) (contents tool.properties)
        → tool.callback ≡ some (answers callback)
        → tool.user_only ≡ user_only
        → (blocks : ℕ) → Balanced h 0 h' blocks
        → ((later : Heap) → Balanced later blocks (destroy_tool (some tool) later).1 0)
        → Wrapped h (some tool, h')

  Made-Wrapped :
      (h h₁ : Heap) (r : Option Tool × Heap)
      → Balanced h 0 h₁ 1
      → Made name description source (some (callback_wrapper (some callback))) user_only h₁ r
      → Wrapped h (kept_or_freed r.0 r.1)
  Made-Wrapped h h₁ r b (refused {h'} d) =
      unmade (omega (arith, b, d, free-block (some (tt {0})) h'))
  Made-Wrapped h h₁ r b (made tool n d c k u kept) =
      wrapped tool n d c (k ∙ ap (λ f. some f) (wrapper-answers callback)) u (kept_by tool + 1)
        (omega (arith, b, kept)) (destroy_tool-Balanced tool)

  -- For a valid property list that is small enough for `size_t`: `mlink_tool_create` makes a tool
  -- with that name and description and a copy of every property or none at all, whose calls are
  -- answered by the application's callback (by a NULL string without one), and as many blocks as
  -- it took are given back by `mlink_tool_destroy` of that tool, whenever it comes; or it fails
  -- and keeps none.
  pub create_tool-Wrapped :
      (h : Heap)
      → IsValid source
      → source.item_size ≡ sizeof_property
      → (source.count * 4 + 12) * sizeof_property < size_mod
      → Wrapped h (create_tool name description source callback user_only h)
  unfolding create_tool
  create_tool-Wrapped h v z small = elim (malloc_cases h) [
    | inr (g, b) ↦ rw g (unmade b)
    | inl (g, b) ↦ rw g (
        Made-Wrapped h (malloc h).1 _ b (
          create-Made name description source (some (callback_wrapper (some callback))) user_only
            (malloc h).1 v z small))
  ]
