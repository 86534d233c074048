-- ===== src/Mcp/Server/Growing.antt =====
-- A registration with memory for everything (core/mcp/mcp_server.c).
use mathlib.Core.Path.{subst}
use mlink_device.Prelude.{
  ℕ, ◌+◌, ◌*◌, ◌<◌, ◌≡◌, ◌≢◌, refl, sym, ap, ◌∙◌, inl, inr, Bool, true, false, none, [], ◌∷◌, ◌++◌,
  arith, length, length-append, Option-cases, if◌then◌else◌, suc,
}
use mlink_device.Memory.{Heap, pure, ◌>>=◌}
use mlink_device.Memory.Granting.{HasMemory, realloc-granted}
use mlink_device.DynList.{DynList, size_mod, slots}
use mlink_device.DynList as Items
use mlink_device.DynList.Contents.{IsValid, contents, length-collect}
use mlink_device.DynList.Add.{Fits, IsTight, Added, add_cases}
use mlink_device.DynList.Granting.{add-granted, add-KeepsGrant}
use mlink_device.Mcp.Tool.{Tool}
use mlink_device.Mcp.Server.{
  Server, sizeof_pointer, tool_name_hash, find_in, update, bucket_block, add_tool_to_hash, add_tool,
}
use mlink_device.Mcp.Server.Registry.{
  IsConsistent, find_tool_by_hash-find_in, hashed_more, AreDistinct-append,
}

-- A server whose table agrees with its list, which has no more than twice the room that it needs.
pub record Ready (s : Server) : Type 0 where
  pub consistent : IsConsistent s
  pub tight : IsTight s.tools
  pub sized : s.tools.item_size ≡ sizeof_pointer

-- The list of so many tools can still double within `size_t`.
abbrev pub HasRoom : ℕ → Type 0
HasRoom n = (n * 4 + 12) * sizeof_pointer < size_mod

Ready-Fits : (s : Server) → Ready s → HasRoom s.tools.count → Fits s.tools
Ready-Fits s r room = record {
  sized = omega (arith, r.sized);
  small = rw r.sized (omega (arith, r.tight, room));
}

-- A name that is there already changes nothing; a new tool is the last of the list.
pub data Grown (s : Server) (tool : Tool) : Server → Type 0 where
  known : find_in tool.name (contents s.tools) ≢ none → Grown s tool s
  grown :
      {s' : Server}
      → find_in tool.name (contents s.tools) ≡ none
      → Ready s'
      → contents s'.tools ≡ contents s.tools ++ tool ∷ []
      → s'.tools.count ≡ suc s.tools.count
      → Grown s tool s'

add_tool_to_hash-granted :
    (s : Server) (tool : Tool) (h : Heap)
    → HasMemory h
    → (add_tool_to_hash s tool h).0.1 ≡ record s {
      tool_hash =
          update s.tool_hash
            (tool_name_hash tool.name)
            (s.tool_hash (tool_name_hash tool.name) ++ tool ∷ []);
    }
unfolding add_tool_to_hash
add_tool_to_hash-granted s tool h m =
    rw (realloc-granted (bucket_block (s.tool_hash (tool_name_hash tool.name))) h m) refl

module _ (s : Server) (tool : Tool) (r : Ready s)
    (fresh : find_in tool.name (contents s.tools) ≡ none) where
  count_next :
      (l : DynList Tool)
      → IsValid l
      → contents l ≡ contents s.tools ++ tool ∷ []
      → l.count ≡ suc s.tools.count
  count_next l v e = omega (
    arith,
    ap length e,
    length-append (contents s.tools) (tool ∷ []),
    length-collect l.count (slots l.items) v.filled,
    length-collect s.tools.count (slots s.tools.items) (r.consistent).listed.filled,
  )

  listed_Grown :
      (h : Heap) (l : DynList Tool) (h' : Heap)
      → HasMemory h'
      → Added Items.memcpy s.tools tool h ((true, l), h')
      → Grown s tool (add_tool_to_hash (record s { tools = l }) tool h').0.1
  listed_Grown h l h' m (inl (e, _, _)) = cc e
  listed_Grown h l h' m (inr (h₁, _, v, z, t, e, _, _)) =
      subst (Grown s tool) (sym (add_tool_to_hash-granted (record s { tools = l }) tool h' m)) (
        grown fresh
          (record {
            consistent = record {
              listed = v;
              hashed = λ hash.
                  rw e (hashed_more s.tool_hash (contents s.tools) tool (r.consistent).hashed hash);
              distinct =
                  rw e (AreDistinct-append (contents s.tools) tool (r.consistent).distinct fresh);
            };
            tight = t r.tight;
            sized = z ∙ r.sized;
          })
          e (count_next l v e))

  -- Behind the duplicate check.
  abbrev added_next : (Bool × DynList Tool) × Heap → (Bool × Server) × Heap
  added_next q =
      (if q.0.0
          then (add_tool_to_hash (record s { tools = q.0.1 }) tool >>= λ p. pure (true, p.1))
          else pure (false, s))
        q.1

  after_add :
      (h : Heap) (q : (Bool × DynList Tool) × Heap)
      → q.0.0 ≡ true
      → HasMemory q.1
      → Added Items.memcpy s.tools tool h q
      → Grown s tool (added_next q).0.1
  after_add h ((true, l), h') e m a = listed_Grown h l h' m a
  after_add h ((false, l), h') e m a = cc e

pub add_tool-Grown :
    (s : Server) (tool : Tool) (h : Heap)
    → Ready s
    → HasRoom s.tools.count
    → HasMemory h
    → Grown s tool (add_tool s tool h).0.1
unfolding add_tool
add_tool-Grown s tool h r room m = elim (Option-cases (find_in tool.name (contents s.tools))) [
  | inr (u, e) ↦
      rw (find_tool_by_hash-find_in s tool.name r.consistent, e) (known (λ n. ground arith))
  | inl e ↦
      rw (find_tool_by_hash-find_in s tool.name r.consistent, e)
        (after_add s tool r e h (Items.add Items.memcpy s.tools tool h)
          (add-granted Items.memcpy s.tools tool h m)
          (λ n.
            ap (λ grant. grant n) (add-KeepsGrant Items.memcpy s.tools tool (λ h'. refl) h) ∙ m n)
          (add_cases Items.memcpy s.tools tool h (r.consistent).listed (Ready-Fits s r room)))
]
