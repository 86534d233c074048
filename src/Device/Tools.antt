-- ===== src/Device/Tools.antt =====
-- The tools of a device whose allocator grants everything (core/mcp/mcp_server.c).
use mathlib.Core.List.{append_assoc, append-nil}
use mlink_device.Prelude.{
  ℕ, suc, ◌+◌, ◌≤◌, ◌≡◌, ◌≢◌, refl, sym, ap, ◌∙◌, ◌⊎◌, inl, inr, none, some, List, [], ◌∷◌, ◌++◌,
  arith,
}
use mlink_device.Prelude.Bytes.{Bytes, strcmp_eq_refl}
use mlink_device.Memory.{Heap}
use mlink_device.Memory.Granting.{HasMemory}
use mlink_device.DynList.Contents.{contents}
use mlink_device.Json.{Env}
use mlink_device.Mcp.Tool.{Tool}
use mlink_device.Mcp.Server.{Server, find_in, find_tool_by_hash}
use mlink_device.Mcp.Server.Registry.{IsConsistent, find_tool_by_hash-find_in, find_in-append}
use mlink_device.Mcp.Server.Growing.{Ready, HasRoom, Grown, known, grown, add_tool-Grown}
use mlink_device.Device.{
  Device, arrive, answer, register_tool, notify, picks, exits, answers, registers, notifies, stops,
  Run, started, arrives, acts,
}
use mlink_device.Device.InOrder.{Run-Accepting}

-- The registrations of a run.
unfoldable pub registrations :
    {e : Env} {s : Server} {h : Heap} {arrived : List Bytes} {d : Device} → Run e s h arrived d → ℕ
registrations started = 0
registrations (arrives b bs r) = registrations r
registrations (acts r (picks d text rest inside idle q)) = registrations r
registrations (acts r (exits d inside idle q stopped)) = registrations r
registrations (acts r (answers d text t)) = registrations r
registrations (acts r (registers d tool)) = suc (registrations r)
registrations (acts r (notifies d level logger text)) = registrations r
registrations (acts r (stops d)) = registrations r

-- The table agrees with the list, in which the tools from before stand first.
pub record Keeping (s : Server) (n : ℕ) (s' : Server) : Type 0 where
  pub ready : Ready s'
  pub more : List Tool
  pub kept : contents s'.tools ≡ contents s.tools ++ more
  pub few : s'.tools.count ≤ s.tools.count + n

of_Grown :
    (s : Server) (n : ℕ) (before after : Server) (tool : Tool)
    → Keeping s n before
    → Grown before tool after
    → Keeping s (suc n) after
of_Grown s n before after tool k (known f) = record {
  ready = k.ready;
  more = k.more;
  kept = k.kept;
  few = omega (arith, k.few);
}
of_Grown s n before after tool k (grown f ready e c) = record {
  ready = ready;
  more = k.more ++ tool ∷ [];
  kept = e ∙ ap (λ ts. ts ++ tool ∷ []) k.kept ∙ append_assoc (contents s.tools) k.more (tool ∷ []);
  few = omega (arith, k.few, c);
}

Run-Keeping :
    (e : Env) (s : Server) (h : Heap) (arrived : List Bytes) (d : Device)
    → HasMemory h
    → Ready s
    → (r : Run e s h arrived d) → HasRoom (s.tools.count + registrations r)
    → Keeping s (registrations r) d.server
unfolding arrive answer register_tool notify registrations
Run-Keeping e s h _ _ m k started room = record {
  ready = k;
  more = [];
  kept = sym (append-nil (contents s.tools));
  few = omega arith;
}
Run-Keeping e s h _ _ m k (arrives {arrived} {d} b bs r) room =
    Run-Keeping e s h arrived d m k r room
Run-Keeping e s h arrived _ m k (acts r (picks d text rest inside idle q)) room =
    Run-Keeping e s h arrived d m k r room
Run-Keeping e s h arrived _ m k (acts r (exits d inside idle q stopped)) room =
    Run-Keeping e s h arrived d m k r room
Run-Keeping e s h arrived _ m k (acts r (answers d text t)) room =
    Run-Keeping e s h arrived d m k r room
Run-Keeping e s h arrived _ m k (acts r (registers d tool)) room =
    let before = Run-Keeping e s h arrived d m k r (omega (arith, room)) in
    of_Grown s (registrations r) d.server _ tool before (
      add_tool-Grown d.server tool d.heap before.ready (omega (arith, before.few, room))
        (Run-Accepting e s h arrived d m r).memory)
Run-Keeping e s h arrived _ m k (acts r (notifies d level logger text)) room =
    Run-Keeping e s h arrived d m k r room
Run-Keeping e s h arrived _ m k (acts r (stops d)) room = Run-Keeping e s h arrived d m k r room

-- Behind a registration: the table agrees with the list, in which the tools from before stand first,
-- and a lookup finds the tool, unless its name was there before.
pub record Found (s : Server) (tool : Tool) (before after : Server) : Type 0 where
  pub consistent : IsConsistent after
  pub more : List Tool
  pub kept : contents after.tools ≡ contents s.tools ++ more
  pub found :
      (find_tool_by_hash after tool.name ≡ some tool)
      ⊎ ((find_tool_by_hash before tool.name ≢ none) × (after ≡ before))

found_by_name :
    (before after : Server) (tool : Tool)
    → IsConsistent before
    → IsConsistent after
    → Grown before tool after
    → (find_tool_by_hash after tool.name ≡ some tool)
      ⊎ ((find_tool_by_hash before tool.name ≢ none) × (after ≡ before))
found_by_name before after tool b a (known f) =
    inr ((λ n. f (sym (find_tool_by_hash-find_in before tool.name b) ∙ n)), refl)
found_by_name before after tool b a (grown fresh ready e c) = inl (
    find_tool_by_hash-find_in after tool.name a
    ∙ ap (find_in tool.name) e
    ∙ find_in-append tool.name (contents before.tools) tool fresh
    ∙ rw (strcmp_eq_refl tool.name) refl)

-- For a device with an allocator that grants everything, that starts with a server whose table
-- agrees with its list, and whose list has no more than twice the room that it needs: after any
-- interleaving of bytes from the transport, the worker, notifications and registrations, few
-- enough that the list can still double within `size_t`, and one more registration, the table
-- agrees with the list, the tools from the start stand first in it, and the lookup finds the tool
-- that was registered, unless its name was there before; then nothing has changed.
pub Run-Found :
    (e : Env) (s : Server) (h : Heap) (arrived : List Bytes) (d : Device) (tool : Tool)
    → HasMemory h
    → Ready s
    → (r : Run e s h arrived d) → HasRoom (s.tools.count + registrations r)
    → Found s tool d.server (register_tool d tool).server
unfolding register_tool
Run-Found e s h arrived d tool m k r room =
    let before = Run-Keeping e s h arrived d m k r room in
    let g =
      add_tool-Grown d.server tool d.heap before.ready (omega (arith, before.few, room))
        (Run-Accepting e s h arrived d m r).memory in
    let after = of_Grown s (registrations r) d.server _ tool before g in
    record {
      consistent = after.ready.consistent;
      more = after.more;
      kept = after.kept;
      found = found_by_name d.server _ tool before.ready.consistent after.ready.consistent g;
    }
