-- ===== src/Mcp/Server/Granting.antt =====
-- A registration (core/mcp/mcp_server.c) leaves the allocator's answers to later requests as they are.
use mlink_device.Prelude.{◌∙◌, refl, is_some}
use mlink_device.Memory.Granting.{KeepsGrant, if-KeepsGrant, realloc-KeepsGrant}
use mlink_device.DynList as Items
use mlink_device.DynList.Granting.{add-KeepsGrant}
use mlink_device.Mcp.Tool.{Tool}
use mlink_device.Mcp.Server.{Server, find_tool_by_hash, add_tool_to_hash, add_tool}

add_tool_to_hash-KeepsGrant : (s : Server) (tool : Tool) → KeepsGrant (add_tool_to_hash s tool)
unfolding add_tool_to_hash
add_tool_to_hash-KeepsGrant s tool h = realloc-KeepsGrant _ h

pub add_tool-KeepsGrant : (s : Server) (tool : Tool) → KeepsGrant (add_tool s tool)
unfolding add_tool
add_tool-KeepsGrant s tool =
    if-KeepsGrant (is_some (find_tool_by_hash s tool.name)) _ _ (λ h. refl)
      (λ h.
        let r = Items.add Items.memcpy s.tools tool h in
        if-KeepsGrant (r.0.0) _ _ (add_tool_to_hash-KeepsGrant (record s { tools = r.0.1 }) tool)
          (λ h'. refl) r.1
        ∙ add-KeepsGrant Items.memcpy s.tools tool (λ h'. refl) h)
