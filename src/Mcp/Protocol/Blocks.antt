-- ===== src/Mcp/Protocol/Blocks.antt =====
-- The blocks that a message takes and gives back (core/mcp/mcp_server_protocol.c).
use mlink_device.Prelude.{◌≡◌, some, List, [], ◌∷◌}
use mlink_device.Prelude.Bytes.{Bytes}
use mlink_device.Memory.{Heap}
use mlink_device.DynList.Contents.{contents}
use mlink_device.DynList.Add.{Balanced}
use mlink_device.Json.{Json}
use mlink_device.Mcp.PropertyList.{PropertyList, sizeof_property}
use mlink_device.Mcp.PropertyList as PropertyList
use mlink_device.Mcp.ReturnValue.{ReturnValue}
use mlink_device.Mcp.ReturnValue as ReturnValue
use mlink_device.Mcp.ReturnValue.Blocks.{value_blocks}
use mlink_device.Mcp.Tool.{Tool, Callback}
use mlink_device.Mcp.Tool as Tool
use mlink_device.Mcp.Server.{Server, find_in}
use mlink_device.Mcp.Protocol.Arguments.Blocks.{AllTidy}

abbrev pub HasTidy : Tool → Type 0
HasTidy t = AllTidy (contents t.properties)

abbrev pub AllToolsTidy : List Tool → Type 0
AllToolsTidy [] = Unit
AllToolsTidy (t ∷ ts) = HasTidy t × AllToolsTidy ts

-- What is left of the blocks: none, besides those of the value that one call of a tool returned,
-- which are given back.
pub data Spent (s : Server) (h : Heap) : Heap → Type 0 where
  even : {h' : Heap} → Balanced h 0 h' 0 → Spent s h h'
  called :
      {h' : Heap} (name : Bytes) (tool : Tool) (callback : Callback) (given : PropertyList)
      → find_in name (contents s.tools) ≡ some tool
      → tool.callback ≡ some callback
      → Balanced h (value_blocks (callback given)) h' 0
      → Spent s h h'
