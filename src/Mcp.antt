-- ===== src/Mcp.antt =====
-- core/mcp: the MCP server over JSON-RPC.
pub mod Property
pub mod PropertyList
pub mod ReturnValue
pub mod Tool
pub mod Server
pub mod Replies
pub mod Listing
pub mod Calling
pub mod Protocol
pub mod Session
pub mod Sample
mod Tests
