-- ===== src/Mcp/Server.antt =====
-- core/mcp/mcp_server.c: the registry of tools with its hash table, and what the server sends.
pub mod Registry
pub mod Granting
pub mod Growing
use mlink_device.Prelude.{
  ℕ, ◌%◌, ◌^◌, length, Bool, true, false, not, Option, none, some, List, [], ◌∷◌, ◌++◌, ◌==◌,
  if◌then◌else◌, take,
}
use mlink_device.Prelude.Bytes.{Bytes, bytes, strcmp_eq}
use mlink_device.Memory.{M, pure, ◌>>=◌, realloc}
use mlink_device.DynList.{DynList}
use mlink_device.DynList as Items
use mlink_device.Prelude.{is_some}
use mlink_device.Worker.{Sched}
use mlink_device.Worker as Worker
use mlink_device.Mcp.Tool.{Tool, is_empty}

-- `tools`, `count` and `capacity` of the C struct are the one list `tools`. The bucket of a hash
-- is `tool_hash` with its `tool_hash_count`. Of callback and transport it matters here whether
-- they are set.
pub record Server : Type 0 where
  pub tools : DynList Tool
  pub server_name : Bytes
  pub has_callback : Bool
  pub has_transport : Bool
  pub tool_hash : ℕ → List Tool
  pub has_worker : Bool

-- A pointer of an LP64 machine.
abbrev pub sizeof_pointer : ℕ
sizeof_pointer = 8

-- `strncpy` into the 128 bytes of `server_name`, the last of which stays NUL.
abbrev pub chosen_name : Option Bytes → Bytes
chosen_name none = bytes "MCP_SERVER"
chosen_name (some name) = if is_empty name then bytes "MCP_SERVER" else take 127 name

-- The one server of the process: set up by the first call, handed out as it is by the later ones.
-- `started` says whether the system has a thread for the background scheduler.
unfoldable pub set_up : Option Bytes → Option (Sched Bytes) → Server
set_up name worker = record {
  tools = Items.init Tool sizeof_pointer;
  server_name = chosen_name name;
  has_callback = false;
  has_transport = false;
  tool_hash = λ hash. [];
  has_worker = is_some worker;
}

unfoldable pub server_init : Option Server → Bool → Option Bytes → M Server
server_init (some s) started name = pure s
server_init none started name = Worker.create started >>= λ worker. pure (set_up name worker)

-- The first byte.
unfoldable pub tool_name_hash : Bytes → ℕ
tool_name_hash [] = 0
tool_name_hash (c ∷ cs) = c % 256

-- The first tool of that name.
unfoldable pub find_in : Bytes → List Tool → Option Tool
find_in name [] = none
find_in name (t ∷ ts) = if strcmp_eq t.name name then some t else find_in name ts

unfoldable pub find_tool_by_hash : Server → Bytes → Option Tool
find_tool_by_hash s name = find_in name (s.tool_hash (tool_name_hash name))

abbrev pub bucket_block : List Tool → Option (Unit {0})
bucket_block [] = none
bucket_block (t ∷ ts) = some tt

abbrev pub update : (ℕ → List Tool) → ℕ → List Tool → ℕ → List Tool
update f hash ts other = if other == hash then ts else f other

-- A bucket grows by one pointer: `malloc` for its first tool, `realloc` behind it.
unfoldable pub add_tool_to_hash : Server → Tool → M (Bool × Server)
add_tool_to_hash s tool =
    let hash = tool_name_hash tool.name in
    realloc (bucket_block (s.tool_hash hash)) >>= λ granted. pure (
      if granted
      then (true, record s { tool_hash = update s.tool_hash hash (s.tool_hash hash ++ tool ∷ []) })
      else (false, s))

-- A tool that does not get into the hash table stays in the list all the same.
unfoldable pub add_tool : Server → Tool → M (Bool × Server)
add_tool s tool =
    if is_some (find_tool_by_hash s tool.name)
    then pure (false, s)
    else (Items.add Items.memcpy s.tools tool >>= λ r.
        (if r.0
          then (add_tool_to_hash (record s { tools = r.1 }) tool >>= λ q. pure (true, q.1))
          else pure (false, s)))

-- What goes out: to the transport, to the callback, or into the log.
pub data Sent : Type 0 where
  to_transport : Bytes → Sent
  to_callback : Option Bytes → Sent
  logged : Option Bytes → Sent

-- `(uint32_t)strlen(payload)` bytes go to the transport.
abbrev pub send_transport : Server → Option Bytes → List Sent
send_transport s none = []
send_transport s (some payload) =
    if s.has_transport then to_transport (take (length payload % 2 ^ 32) payload) ∷ [] else []

unfoldable pub send : Server → Option Bytes → List Sent
send s payload =
    send_transport s payload
    ++ (if s.has_callback
        then to_callback payload ∷ []
        else if not s.has_transport
        then logged payload ∷ []
        else [])
