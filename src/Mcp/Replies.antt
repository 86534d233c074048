-- ===== src/Mcp/Replies.antt =====
-- The replies of core/mcp/mcp_server_protocol.c, and the result of `initialize`.
use mlink_device.Prelude.{Option, none, some, List, [], ◌∷◌, if◌then◌else◌}
use mlink_device.Prelude.Int.{ℤ}
use mlink_device.Prelude.Bytes.{Bytes, bytes}
use mlink_device.Json.{Json, num, str, raw, object, Env}
use mlink_device.Mcp.Tool.{is_empty}
use mlink_device.Mcp.Server.{Server, Sent, send}

-- cJSON_AddItemToObject, which adds nothing for a NULL item.
abbrev pub member_if : Bytes → Option Json → List (Bytes × Json)
member_if key none = []
member_if key (some json) = (key, json) ∷ []

-- A reply: the request's id and one more member, if its item is not NULL.
abbrev pub envelope : ℤ → Bytes → Option Json → Json
envelope id key body =
    object ((bytes "jsonrpc", str (bytes "2.0")) ∷ (bytes "id", num id) ∷ member_if key body)

-- cJSON_Parse, which fails on NULL.
abbrev pub parse_opt : Env → Option Bytes → Option Json
parse_opt e none = none
parse_opt e (some text) = e.parse text

-- cJSON_CreateRaw, which returns NULL of NULL.
abbrev pub create_raw : Option Bytes → Option Json
create_raw none = none
create_raw (some text) = some (raw text)

-- A text that does not parse goes out as it is, and NULL not at all.
abbrev pub result_body : Env → Option Bytes → Option Json
result_body e result = elim (parse_opt e result) [
  | none ↦ create_raw result
  | some json ↦ some json
]

unfoldable pub reply_result : Env → Server → ℤ → Option Bytes → List Sent
reply_result e s id result = send s (e.print (envelope id (bytes "result") (result_body e result)))

abbrev pub error_body : Bytes → Json
error_body message = object ((bytes "message", str message) ∷ [])

unfoldable pub reply_error : Env → Server → ℤ → Bytes → List Sent
reply_error e s id message =
    send s (e.print (envelope id (bytes "error") (some (error_body message))))

abbrev pub reported_name : Server → Bytes
reported_name s = if is_empty s.server_name then bytes "MCP_SERVER" else s.server_name

unfoldable pub initialize_document : Server → Json
initialize_document s = object (
    (bytes "protocolVersion", str (bytes "2024-11-05"))
    ∷ (bytes "capabilities", object ((bytes "tools", object []) ∷ []))
    ∷ (
      bytes "serverInfo",
      object ((bytes "name", str (reported_name s)) ∷ (bytes "version", str (bytes "1.0.0")) ∷ []),
    )
    ∷ [])
