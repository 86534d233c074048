-- ===== src/Mcp/Protocol.antt =====
-- core/mcp/mcp_server_protocol.c: the JSON-RPC requests and their replies.
pub mod Reply
pub mod Arguments
pub mod Pages
pub mod Calls
pub mod Blocks
pub mod Granting
mod Tests
use mlink_device.Prelude.{Bool, false, not, Option, none, some, List, [], if◌then◌else◌}
use mlink_device.Prelude.Int.{ℤ}
use mlink_device.Prelude.Bytes.{Bytes, bytes, strcmp_eq}
use mlink_device.Memory.{M, pure}
use mlink_device.Json.{Json, Env, is_number, get_string}
use mlink_device.Mcp.Server.{Server, Sent}
use mlink_device.Mcp.Replies.{reply_result, reply_error, initialize_document}
use mlink_device.Mcp.Listing.{handle_list}
use mlink_device.Mcp.Calling.{message, handle_call}

unfoldable pub handle_method : Env → Server → ℤ → Bytes → Option Json → M (List Sent)
handle_method e s id method params =
    if strcmp_eq method (bytes "initialize")
    then pure (reply_result e s id (e.print (initialize_document s)))
    else if strcmp_eq method (bytes "tools/list")
    then pure (handle_list e s id params)
    else if strcmp_eq method (bytes "tools/call")
    then handle_call e s id params
    else pure (reply_error e s id (message (bytes "Method not implemented: ") method))

abbrev pub is_version : Option Json → Bool
is_version json = elim (get_string json) [ none ↦ false | some text ↦ strcmp_eq text (bytes "2.0") ]

unfoldable pub parse_message_json : Env → Server → Json → M (List Sent)
parse_message_json e s json =
    if not (is_version (e.get_item json (bytes "jsonrpc")))
    then pure []
    else (elim (get_string (e.get_item json (bytes "method"))) [
      | none ↦ pure []
      | some method ↦ elim (e.get_item json (bytes "id")) [
        | none ↦ pure []
        | some id ↦
            if not (is_number (some id))
            then pure []
            else handle_method e s (e.valueint id) method (e.get_item json (bytes "params"))
      ]
    ])

-- What a message makes the server send.
unfoldable pub parse_message : Env → Server → Bytes → M (List Sent)
parse_message e s text = elim (e.parse text) [
  | none ↦ pure []
  | some json ↦ parse_message_json e s json
]
