-- ===== src/Mcp/Protocol/Tests.antt =====
-- The theorems on pages and calls at servers with one tool.
use mlink_device.Prelude.{
  ℕ, zero, suc, ◌≤◌, ◌<◌, ◌≡◌, refl, true, false, none, some, [], ◌∷◌, length, arith,
}
use mlink_device.Prelude.Int.{pos}
use mlink_device.Prelude.Bytes.{Bytes, bytes, strcmp_eq}
use mlink_device.DynList.Contents.{contents}
use mlink_device.Json.{Env, num, Json, object, str}
use mlink_device.Mcp.Tool.{Tool, tool_to_json}
use mlink_device.Mcp.Server.{Server}
use mlink_device.Mcp.Sample.{
  env, env-EnvLaws, heap, drive, hashed, hashed-IsConsistent, speeds-IsValid, no_cursor,
}
use mlink_device.Mcp.Listing.{size_estimate, tools_page}
use mlink_device.Mcp.Calling.{handle_call}
use mlink_device.Mcp.Protocol.Pages.{visible, from_cursor, documents}
use mlink_device.Mcp.Protocol.Pages.Walk.{walk, walk-documents}
use mlink_device.Mcp.Protocol.Pages.Bounds.{IsBounded, tools_page-IsBounded, walk_stuck}
use mlink_device.Mcp.Protocol.Calls.{Called, handle_call-Called}

drive_text : (text : Bytes) → tool_to_json env drive ≡ some text → length text ≤ 7150
unfolding tool_to_json
drive_text text e = ground arith

walk-documents_example :
    walk env hashed true 2 [] ≡ (documents env (visible true (contents hashed.tools)), true)
walk-documents_example = walk-documents env hashed true hashed-IsConsistent (
  record { named = refl; short = omega arith; estimated = omega arith; printed = drive_text },
  tt,
)

tools_page-IsBounded_example :
    IsBounded (tools_page env hashed no_cursor true)
    × (length (tools_page env hashed no_cursor true).tools ≤ 39)
tools_page-IsBounded_example = tools_page-IsBounded env hashed no_cursor true

abbrev text_of : ℕ → Bytes
text_of zero = []
text_of (suc n) = 97 ∷ text_of n

length-text_of : (n : ℕ) → length (text_of n) ≡ n
length-text_of zero = refl
length-text_of (suc n) = omega (arith, length-text_of n)

abbrev wordy : Tool
wordy = record drive { description = text_of 8000 }

abbrev verbose : Server
verbose = record hashed {
  tools = record {
    items = some (some wordy ∷ none ∷ none ∷ none ∷ []);
    count = 1;
    capacity = 4;
    item_size = 8;
  };
}

at_cursor : from_cursor false (bytes "drive") (visible true (contents verbose.tools)) ≡ wordy ∷ []
unfolding strcmp_eq
at_cursor = refl

wordy_size : 7950 < size_estimate wordy
wordy_size = omega (arith, length-text_of 8000)

walk_stuck_example : walk env verbose true 9 (bytes "drive") ≡ ([], false)
walk_stuck_example = walk_stuck env verbose true wordy [] at_cursor refl (omega arith) wordy_size 9

abbrev call : Json
call = object ((bytes "name", str (bytes "drive")) ∷ [])

handle_call-Called_example :
    Called env hashed (some call) (pos 3) heap (handle_call env hashed (pos 3) (some call) heap).0
handle_call-Called_example =
    handle_call-Called env hashed (some call) (pos 3) hashed-IsConsistent env-EnvLaws
      (record { valid = speeds-IsValid; sized = refl; small = omega arith }, tt) heap

abbrev call_message : Json
call_message = object (
    (bytes "jsonrpc", str (bytes "2.0"))
    ∷ (bytes "method", str (bytes "tools/call"))
    ∷ (bytes "id", num (pos 3))
    ∷ (bytes "params", call)
    ∷ [])

-- Every text is a call of the tool.
abbrev calling : Env
calling = record env { parse = λ text. some call_message }
