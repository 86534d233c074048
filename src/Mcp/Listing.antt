-- ===== src/Mcp/Listing.antt =====
-- `tools/list` of core/mcp/mcp_server_protocol.c.
use mlink_device.Prelude.{
  ℕ, ◌+◌, Bool, true, false, not, ◌&&◌, Option, none, some, List, [], ◌∷◌, ◌++◌, ltb, if◌then◌else◌,
  take, length,
}
use mlink_device.Prelude.Int.{ℤ}
use mlink_device.Prelude.Bytes.{Bytes, bytes, strcmp_eq}
use mlink_device.DynList.Contents.{contents}
use mlink_device.Json.{Json, str, object, array, Env, is_bool, get_string}
use mlink_device.Mcp.Property.{is_one}
use mlink_device.Mcp.Tool.{Tool, is_empty, tool_to_json}
use mlink_device.Mcp.Server.{Server, Sent}
use mlink_device.Mcp.Replies.{reply_result, reply_error}

abbrev pub max_payload : ℕ
max_payload = 8000

-- The variables of the loop in `mcp_server_build_tools_list`.
pub record Page : Type 0 where
  pub tools : List Json
  pub estimated_size : ℕ
  pub next_cursor : Bytes

-- `strncpy` into the 64 bytes of `next_cursor`.
abbrev pub cursor_of : Tool → Bytes
cursor_of tool = take 63 tool.name

abbrev pub size_estimate : Tool → ℕ
size_estimate tool = length tool.name + length tool.description + 200

-- The tools of the page so far, as `root`.
abbrev pub root_of : Page → Json
root_of page = object ((bytes "tools", array page.tools) ∷ [])

abbrev pub print_length : Env → Json → ℕ
print_length e json = elim (e.print json) [ none ↦ 0 | some text ↦ length text ]

-- The second size check: exact, and made only near the limit (nine tenths of it).
unfoldable pub too_long : Env → Page → Bytes → Bool
too_long e page tool_json =
    ltb 7200 (page.estimated_size + length tool_json)
    && ltb max_payload (length tool_json + print_length e (root_of page))

-- One tool behind the cursor: the page with it, and whether the loop goes on.
unfoldable pub page_step : Env → Page → Tool → Bool × Page
page_step e page tool =
    if ltb max_payload (page.estimated_size + size_estimate tool)
    then (false, record page { next_cursor = cursor_of tool })
    else (elim (tool_to_json e tool) [
      | none ↦ (true, page)
      | some tool_json ↦
          if too_long e page tool_json
          then (false, record page { next_cursor = cursor_of tool })
          else (elim (e.parse tool_json) [
            | none ↦ (true, page)
            | some json ↦ (
              true,
              record page {
                tools = page.tools ++ json ∷ [];
                estimated_size = page.estimated_size + size_estimate tool;
              },
            )
          ])
    ])

-- `start` once the tool at the cursor was reached.
unfoldable pub page_loop : Env → Bytes → Bool → Bool → List Tool → Page → Page
page_loop e cursor include_user_tools start [] page = page
page_loop e cursor include_user_tools start (tool ∷ rest) page =
    let skip = page_loop e cursor include_user_tools start rest page in
    let (more, page') = page_step e page tool in
    let next = page_loop e cursor include_user_tools true rest page' in
    if not include_user_tools && tool.user_only
    then skip
    else if not start && not (strcmp_eq tool.name cursor)
    then skip
    else if more
    then next
    else page'

abbrev pub first_page : Page
first_page = record { tools = []; estimated_size = 50; next_cursor = [] }

abbrev pub cursor_member : Bytes → List (Bytes × Json)
cursor_member cursor = if is_empty cursor then [] else (bytes "nextCursor", str cursor) ∷ []

-- A missing cursor is the empty one.
unfoldable pub tools_page : Env → Server → Bytes → Bool → Page
tools_page e s cursor include_user_tools =
    page_loop e cursor include_user_tools (is_empty cursor) (contents s.tools) first_page

unfoldable pub tools_list_document : Page → Json
tools_list_document page =
    object ((bytes "tools", array page.tools) ∷ cursor_member page.next_cursor)

abbrev pub cursor_param : Env → Option Json → Bytes
cursor_param e none = []
cursor_param e (some params) = elim (get_string (e.get_item params (bytes "cursor"))) [
  | none ↦ []
  | some cursor ↦ cursor
]

abbrev pub is_true_param : Env → Option Json → Bool
is_true_param e none = false
is_true_param e (some json) = is_bool (some json) && is_one (e.valueint json)

abbrev pub user_tools_param : Env → Option Json → Bool
user_tools_param e none = false
user_tools_param e (some params) = is_true_param e (e.get_item params (bytes "withUserTools"))

abbrev pub reply_list : Env → Server → ℤ → Option Bytes → List Sent
reply_list e s id none = reply_error e s id (bytes "Failed to generate tools list")
reply_list e s id (some result) = reply_result e s id (some result)

unfoldable pub handle_list : Env → Server → ℤ → Option Json → List Sent
handle_list e s id params = reply_list e s id (
    e.print
      (tools_list_document (tools_page e s (cursor_param e params) (user_tools_param e params))))
