-- ===== src/Mcp/Tests.antt =====
-- The theorems on core/mcp at a server with one tool, which takes one number.
use mlink_device.Prelude.{◌≡◌, ◌≢◌, refl, ◌⊎◌, true, false, none, some, [], arith}
use mlink_device.Prelude.Int.{ℤ, pos}
use mlink_device.Prelude.Bytes.{Bytes, bytes}
use mlink_device.DynList.Contents.{contents}
use mlink_device.DynList.Clone.{Pointwise}
use mlink_device.Json.{num}
use mlink_device.Mcp.Property.{copy_from_json}
use mlink_device.Mcp.Property.{Property, string, int_value, property_document, string_value}
use mlink_device.Mcp.Property.Default.{member, reset, property_document-copy_from_json}
use mlink_device.Mcp.Property.Accept.{with_value, takes_int, Outcome, copy_from_json-Outcome}
use mlink_device.Mcp.PropertyList.{sizeof_property}
use mlink_device.Mcp.PropertyList.{
  PropertyList, add_bool, add_int, add_string, bool_property, int_property,
}
use mlink_device.Mcp.PropertyList as PropertyList
use mlink_device.Mcp.PropertyList.Add.{AddsOne, add-AddsOne}
use mlink_device.Mcp.Tool.Schema.{Described, Unreadable, required_list, tool_to_json-Described}
use mlink_device.Mcp.Tool.{tool_to_json, tool_document}
use mlink_device.Prelude.{List}
use mlink_device.Prelude.Bytes.{Bytes}
use mlink_device.Json.{Json}
use mlink_device.Mcp.PropertyList.Find.{first_named}
use mlink_device.Mcp.PropertyList.Lookup.{AddsThenGets, add-AddsThenGets}
use mlink_device.Prelude.Bytes.{strcmp_eq}
use mlink_device.Mcp.PropertyList.Clone.{Clones, ClonedOf, clone_cases}
use mlink_device.Mcp.Tool.{Tool, is_empty}
use mlink_device.Mcp.Server.{find_in, find_tool_by_hash, add_tool}
use mlink_device.Memory.Granting.{HasMemory}
use mlink_device.Mcp.Server.Registry.{Registered, find_tool_by_hash-find_in, add_tool_cases}
use mlink_device.Mcp.Listing.{tools_page}
use mlink_device.Mcp.Calling.{parse_arguments}
use mlink_device.Mcp.Protocol.{parse_message_json}
use mlink_device.Mcp.Protocol.Reply.{IsRequest, Answer, parse_message_json_replies}
use mlink_device.Mcp.Protocol.Pages.{Paged, visible, from_cursor, tools_page-Paged}
use mlink_device.Mcp.PropertyList.Sound.{AllSound}
use mlink_device.Mcp.Protocol.Arguments.Sound.{Built, started, with_int, called, Built-AllSound}
use mlink_device.Mcp.Protocol.Arguments.{Settled, Blamed, parse_arguments_lem}
use mlink_device.Mcp.Sample.{
  no_cursor, heap, env, env-EnvLaws, speed, speeds, speeds-IsValid, speeds-Fits, drive, stop,
  hashed, hashed-IsConsistent, hashed-Fits, ping, arguments,
}

parse_message_json_replies_example :
    ((id : ℤ) × (method : Bytes) × IsRequest env ping id method
      × Answer env hashed id method (parse_message_json env hashed ping heap).0)
    ⊎ (((id : ℤ) (method : Bytes) → ¬ IsRequest env ping id method)
        × (parse_message_json env hashed ping heap ≡ ([], heap)))
parse_message_json_replies_example = parse_message_json_replies env hashed ping heap

parse_arguments_lem_example :
    let cloned = (PropertyList.clone drive.properties heap).0 in
    let ((parsed, v), _) = parse_arguments env drive arguments heap in
    Clones heap (contents drive.properties) (contents cloned)
    × (((v.ok ≡ true) × Pointwise (Settled env arguments) (contents cloned) (contents parsed))
        ⊎ ((v.ok ≡ false) × Blamed env arguments heap v.error_property (contents cloned)))
parse_arguments_lem_example =
    parse_arguments_lem env drive arguments heap env-EnvLaws speeds-IsValid refl (omega arith)

add_tool_cases_example :
    let r = add_tool hashed stop heap in
    ((find_in stop.name (contents hashed.tools) ≢ none) × (r ≡ ((false, hashed), heap)))
    ⊎ ((find_in stop.name (contents hashed.tools) ≡ none)
        × (((r.0 ≡ (false, hashed)) × ¬ HasMemory heap)
            ⊎ ((r.0.0 ≡ true) × Registered heap hashed stop r.0.1)))
add_tool_cases_example = add_tool_cases hashed stop heap hashed-IsConsistent hashed-Fits

find_tool_by_hash-find_in_example :
    find_tool_by_hash hashed (bytes "drive") ≡ find_in (bytes "drive") (contents hashed.tools)
find_tool_by_hash-find_in_example =
    find_tool_by_hash-find_in hashed (bytes "drive") hashed-IsConsistent

tools_page-Paged_example :
    Paged env
      (from_cursor (is_empty no_cursor) no_cursor (visible false (contents hashed.tools)))
      []
      (tools_page env hashed no_cursor false)
tools_page-Paged_example = tools_page-Paged env hashed no_cursor false

copy_from_json-Outcome_example :
    Outcome env speed heap (num (pos 4)) (copy_from_json env speed (num (pos 4)) heap).0
copy_from_json-Outcome_example = copy_from_json-Outcome env env-EnvLaws speed heap (num (pos 4))

clone_cases_example : ClonedOf (contents speeds) heap (PropertyList.clone speeds heap)
clone_cases_example = clone_cases speeds heap speeds-IsValid refl (omega arith)

add-AddsOne_example : AddsOne speeds speeds-IsValid speeds-Fits (bytes "turn") heap
add-AddsOne_example = add-AddsOne speeds speeds-IsValid speeds-Fits (bytes "turn") heap

abbrev slow : Property
slow = record speed { value = int_value (pos 2); has_default = true }

property_document-copy_from_json_example :
    (member (bytes "default") (property_document slow) ≡ some (num (pos 2)))
    × (((copy_from_json env (reset slow (int_value (pos 7)) false) (num (pos 2)) heap).0
          ≡ (true, slow))
        ⊎ ((slow.type ≡ string)
            × (heap.grant heap.next ≡ false)
            × ((copy_from_json env (reset slow (int_value (pos 7)) false) (num (pos 2)) heap).0
                ≡ (false, with_value slow (string_value none)))))
property_document-copy_from_json_example =
    property_document-copy_from_json env env-EnvLaws slow (num (pos 2)) (int_value (pos 7)) false
      heap refl
      (takes_int (pos 2) refl (record { above = λ m. omega arith; below = λ m. omega arith }))
      (λ b e. cc e)

tool_to_json-Described_example :
    ((entries : List (Bytes × Json)) × Described env (contents drive.properties) entries
      × (tool_to_json env drive
          ≡ env.print (tool_document drive entries (required_list (contents drive.properties)))))
    ⊎ (Unreadable env (contents drive.properties) × (tool_to_json env drive ≡ none))
tool_to_json-Described_example = tool_to_json-Described env drive

unused_name : first_named (bytes "turn") (contents speeds) ≡ none
unfolding first_named strcmp_eq
unused_name = refl

add-AddsThenGets_example : AddsThenGets speeds (bytes "turn") heap
add-AddsThenGets_example =
    add-AddsThenGets speeds (bytes "turn") heap speeds-IsValid speeds-Fits unused_name

abbrev one_speed : PropertyList
one_speed =
    (add_int PropertyList.init (some (bytes "speed")) true (pos 1) true (pos 0) true (pos 9)
      heap).0.1

abbrev mover : Tool
mover = record drive { properties = one_speed }

mover-Built : Built (parse_arguments env mover arguments heap).0.0
mover-Built =
    called env mover arguments heap
      (with_int (some (bytes "speed")) true (pos 1) true (pos 0) true (pos 9) heap started)

Built-AllSound_example : AllSound (parse_arguments env mover arguments heap).0.0
Built-AllSound_example = Built-AllSound (parse_arguments env mover arguments heap).0.0 mover-Built
