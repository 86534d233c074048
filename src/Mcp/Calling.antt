-- ===== src/Mcp/Calling.antt =====
-- `tools/call` of core/mcp/mcp_server_protocol.c.
use mlink_device.Prelude.{
  ℕ, zero, suc, Bool, true, false, not, Option, none, some, List, [], ◌∷◌, ◌++◌, if◌then◌else◌,
  take,
}
use mlink_device.Prelude.Int.{ℤ}
use mlink_device.Prelude.Bytes.{Bytes, bytes}
use mlink_device.Memory.{M, pure, ◌>>=◌}
use mlink_device.DynList.{slots}
use mlink_device.Json.{Json, Env, is_object, get_string}
use mlink_device.Mcp.Property.{Property, copy_from_json}
use mlink_device.Mcp.PropertyList.{PropertyList}
use mlink_device.Mcp.PropertyList as PropertyList
use mlink_device.Mcp.Tool.{Tool, is_empty, tool_to_json}
use mlink_device.Mcp.Tool as Tool
use mlink_device.Mcp.Server.{Server, Sent, find_tool_by_hash}
use mlink_device.Mcp.Replies.{reply_result, reply_error}

-- `ok` and `error_property` of `mcp_server_parse_arguments`.
pub record Verdict : Type 0 where
  pub ok : Bool
  pub error_property : Option Bytes

-- cJSON_GetObjectItem, which finds nothing in NULL or under a NULL name.
abbrev pub argument : Env → Option Json → Option Bytes → Option Json
argument e none name = none
argument e (some arguments) none = none
argument e (some arguments) (some name) = e.get_item arguments name

-- One round, at the argument of the property in its slot. A missing argument is noted, one that
-- does not fit ends the loop; `rest` is the rounds behind.
abbrev pub argument_round :
    Env
    → Property
    → Verdict
    → List (Option Property)
    → (Verdict → M (List (Option Property) × Verdict))
    → Option Json
    → M (List (Option Property) × Verdict)
argument_round e p v xs rest none =
    rest (if not p.has_default then (record { ok = false; error_property = p.name }) else v)
    >>= λ (ys, v'). pure (some p ∷ ys, v')
argument_round e p v xs rest (some json) = copy_from_json e p json >>= λ (copied, p').
    if copied
    then (rest v >>= λ (ys, v'). pure (some p' ∷ ys, v'))
    else pure (some p' ∷ xs, record { ok = false; error_property = p.name })

-- The loop over the slots of the cloned list, which are written in place.
unfoldable pub arguments_loop :
    Env → Option Json → ℕ → List (Option Property) → Verdict → M (List (Option Property) × Verdict)
arguments_loop e arguments zero xs v = pure (xs, v)
arguments_loop e arguments (suc n) [] v = pure ([], v)
arguments_loop e arguments (suc n) (none ∷ xs) v =
    arguments_loop e arguments n xs v >>= λ (ys, v'). pure (none ∷ ys, v')
arguments_loop e arguments (suc n) (some p ∷ xs) v =
    argument_round e p v xs (arguments_loop e arguments n xs) (argument e arguments p.name)

abbrev pub put_back :
    Option (List (Option Property)) → List (Option Property) → Option (List (Option Property))
put_back none xs = none
put_back (some old) xs = some xs

abbrev pub clean : Verdict
clean = record { ok = true; error_property = none }

unfoldable pub parse_arguments : Env → Tool → Option Json → M (PropertyList × Verdict)
parse_arguments e tool arguments = do
  parsed ← PropertyList.clone tool.properties
  (xs, v) ← arguments_loop e arguments parsed.count (slots parsed.items) clean
  pure (record parsed { items = put_back parsed.items xs }, v)

-- `snprintf` into 128 bytes.
abbrev pub message : Bytes → Bytes → Bytes
message prefix text = take 127 (prefix ++ text)

abbrev pub argument_error : Option Bytes → Bytes
argument_error none = message (bytes "Invalid argument: ") (bytes "unknown")
argument_error (some name) = message (bytes "Invalid argument: ") name

abbrev pub reply_call : Env → Server → ℤ → Option Bytes → List Sent
reply_call e s id none = reply_error e s id (bytes "Tool call failed")
reply_call e s id (some result) = reply_result e s id (some result)

unfoldable pub do_tool_call : Env → Server → ℤ → Bytes → Option Json → M (List Sent)
do_tool_call e s id tool_name arguments = elim (find_tool_by_hash s tool_name) [
  | none ↦ pure (reply_error e s id (message (bytes "Unknown tool: ") tool_name))
  | some tool ↦ parse_arguments e tool arguments >>= λ (parsed, v).
      if v.ok
      then (do
        result ← Tool.call e tool parsed
        _ ← PropertyList.free parsed
        pure (reply_call e s id result))
      else (do
        _ ← PropertyList.free parsed
        pure (reply_error e s id (argument_error v.error_property)))
]

-- Whether `arguments` is there and no object.
abbrev pub is_misshapen : Option Json → Bool
is_misshapen none = false
is_misshapen (some json) = not (is_object (some json))

unfoldable pub handle_call : Env → Server → ℤ → Option Json → M (List Sent)
handle_call e s id none = pure (reply_error e s id (bytes "Missing params"))
handle_call e s id (some params) = elim (get_string (e.get_item params (bytes "name"))) [
  | none ↦ pure (reply_error e s id (bytes "Missing tool name"))
  | some name ↦
      if is_misshapen (e.get_item params (bytes "arguments"))
      then pure (reply_error e s id (bytes "Invalid arguments"))
      else do_tool_call e s id name (e.get_item params (bytes "arguments"))
]
