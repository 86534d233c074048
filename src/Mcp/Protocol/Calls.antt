-- ===== src/Mcp/Protocol/Calls.antt =====
-- `tools/call` from its params to its reply (core/mcp/mcp_server_protocol.c).
use mathlib.Core.Path.{subst}
use mlink_device.Prelude.{
  ◌+◌, ◌*◌, ◌<◌, ◌≡◌, refl, ◌∙◌, inl, inr, true, false, Option, none, some, List, [], ◌∷◌, arith,
  Option-cases, Bool-cases,
}
use mlink_device.Prelude.Int.{ℤ}
use mlink_device.Prelude.Bytes.{Bytes, bytes, strcmp_eq}
use mlink_device.Memory.{Heap}
use mlink_device.DynList.{size_mod}
use mlink_device.DynList.Contents.{IsValid, contents}
use mlink_device.DynList.Clone.{Pointwise}
use mlink_device.Json.{Json, Env, EnvLaws, get_string}
use mlink_device.Mcp.Property.{Property}
use mlink_device.Mcp.PropertyList.{PropertyList, sizeof_property}
use mlink_device.Mcp.PropertyList.Clone.{Clones}
use mlink_device.Mcp.ReturnValue as ReturnValue
use mlink_device.Mcp.Tool.{Tool, Callback}
use mlink_device.Mcp.Tool as Tool
use mlink_device.Mcp.Server.{Server, Sent, find_in}
use mlink_device.Mcp.Server.Registry.{IsConsistent, find_tool_by_hash-find_in}
use mlink_device.Mcp.Replies.{reply_result, reply_error}
use mlink_device.Mcp.Calling.{
  message, argument_error, reply_call, parse_arguments, do_tool_call, is_misshapen, handle_call,
}
use mlink_device.Mcp.Protocol.Arguments.{Settled, Blamed, parse_arguments_lem}

-- A tool whose property list can be cloned within `size_t`.
pub record IsSized (t : Tool) : Type 0 where
  pub valid : IsValid t.properties
  pub sized : t.properties.item_size ≡ sizeof_property
  pub small : (t.properties.count * 4 + 12) * sizeof_property < size_mod

abbrev pub AllSized : List Tool → Type 0
AllSized [] = Unit
AllSized (t ∷ ts) = IsSized t × AllSized ts

pub find_in-IsSized :
    (name : Bytes) (ts : List Tool) (t : Tool) → AllSized ts → find_in name ts ≡ some t → IsSized t
unfolding find_in
find_in-IsSized name [] t a e = cc e
find_in-IsSized name (u ∷ ts) t a e = elim (Bool-cases (strcmp_eq u.name name)) [
  | inl here ↦ subst IsSized (ground arith) a.0
  | inr there ↦ find_in-IsSized name ts t a.1 (ground arith)
]

module _ (e : Env) (s : Server) (params : Option Json) where
  -- The parameters name a tool, and its arguments are an object or missing.
  pub record IsCall (name : Bytes) (arguments : Option Json) : Type 0 where
    pub given : Json
    pub params_are : params ≡ some given
    pub name_is : get_string (e.get_item given (bytes "name")) ≡ some name
    pub arguments_are : e.get_item given (bytes "arguments") ≡ arguments
    pub shaped : is_misshapen arguments ≡ false

  -- What can be wrong with a call, and what the client is told.
  pub data Problem (h : Heap) : Bytes → Type 0 where
    no_params : params ≡ none → Problem h (bytes "Missing params")
    no_name :
        (given : Json)
        → params ≡ some given
        → get_string (e.get_item given (bytes "name")) ≡ none
        → Problem h (bytes "Missing tool name")
    misshapen :
        (given : Json)
        → params ≡ some given
        → is_misshapen (e.get_item given (bytes "arguments")) ≡ true
        → Problem h (bytes "Invalid arguments")
    unknown :
        (name : Bytes) (arguments : Option Json)
        → IsCall name arguments
        → find_in name (contents s.tools) ≡ none
        → Problem h (message (bytes "Unknown tool: ") name)
    bad_argument :
        (name : Bytes) (arguments : Option Json) (tool : Tool) (cloned : List Property)
        (blamed : Option Bytes)
        → IsCall name arguments
        → find_in name (contents s.tools) ≡ some tool
        → Clones h (contents tool.properties) cloned
        → Blamed e arguments h blamed cloned
        → Problem h (argument_error blamed)
    no_callback :
        (name : Bytes) (arguments : Option Json) (tool : Tool)
        → IsCall name arguments
        → find_in name (contents s.tools) ≡ some tool
        → tool.callback ≡ none
        → Problem h (bytes "Tool call failed")
    no_content :
        (name : Bytes) (arguments : Option Json) (tool : Tool) (callback : Callback)
        (parsed : PropertyList)
        → IsCall name arguments
        → find_in name (contents s.tools) ≡ some tool
        → tool.callback ≡ some callback
        → ReturnValue.build_content e (callback parsed) ≡ none
        → Problem h (bytes "Tool call failed")

  pub data Called (id : ℤ) (h : Heap) : List Sent → Type 0 where
    refused : (text : Bytes) → Problem h text → Called id h (reply_error e s id text)
    served :
        (name : Bytes) (arguments : Option Json) (tool : Tool) (callback : Callback)
        (cloned : List Property) (parsed : PropertyList) (result : Bytes)
        → IsCall name arguments
        → find_in name (contents s.tools) ≡ some tool
        → tool.callback ≡ some callback
        → Clones h (contents tool.properties) cloned
        → Pointwise (Settled e arguments) cloned (contents parsed)
        → ReturnValue.build_content e (callback parsed) ≡ some result
        → Called id h (reply_result e s id (some result))

  module _ (id : ℤ) (c : IsConsistent s) (laws : EnvLaws e)
      (all : AllSized (contents s.tools)) where
    -- Behind the check of the arguments.
    replied :
        (name : Bytes) (arguments : Option Json) (tool : Tool) (cloned : List Property)
        (parsed : PropertyList) (h h₁ : Heap)
        → IsCall name arguments
        → find_in name (contents s.tools) ≡ some tool
        → Clones h (contents tool.properties) cloned
        → Pointwise (Settled e arguments) cloned (contents parsed)
        → Called id h (reply_call e s id (Tool.call e tool parsed h₁).0)
    unfolding Tool.call
    replied name arguments tool cloned parsed h h₁ call found copies settled =
        elim (Option-cases tool.callback) [
          | inl n ↦ rw (n, Tool.call) (refused _ (no_callback name arguments tool call found n))
          | inr (callback, k) ↦
              rw (k, Tool.call)
                (elim (Option-cases (ReturnValue.build_content e (callback parsed))) [
                  | inl n ↦
                      rw n
                        (refused _ (no_content name arguments tool callback parsed call found k n))
                  | inr (result, p) ↦ rw p (
                      served name arguments tool callback cloned parsed result call found k copies
                        settled p)
                ])
        ]

    do_tool_call-Called :
        (name : Bytes) (arguments : Option Json) (h : Heap)
        → IsCall name arguments
        → Called id h (do_tool_call e s id name arguments h).0
    unfolding do_tool_call
    do_tool_call-Called name arguments h call =
        elim (Option-cases (find_in name (contents s.tools))) [
          | inl missing ↦
              rw (find_tool_by_hash-find_in s name c ∙ missing, do_tool_call)
                (refused _ (unknown name arguments call missing))
          | inr (tool, found) ↦
              let z = find_in-IsSized name (contents s.tools) tool all found in
              let checked = parse_arguments_lem e tool arguments h laws z.valid z.sized z.small in
              rw (find_tool_by_hash-find_in s name c ∙ found, do_tool_call)
                (elim checked.1 [
                  | inl (good, settled) ↦ rw good (
                      replied name arguments tool _ (parse_arguments e tool arguments h).0.0 h _
                        call found checked.0 settled)
                  | inr (bad, blamed) ↦
                      rw bad (
                        refused _
                          (bad_argument name arguments tool _ _ call found checked.0 blamed))
                ])
        ]

    shaped_call :
        (name : Bytes) (given : Json) (h : Heap)
        → params ≡ some given
        → get_string (e.get_item given (bytes "name")) ≡ some name
        → Called id h (handle_call e s id (some given) h).0
    unfolding handle_call
    shaped_call name given h p n =
        rw (n, handle_call)
          (elim (Bool-cases (is_misshapen (e.get_item given (bytes "arguments")))) [
            | inl bad ↦ rw bad (refused _ (misshapen given p bad))
            | inr good ↦ rw good (
                do_tool_call-Called name (e.get_item given (bytes "arguments")) h (record {
                  given = given;
                  params_are = p;
                  name_is = n;
                  arguments_are = refl;
                  shaped = good;
                }))
          ])

    call_of :
        (given : Option Json) (h : Heap)
        → params ≡ given
        → Called id h (handle_call e s id given h).0
    unfolding handle_call
    call_of none h p = refused _ (no_params p)
    call_of (some given) h p = elim (Option-cases (get_string (e.get_item given (bytes "name")))) [
      | inl n ↦ rw (n, handle_call) (refused _ (no_name given p n))
      | inr (name, n) ↦ shaped_call name given h p n
    ]

    -- On a server whose table agrees with its list and whose tools have valid property lists
    -- small enough for `size_t`, with a cJSON whose `valueint` of a number is that number,
    -- `tools/call` sends one of two things: the result that the callback of the tool of that name
    -- gives for arguments settled one by one from the request, against a clone of the tool's
    -- properties; or an error whose text fits what is wrong, be it missing parameters or name,
    -- arguments of the wrong shape, an unknown tool, an argument that is missing or refused, or a
    -- tool without callback or content. The clone has a copy of every property or is empty; with
    -- an allocator that grants everything it has a copy of every property with all of its texts,
    -- and an argument that its property accepts is not what is wrong.
    pub handle_call-Called : (h : Heap) → Called id h (handle_call e s id params h).0
    handle_call-Called h = call_of params h refl
