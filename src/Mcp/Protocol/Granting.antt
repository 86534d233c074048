-- ===== src/Mcp/Protocol/Granting.antt =====
-- A message (core/mcp/mcp_server_protocol.c) leaves the allocator's answers to later requests as
-- they are.
use mlink_device.Prelude.{
  ℕ, zero, suc, ◌∙◌, refl, inl, inr, Option, none, some, false, List, [], ◌∷◌, not, Option-cases,
  if◌then◌else◌,
}
use mlink_device.Prelude.Int.{ℤ}
use mlink_device.Prelude.Bytes.{Bytes, bytes, strcmp_eq}
use mlink_device.Memory.Granting.{KeepsGrant, if-KeepsGrant}
use mlink_device.DynList.{slots}
use mlink_device.Json.{Json, Env, is_number, get_string}
use mlink_device.Mcp.Property.{Property, copy_from_json}
use mlink_device.Mcp.Property.Granting.{copy_from_json-KeepsGrant}
use mlink_device.Mcp.PropertyList.{PropertyList}
use mlink_device.Mcp.PropertyList as PropertyList
use mlink_device.Mcp.PropertyList.Granting.{properties_free-KeepsGrant, clone-KeepsGrant}
use mlink_device.Mcp.ReturnValue.Granting.{value_free-KeepsGrant}
use mlink_device.Mcp.Tool.{Tool, call}
use mlink_device.Mcp.Server.{Server, find_tool_by_hash}
use mlink_device.Mcp.Calling.{
  Verdict, argument, argument_round, arguments_loop, clean, parse_arguments, do_tool_call,
  is_misshapen, handle_call,
}
use mlink_device.Mcp.Protocol.{is_version, handle_method, parse_message_json, parse_message}

module _ (e : Env) where
  round-KeepsGrant :
      (arguments : Option Json) (p : Property) (v : Verdict) (n : ℕ) (xs : List (Option Property))
      (o : Option Json)
      → ((w : Verdict) → KeepsGrant (arguments_loop e arguments n xs w))
      → KeepsGrant (argument_round e p v xs (arguments_loop e arguments n xs) o)
  round-KeepsGrant arguments p v n xs none ih h =
      ih (if not p.has_default then (record { ok = false; error_property = p.name }) else v) h
  round-KeepsGrant arguments p v n xs (some json) ih h =
      let r = copy_from_json e p json h in
      if-KeepsGrant (r.0.0) _ _ (λ h'. ih v h') (λ h'. refl) r.1
      ∙ copy_from_json-KeepsGrant e p json h

  arguments_loop-KeepsGrant :
      (arguments : Option Json) (n : ℕ) (xs : List (Option Property)) (v : Verdict)
      → KeepsGrant (arguments_loop e arguments n xs v)
  unfolding arguments_loop
  arguments_loop-KeepsGrant arguments zero xs v h = refl
  arguments_loop-KeepsGrant arguments (suc n) [] v h = refl
  arguments_loop-KeepsGrant arguments (suc n) (none ∷ xs) v h =
      arguments_loop-KeepsGrant arguments n xs v h
  arguments_loop-KeepsGrant arguments (suc n) (some p ∷ xs) v h =
      round-KeepsGrant arguments p v n xs (argument e arguments p.name)
        (λ w. arguments_loop-KeepsGrant arguments n xs w) h

  parse_arguments-KeepsGrant :
      (tool : Tool) (arguments : Option Json) → KeepsGrant (parse_arguments e tool arguments)
  unfolding parse_arguments
  parse_arguments-KeepsGrant tool arguments h =
      let parsed = PropertyList.clone tool.properties h in
      arguments_loop-KeepsGrant arguments parsed.0.count (slots (parsed.0.items)) clean parsed.1
      ∙ clone-KeepsGrant tool.properties h

  call-KeepsGrant : (tool : Tool) (arguments : PropertyList) → KeepsGrant (call e tool arguments)
  unfolding call
  call-KeepsGrant tool arguments h = elim (Option-cases tool.callback) [
    | inl n ↦ rw n refl
    | inr (callback, n) ↦ rw n (value_free-KeepsGrant (callback arguments) h)
  ]

  module _ (s : Server) (id : ℤ) where
    do_tool_call-KeepsGrant :
        (name : Bytes) (arguments : Option Json) → KeepsGrant (do_tool_call e s id name arguments)
    unfolding do_tool_call
    do_tool_call-KeepsGrant name arguments h = elim (Option-cases (find_tool_by_hash s name)) [
      | inl n ↦ rw (n, do_tool_call) refl
      | inr (tool, n) ↦
          let r = parse_arguments e tool arguments h in
          rw (n, do_tool_call)
            (if-KeepsGrant (r.0.1.ok) _ _
                (λ h'.
                  properties_free-KeepsGrant r.0.0 (call e tool r.0.0 h').1
                  ∙ call-KeepsGrant tool r.0.0 h')
                (λ h'. properties_free-KeepsGrant r.0.0 h') r.1
              ∙ parse_arguments-KeepsGrant tool arguments h)
    ]

    handle_call-KeepsGrant : (params : Option Json) → KeepsGrant (handle_call e s id params)
    unfolding handle_call
    handle_call-KeepsGrant none h = refl
    handle_call-KeepsGrant (some params) h =
        elim (Option-cases (get_string (e.get_item params (bytes "name")))) [
          | inl n ↦ rw (n, handle_call) refl
          | inr (name, n) ↦
              rw (n, handle_call)
                (if-KeepsGrant (is_misshapen (e.get_item params (bytes "arguments"))) _ _
                  (λ h'. refl)
                  (do_tool_call-KeepsGrant name (e.get_item params (bytes "arguments"))) h)
        ]

    handle_method-KeepsGrant :
        (method : Bytes) (params : Option Json) → KeepsGrant (handle_method e s id method params)
    unfolding handle_method
    handle_method-KeepsGrant method params =
        if-KeepsGrant (strcmp_eq method (bytes "initialize")) _ _ (λ h. refl)
          (if-KeepsGrant (strcmp_eq method (bytes "tools/list")) _ _ (λ h. refl)
            (if-KeepsGrant (strcmp_eq method (bytes "tools/call")) _ _
              (handle_call-KeepsGrant params) (λ h. refl)))

  parse_message_json-KeepsGrant :
      (s : Server) (json : Json) → KeepsGrant (parse_message_json e s json)
  unfolding parse_message_json
  parse_message_json-KeepsGrant s json =
      if-KeepsGrant (not (is_version (e.get_item json (bytes "jsonrpc")))) _ _ (λ h. refl)
        (λ h. elim (Option-cases (get_string (e.get_item json (bytes "method")))) [
          | inl n ↦ rw n refl
          | inr (method, n) ↦ rw n (elim (Option-cases (e.get_item json (bytes "id"))) [
            | inl m ↦ rw m refl
            | inr (id, m) ↦ rw m (
                if-KeepsGrant (not (is_number (some id))) _ _ (λ h'. refl)
                  (handle_method-KeepsGrant s (e.valueint id) method
                    (e.get_item json (bytes "params")))
                  h)
          ])
        ])

  pub parse_message-KeepsGrant : (s : Server) (text : Bytes) → KeepsGrant (parse_message e s text)
  unfolding parse_message
  parse_message-KeepsGrant s text h = elim (Option-cases (e.parse text)) [
    | inl n ↦ rw (n, parse_message) refl
    | inr (json, n) ↦ rw (n, parse_message) (parse_message_json-KeepsGrant s json h)
  ]
