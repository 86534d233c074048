-- ===== src/Mcp/Protocol/Reply.antt =====
-- Which messages are answered, and with what (core/mcp/mcp_server_protocol.c).
use mlink_device.Prelude.{
  ◌≡◌, refl, sym, ap, ◌∙◌, ◌⊎◌, inl, inr, true, false, Option, none, some, List, [], arith,
  Option-cases, Bool-cases,
}
use mlink_device.Prelude.Int.{ℤ}
use mlink_device.Prelude.Bytes.{Bytes, bytes, strcmp_eq}
use mlink_device.Memory.{Heap}
use mlink_device.Json.{Json, raw, Env, is_number, get_string}
use mlink_device.Mcp.Server.{Server, Sent, send, find_tool_by_hash}
use mlink_device.Mcp.Replies.{envelope, error_body, reply_result, reply_error, initialize_document}
use mlink_device.Mcp.Listing.{reply_list, handle_list}
use mlink_device.Mcp.Calling.{reply_call, handle_call, do_tool_call, is_misshapen, parse_arguments}
use mlink_device.Mcp.Protocol.{handle_method, parse_message_json, is_version}

-- A JSON-RPC request: the version, a method, and a numeric id.
pub record IsRequest (e : Env) (json : Json) (id : ℤ) (method : Bytes) : Type 0 where
  pub version : is_version (e.get_item json (bytes "jsonrpc")) ≡ true
  pub method_is : get_string (e.get_item json (bytes "method")) ≡ some method
  pub item : Json
  pub item_is : e.get_item json (bytes "id") ≡ some item
  pub numeric : is_number (some item) ≡ true
  pub id_is : e.valueint item ≡ id

-- One reply goes out, under that id: a result, an error, or for `initialize` alone neither of the two,
-- where the print of its result has returned NULL.
pub data Answer (e : Env) (s : Server) (id : ℤ) (method : Bytes) : List Sent → Type 0 where
  result :
      (json : Json)
      → Answer e s id method (send s (e.print (envelope id (bytes "result") (some json))))
  error :
      (message : Bytes)
      → Answer e s id method
          (send s (e.print (envelope id (bytes "error") (some (error_body message)))))
  neither :
      strcmp_eq method (bytes "initialize") ≡ true
      → e.print (initialize_document s) ≡ none
      → Answer e s id method (send s (e.print (envelope id (bytes "result") none)))

module _ (e : Env) (s : Server) (id : ℤ) (method : Bytes) where
  reply_result-Answer : (text : Bytes) → Answer e s id method (reply_result e s id (some text))
  unfolding reply_result
  reply_result-Answer text = elim (Option-cases (e.parse text)) [
    | inl n ↦ rw (n, reply_result) (result (raw text))
    | inr (json, n) ↦ rw (n, reply_result) (result json)
  ]

  reply_error-Answer : (message : Bytes) → Answer e s id method (reply_error e s id message)
  unfolding reply_error
  reply_error-Answer message = error message

  reply_call-Answer : (text : Option Bytes) → Answer e s id method (reply_call e s id text)
  reply_call-Answer none = reply_error-Answer (bytes "Tool call failed")
  reply_call-Answer (some text) = reply_result-Answer text

  reply_list-Answer : (text : Option Bytes) → Answer e s id method (reply_list e s id text)
  reply_list-Answer none = reply_error-Answer (bytes "Failed to generate tools list")
  reply_list-Answer (some text) = reply_result-Answer text

  initialize-Answer :
      strcmp_eq method (bytes "initialize") ≡ true
      → Answer e s id method (reply_result e s id (e.print (initialize_document s)))
  unfolding reply_result
  initialize-Answer m = of_print (e.print (initialize_document s)) refl
    where
      of_print :
          (text : Option Bytes)
          → e.print (initialize_document s) ≡ text
          → Answer e s id method (reply_result e s id text)
      of_print none n = neither m n
      of_print (some text) n = reply_result-Answer text

  do_tool_call-Answer :
      (name : Bytes) (arguments : Option Json) (h : Heap)
      → Answer e s id method (do_tool_call e s id name arguments h).0
  unfolding do_tool_call
  do_tool_call-Answer name arguments h = elim (Option-cases (find_tool_by_hash s name)) [
    | inl missing ↦ rw (missing, do_tool_call) (reply_error-Answer _)
    | inr (tool, found) ↦
        rw (found, do_tool_call)
          (elim (Bool-cases (parse_arguments e tool arguments h).0.1.ok) [
            | inl good ↦ rw good (reply_call-Answer _)
            | inr bad ↦ rw bad (reply_error-Answer _)
          ])
  ]

  handle_call-Answer :
      (params : Option Json) (h : Heap) → Answer e s id method (handle_call e s id params h).0
  unfolding handle_call
  handle_call-Answer none h = reply_error-Answer _
  handle_call-Answer (some params) h =
      elim (Option-cases (get_string (e.get_item params (bytes "name")))) [
        | inl missing ↦ rw (missing, handle_call) (reply_error-Answer _)
        | inr (name, given) ↦
            rw (given, handle_call)
              (elim (Bool-cases (is_misshapen (e.get_item params (bytes "arguments")))) [
                | inl bad ↦ rw bad (reply_error-Answer _)
                | inr good ↦ rw good (do_tool_call-Answer name _ h)
              ])
      ]

  handle_method-Answer :
      (params : Option Json) (h : Heap)
      → Answer e s id method (handle_method e s id method params h).0
  unfolding handle_method handle_list
  handle_method-Answer params h = elim (Bool-cases (strcmp_eq method (bytes "initialize"))) [
    | inl m ↦ rw m (initialize-Answer m)
    | inr m ↦ rw m (elim (Bool-cases (strcmp_eq method (bytes "tools/list"))) [
      | inl m ↦ rw m (reply_list-Answer _)
      | inr m ↦ rw m (elim (Bool-cases (strcmp_eq method (bytes "tools/call"))) [
        | inl m ↦ rw m (handle_call-Answer params h)
        | inr m ↦ rw m (reply_error-Answer _)
      ])
    ])
  ]

clash :
    {o : Option Json} {a b : Json}
    → o ≡ some a
    → o ≡ some b
    → is_number (some a) ≡ true
    → is_number (some b) ≡ false
    → ⊥
clash {a = a} {b = b} p q t f = cc (sym t, ap is_number (sym p ∙ q), f)

-- For every server, document and allocator: a request, that is a document with the version 2.0, a
-- method and a numeric id, is answered by exactly one call of `mcp_server_send`, with the printed
-- envelope of its id and a result or an error, or, for `initialize` alone where its result does
-- not print, with neither of the two; every other document is met with silence and no allocation.
pub parse_message_json_replies :
    (e : Env) (s : Server) (json : Json) (h : Heap)
    → ((id : ℤ) × (method : Bytes) × IsRequest e json id method
        × Answer e s id method (parse_message_json e s json h).0)
      ⊎ (((id : ℤ) (method : Bytes) → ¬ IsRequest e json id method)
          × (parse_message_json e s json h ≡ ([], h)))
unfolding parse_message_json
parse_message_json_replies e s json h =
    elim (Bool-cases (is_version (e.get_item json (bytes "jsonrpc")))) [
      | inr v ↦ inr ((λ id m r. ground (arith, r.version)), rw v refl)
      | inl v ↦ elim (Option-cases (get_string (e.get_item json (bytes "method")))) [
        | inl m ↦ inr ((λ id k r. ground (arith, r.method_is)), rw (v, m, parse_message_json) refl)
        | inr (method, m) ↦ elim (Option-cases (e.get_item json (bytes "id"))) [
          | inl i ↦
              inr ((λ id k r. ground (arith, r.item_is)), rw (v, m, i, parse_message_json) refl)
          | inr (item, i) ↦ elim (Bool-cases (is_number (some item))) [
            | inr n ↦ inr (
              (λ id k r. clash r.item_is i r.numeric n),
              rw (v, m, i, parse_message_json) (rw n refl),
            )
            | inl n ↦ inl (
              e.valueint item,
              method,
              record {
                version = v;
                method_is = m;
                item = item;
                item_is = i;
                numeric = n;
                id_is = refl;
              },
              rw (v, m, i, parse_message_json)
                  (rw n (handle_method-Answer e s (e.valueint item) method _ h)),
            )
          ]
        ]
      ]
    ]
