-- ===== src/Mcp/Protocol/Pages/Bounds.antt =====
-- How large a page of `tools/list` gets, and a tool that is too large for any
-- (`mcp_server_build_tools_list`).
use mlink_device.Prelude.{
  ℕ, zero, suc, ◌+◌, ◌*◌, ◌≤◌, ◌<◌, ◌≡◌, refl, Bool, false, List, [], ◌∷◌, ◌++◌, arith, length,
  length-append, length-take, take_all, ltb, inl, inr, Bool-cases, Option-cases,
}
use mlink_device.Prelude.Bytes.{Bytes}
use mlink_device.DynList.Contents.{contents}
use mlink_device.Json.{Json, Env}
use mlink_device.Mcp.Tool.{Tool, is_empty, tool_to_json}
use mlink_device.Mcp.Server.{Server}
use mlink_device.Mcp.Listing.{
  Page, first_page, cursor_of, size_estimate, too_long, page_step, tools_page,
}
use mlink_device.Mcp.Protocol.Pages.{visible, from_cursor, fill, page_loop-fill}
use mlink_device.Mcp.Protocol.Pages.Walk.{walk}

-- The estimate counts 200 for each tool and stays within the limit; a cursor fits its 64 bytes.
pub record IsBounded (page : Page) : Type 0 where
  pub counted : 50 + 200 * length page.tools ≤ page.estimated_size
  pub limited : page.estimated_size ≤ 8000
  pub cursor_fits : length page.next_cursor < 64

-- What a step can leave: the page, its cursor set, or one more tool within the limit.
data Stepped (page : Page) (t : Tool) : Page → Type 0 where
  same : Stepped page t page
  ended : Stepped page t (record page { next_cursor = cursor_of t })
  listed :
      (json : Json)
      → page.estimated_size + size_estimate t ≤ 8000
      → Stepped page t (record page {
        tools = page.tools ++ json ∷ [];
        estimated_size = page.estimated_size + size_estimate t;
      })

page_step-Stepped : (e : Env) (page : Page) (t : Tool) → Stepped page t (page_step e page t).1
unfolding page_step
page_step-Stepped e page t = elim (Bool-cases (ltb 8000 (page.estimated_size + size_estimate t))) [
  | inl over ↦ rw over ended
  | inr room ↦ rw room (elim (Option-cases (tool_to_json e t)) [
    | inl n ↦ rw n same
    | inr (text, p) ↦ rw p (elim (Bool-cases (too_long e page text)) [
      | inl long ↦ rw long ended
      | inr fits ↦ rw fits (elim (Option-cases (e.parse text)) [
        | inl n ↦ rw n same
        | inr (json, q) ↦ rw q (listed json (ground arith))
      ])
    ])
  ])
]

Stepped-IsBounded :
    {page : Page} {t : Tool} {page' : Page}
    → Stepped page t page'
    → IsBounded page
    → IsBounded page'
Stepped-IsBounded same b = b
Stepped-IsBounded {t} ended b = record {
  counted = b.counted;
  limited = b.limited;
  cursor_fits = omega (arith, length-take 63 t.name);
}
Stepped-IsBounded {page} (listed json room) b = record {
  counted = omega (arith, b.counted, length-append page.tools (json ∷ []));
  limited = room;
  cursor_fits = b.cursor_fits;
}

fill-IsBounded :
    (e : Env) (ts : List Tool) (page : Page) → IsBounded page → IsBounded (fill e ts page)
unfolding fill
fill-IsBounded e [] page b = b
fill-IsBounded e (t ∷ ts) page b =
    let b' : IsBounded (page_step e page t).1 = Stepped-IsBounded (page_step-Stepped e page t) b in
    elim (Bool-cases (page_step e page t).0) [
      | inl more ↦ rw more (fill-IsBounded e ts (page_step e page t).1 b')
      | inr stop ↦ rw stop b'
    ]

-- Every page holds at most 39 tools, its size estimate counts at least 200 for each and is at
-- most 8000, and its cursor has fewer than 64 bytes.
pub tools_page-IsBounded :
    (e : Env) (s : Server) (cursor : Bytes) (include_user_tools : Bool)
    → IsBounded (tools_page e s cursor include_user_tools)
      × (length (tools_page e s cursor include_user_tools).tools ≤ 39)
unfolding tools_page
tools_page-IsBounded e s cursor inc =
    rw (page_loop-fill e cursor inc (is_empty cursor) (contents s.tools) first_page) (
      let b =
        fill-IsBounded e (from_cursor (is_empty cursor) cursor (visible inc (contents s.tools)))
          first_page (omega arith) in
      (b, omega (arith, b.counted, b.limited)))

-- A tool that does not fit on an empty page.
stuck_page :
    (e : Env) (t : Tool) (ts : List Tool)
    → 7950 < size_estimate t
    → fill e (t ∷ ts) first_page ≡ record first_page { next_cursor = cursor_of t }
unfolding fill page_step
stuck_page e t ts big = ground arith

-- At a cursor that is the name, of 1 to 63 bytes, of a visible tool whose estimate exceeds 7950,
-- a client gets only empty pages and never reaches the last one, however many it asks for.
pub walk_stuck :
    (e : Env) (s : Server) (include_user_tools : Bool) (t : Tool) (ts : List Tool)
    → from_cursor false t.name (visible include_user_tools (contents s.tools)) ≡ t ∷ ts
    → is_empty t.name ≡ false
    → length t.name ≤ 63
    → 7950 < size_estimate t
    → (pages : ℕ) → walk e s include_user_tools pages t.name ≡ ([], false)
unfolding walk tools_page
walk_stuck e s inc t ts at named short big zero = refl
walk_stuck e s inc t ts at named short big (suc pages) =
    rw
      (
        page_loop-fill e t.name inc (is_empty t.name) (contents s.tools) first_page,
        named,
        at,
        stuck_page e t ts big,
        take_all 63 t.name short,
        named,
      )
      (rw (walk_stuck e s inc t ts at named short big pages) refl)
