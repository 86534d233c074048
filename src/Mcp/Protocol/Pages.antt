-- ===== src/Mcp/Protocol/Pages.antt =====
-- The pages of `tools/list` (`mcp_server_build_tools_list`).
pub mod Walk
pub mod Bounds
use mathlib.Core.List.{append-nil, append_assoc}
use mlink_device.Prelude.{
  ◌≡◌, refl, sym, ap, ◌∙◌, ◌⊎◌, inl, inr, Bool, true, false, not, ◌&&◌, none, some, List, [], ◌∷◌,
  ◌++◌, if◌then◌else◌, arith, Bool-cases,
}
use mlink_device.Prelude.Bytes.{Bytes, strcmp_eq}
use mlink_device.DynList.Contents.{contents}
use mlink_device.Json.{Json, Env}
use mlink_device.Mcp.Tool.{Tool, is_empty, tool_to_json}
use mlink_device.Mcp.Server.{Server}
use mlink_device.Mcp.Listing.{Page, first_page, cursor_of, page_step, page_loop, tools_page}

-- The tools that the client may see.
abbrev pub visible : Bool → List Tool → List Tool
visible include_user_tools [] = []
visible include_user_tools (t ∷ ts) =
    if not include_user_tools && t.user_only
    then visible include_user_tools ts
    else t ∷ visible include_user_tools ts

-- From the first tool of the cursor's name on.
abbrev pub from_cursor : Bool → Bytes → List Tool → List Tool
from_cursor true cursor ts = ts
from_cursor false cursor [] = []
from_cursor false cursor (t ∷ ts) =
    if strcmp_eq t.name cursor then t ∷ ts else from_cursor false cursor ts

-- The tool as the page holds it: none for one that cannot be printed or read back.
abbrev pub document : Env → Tool → List Json
document e t = elim (tool_to_json e t) [
  | none ↦ []
  | some text ↦ elim (e.parse text) [ none ↦ [] | some json ↦ json ∷ [] ]
]

abbrev pub documents : Env → List Tool → List Json
documents e [] = []
documents e (t ∷ ts) = document e t ++ documents e ts

-- The loop behind the filter and the cursor.
pub fill : Env → List Tool → Page → Page
fill e [] page = page
fill e (t ∷ ts) page =
    let rest = fill e ts (page_step e page t).1 in
    if (page_step e page t).0 then rest else (page_step e page t).1

pub page_loop-fill :
    (e : Env) (cursor : Bytes) (inc start : Bool) (ts : List Tool) (page : Page)
    → page_loop e cursor inc start ts page ≡ fill e (from_cursor start cursor (visible inc ts)) page
unfolding page_loop fill
page_loop-fill e cursor inc true [] page = refl
page_loop-fill e cursor inc false [] page = refl
page_loop-fill e cursor inc true (t ∷ ts) page = elim (Bool-cases (not inc && t.user_only)) [
  | inl h ↦ rw h (page_loop-fill e cursor inc true ts page)
  | inr h ↦ rw h (
      ap (λ (p : Page). if (page_step e page t).0 then p else (page_step e page t).1)
        (page_loop-fill e cursor inc true ts (page_step e page t).1))
]
page_loop-fill e cursor inc false (t ∷ ts) page = elim (Bool-cases (not inc && t.user_only)) [
  | inl h ↦ rw h (page_loop-fill e cursor inc false ts page)
  | inr h ↦ rw h (elim (Bool-cases (strcmp_eq t.name cursor)) [
    | inl m ↦ rw m (
        ap (λ (p : Page). if (page_step e page t).0 then p else (page_step e page t).1)
          (page_loop-fill e cursor inc true ts (page_step e page t).1))
    | inr m ↦ rw m (page_loop-fill e cursor inc false ts page)
  ])
]

-- A step takes the tool, or stops in front of it.
pub step_cases :
    (e : Env) (page : Page) (t : Tool)
    → (((page_step e page t).0 ≡ true)
        × ((page_step e page t).1.tools ≡ page.tools ++ document e t)
        × ((page_step e page t).1.next_cursor ≡ page.next_cursor))
      ⊎ (page_step e page t ≡ (false, record page { next_cursor = cursor_of t }))
unfolding page_step
step_cases e page t = ground (arith, append-nil page.tools)

-- What a page makes of the tools that are due: it lists the first of them, and its cursor is
-- empty if these are all, and otherwise names the first one left out.
pub data Paged (e : Env) (due : List Tool) (before : List Json) (page : Page) : Type 0 where
  all_listed :
      page.tools ≡ before ++ documents e due → page.next_cursor ≡ [] → Paged e due before page
  left_out :
      (listed : List Tool) (t : Tool) (rest : List Tool)
      → due ≡ listed ++ t ∷ rest
      → page.tools ≡ before ++ documents e listed
      → page.next_cursor ≡ cursor_of t
      → Paged e due before page

pub fill-Paged :
    (e : Env) (ts : List Tool) (page : Page)
    → page.next_cursor ≡ []
    → Paged e ts page.tools (fill e ts page)
unfolding fill
fill-Paged e [] page c = all_listed (sym (append-nil page.tools)) c
fill-Paged e (t ∷ ts) page c = elim (step_cases e page t) [
  | inl (more, tools, cursor) ↦
      rw more (extend e t ts page tools (fill-Paged e ts (page_step e page t).1 (cursor ∙ c)))
  | inr stop ↦ rw stop (left_out [] t ts refl (sym (append-nil page.tools)) refl)
]
  where
    extend :
        (e : Env) (t : Tool) (ts : List Tool) (page : Page)
        → (page_step e page t).1.tools ≡ page.tools ++ document e t
        → Paged e ts (page_step e page t).1.tools (fill e ts (page_step e page t).1)
        → Paged e (t ∷ ts) page.tools (fill e ts (page_step e page t).1)
    extend e t ts page e₁ (all_listed a b) =
        all_listed (a ∙ rw e₁ (append_assoc page.tools (document e t) (documents e ts))) b
    extend e t ts page e₁ (left_out listed u rest d a b) =
        left_out (t ∷ listed) u rest (ap (◌∷◌ t) d)
          (a ∙ rw e₁ (append_assoc page.tools (document e t) (documents e listed))) b

-- For every server and cursor, a page lists the printed tools of a first part of the visible
-- tools from the cursor on, in their order; its next cursor is empty if that part is all of them,
-- and otherwise the first 63 bytes of the name of the first tool left out.
pub tools_page-Paged :
    (e : Env) (s : Server) (cursor : Bytes) (include_user_tools : Bool)
    → Paged e
        (from_cursor (is_empty cursor) cursor (visible include_user_tools (contents s.tools)))
        []
        (tools_page e s cursor include_user_tools)
unfolding tools_page
tools_page-Paged e s cursor inc =
    rw (page_loop-fill e cursor inc (is_empty cursor) (contents s.tools) first_page) (
      fill-Paged e (from_cursor (is_empty cursor) cursor (visible inc (contents s.tools)))
        first_page refl)
