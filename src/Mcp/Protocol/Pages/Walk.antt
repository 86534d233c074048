-- ===== src/Mcp/Protocol/Pages/Walk.antt =====
-- A client that follows `nextCursor` from page to page (`mcp_server_build_tools_list`).
use mathlib.Core.List.{append_assoc}
use mathlib.Core.Path.{subst}
use mlink_device.Prelude.{
  ℕ, zero, suc, ◌≤◌, ◌≡◌, refl, sym, ap, ◌∙◌, inl, inr, Bool, true, false, not, ◌&&◌, none, some,
  List, [], ◌∷◌, ◌++◌, if◌then◌else◌, arith, length, length-append, take_all, Option-cases,
}
use mlink_device.Prelude.Bytes.{Bytes, strcmp_eq, strcmp_eq_refl, strcmp_eq_comm}
use mlink_device.DynList.Contents.{contents}
use mlink_device.Json.{Json, Env}
use mlink_device.Mcp.Tool.{Tool, is_empty, tool_to_json}
use mlink_device.Mcp.Server.{Server, find_in}
use mlink_device.Mcp.Server.Registry.{AreDistinct, IsConsistent}
use mlink_device.Mcp.Listing.{
  Page, first_page, cursor_of, size_estimate, too_long, page_step, tools_page,
}
use mlink_device.Mcp.Protocol.Pages.{
  visible, from_cursor, document, documents, fill, page_loop-fill, step_cases, Paged, all_listed,
  left_out, fill-Paged,
}

-- The tools of the pages from a cursor on, and whether the last page was reached.
unfoldable pub walk : Env → Server → Bool → ℕ → Bytes → List Json × Bool
walk e s include_user_tools zero cursor = ([], false)
walk e s include_user_tools (suc pages) cursor =
    let page = tools_page e s cursor include_user_tools in
    let rest = walk e s include_user_tools pages page.next_cursor in
    if is_empty page.next_cursor then (page.tools, true) else (page.tools ++ rest.0, rest.1)

-- A tool that has a page to itself, and a name that a cursor can hold.
pub record IsListable (e : Env) (t : Tool) : Type 0 where
  pub named : is_empty t.name ≡ false
  pub short : length t.name ≤ 63
  pub estimated : size_estimate t ≤ 7950
  pub printed : (text : Bytes) → tool_to_json e t ≡ some text → length text ≤ 7150

abbrev pub AllListable : Env → List Tool → Type 0
AllListable e [] = Unit
AllListable e (t ∷ ts) = IsListable e t × AllListable e ts

short_enough : (e : Env) (text : Bytes) → length text ≤ 7150 → too_long e first_page text ≡ false
unfolding too_long
short_enough e text h = ground arith

first_step : (e : Env) (t : Tool) → IsListable e t → (page_step e first_page t).0 ≡ true
unfolding page_step
first_step e t l = elim (Option-cases (tool_to_json e t)) [
  | inl n ↦ rw n (ground (arith, l.estimated))
  | inr (text, p) ↦ rw p (ground (arith, l.estimated, short_enough e text (l.printed text p)))
]

-- A page that starts with a listable tool lists it.
start_page :
    (e : Env) (t : Tool) (ts : List Tool)
    → IsListable e t
    → Paged e ts (document e t) (fill e (t ∷ ts) first_page)
unfolding fill
start_page e t ts l = elim (step_cases e first_page t) [
  | inl (more, tools, cursor) ↦ rw more (
      subst (λ js. Paged e ts js (fill e ts (page_step e first_page t).1)) tools
        (fill-Paged e ts (page_step e first_page t).1 cursor))
  | inr stop ↦ ground (arith, first_step e t l)
]

find_in-ne :
    (name : Bytes) (xs : List Tool) (u : Tool) (ys : List Tool)
    → find_in name (xs ++ u ∷ ys) ≡ none
    → strcmp_eq u.name name ≡ false
unfolding find_in
find_in-ne name [] u ys n = ground arith
find_in-ne name (x ∷ xs) u ys n = ground (arith, find_in-ne name xs u ys)

find_in-middle :
    (xs : List Tool) (u : Tool) (ys : List Tool)
    → AreDistinct (xs ++ u ∷ ys)
    → find_in u.name xs ≡ none
unfolding find_in
find_in-middle [] u ys d = refl
find_in-middle (x ∷ xs) u ys d =
    ground (
      arith,
      find_in-ne x.name xs u ys d.0,
      strcmp_eq_comm u.name x.name,
      find_in-middle xs u ys d.1,
    )

from_cursor-middle :
    (xs : List Tool) (u : Tool) (ys : List Tool)
    → find_in u.name xs ≡ none
    → from_cursor false u.name (xs ++ u ∷ ys) ≡ u ∷ ys
unfolding find_in
from_cursor-middle [] u ys n = ground (arith, strcmp_eq_refl u.name)
from_cursor-middle (x ∷ xs) u ys n = ground (arith, from_cursor-middle xs u ys)

find_in-visible :
    (inc : Bool) (name : Bytes) (ts : List Tool)
    → find_in name ts ≡ none
    → find_in name (visible inc ts) ≡ none
unfolding find_in
find_in-visible inc name [] n = refl
find_in-visible inc name (t ∷ ts) n = ground (arith, find_in-visible inc name ts)

AreDistinct-visible : (inc : Bool) (ts : List Tool) → AreDistinct ts → AreDistinct (visible inc ts)
AreDistinct-visible inc [] d = tt
AreDistinct-visible inc (t ∷ ts) d =
    elim (not inc && t.user_only)
      as (λ b. AreDistinct (if b then visible inc ts else t ∷ visible inc ts)) [
        | true ↦ AreDistinct-visible inc ts d.1
        | false ↦ (find_in-visible inc t.name ts d.0, AreDistinct-visible inc ts d.1)
      ]

AllListable-suffix : (e : Env) (xs ys : List Tool) → AllListable e (xs ++ ys) → AllListable e ys
AllListable-suffix e [] ys a = a
AllListable-suffix e (x ∷ xs) ys a = AllListable-suffix e xs ys a.1

documents-append :
    (e : Env) (xs ys : List Tool) → documents e xs ++ documents e ys ≡ documents e (xs ++ ys)
documents-append e [] ys = refl
documents-append e (x ∷ xs) ys =
    append_assoc (document e x) (documents e xs) (documents e ys)
    ∙ ap (◌++◌ (document e x)) (documents-append e xs ys)

module _ (e : Env) (s : Server) (inc : Bool) where
  abbrev V : List Tool
  V = visible inc (contents s.tools)

  -- The page with what follows it.
  abbrev followed : Page → List Json × Bool → List Json × Bool
  followed page rest =
      if is_empty page.next_cursor then (page.tools, true) else (page.tools ++ rest.0, rest.1)

  page_is :
      (cursor : Bytes) (due : List Tool)
      → from_cursor (is_empty cursor) cursor V ≡ due
      → tools_page e s cursor inc ≡ fill e due first_page
  unfolding tools_page
  page_is cursor due d =
      page_loop-fill e cursor inc (is_empty cursor) (contents s.tools) first_page
      ∙ ap (λ ts. fill e ts first_page) d

  -- A page that lists `t` and more, when the rest of the walk lists what is left out.
  turn_page :
      (t : Tool) (ts : List Tool) (page : Page) (rest : List Json × Bool)
      → Paged e ts (document e t) page
      → ((listed : List Tool) (u : Tool) (left : List Tool)
          → ts ≡ listed ++ u ∷ left
          → page.next_cursor ≡ cursor_of u
          → (is_empty page.next_cursor ≡ false) × (rest ≡ (documents e (u ∷ left), true)))
      → followed page rest ≡ (documents e (t ∷ ts), true)
  turn_page t ts page rest (all_listed tools last) ih = rw (last, tools) refl
  turn_page t ts page rest (left_out listed u left split tools next) ih =
      let (more, go_on) = ih listed u left split next in
      rw (more, go_on, tools)
        (ap (λ (js : List Json). (js, true))
          (append_assoc (document e t) (documents e listed) (documents e (u ∷ left))
            ∙ ap (◌++◌ (document e t))
                (documents-append e listed (u ∷ left) ∙ ap (documents e) (sym split))))

  cursor_is : (u : Tool) → IsListable e u → cursor_of u ≡ u.name
  cursor_is u l = take_all 63 u.name l.short

  walk-due :
      (n : ℕ) (cursor : Bytes) (done due : List Tool)
      → V ≡ done ++ due
      → from_cursor (is_empty cursor) cursor V ≡ due
      → AreDistinct V
      → AllListable e due
      → length due ≤ n
      → walk e s inc (suc n) cursor ≡ (documents e due, true)
  unfolding walk
  walk-due n cursor done [] v c d a b = rw (page_is cursor [] c) (unfold fill in refl)
  walk-due zero cursor done (t ∷ ts) v c d a b = absurd (omega arith)
  walk-due (suc n) cursor done (t ∷ ts) v c d a b = rw (page_is cursor (t ∷ ts) c) (
      turn_page t ts (fill e (t ∷ ts) first_page) _ (start_page e t ts a.0)
        (λ listed u left split next.
          let l : IsListable e u =
            (AllListable-suffix e listed (u ∷ left) (subst (AllListable e) split a.1)).0 in
          let at : (fill e (t ∷ ts) first_page).next_cursor ≡ u.name = next ∙ cursor_is u l in
          let whole : V ≡ (done ++ t ∷ listed) ++ u ∷ left =
            v ∙ ap (λ us. done ++ t ∷ us) split ∙ sym (append_assoc done (t ∷ listed) (u ∷ left)) in
          (
            ap is_empty at ∙ l.named,
            walk-due n _ (done ++ t ∷ listed) (u ∷ left) whole
                (subst (λ name. from_cursor (is_empty name) name V ≡ u ∷ left) (sym at)
                  (subst (λ b. from_cursor b u.name V ≡ u ∷ left) (sym l.named)
                    (ap (from_cursor false u.name) whole
                      ∙ from_cursor-middle (done ++ t ∷ listed) u left (
                          find_in-middle (done ++ t ∷ listed) u left (subst AreDistinct whole d)))))
                d (AllListable-suffix e listed (u ∷ left) (subst (AllListable e) split a.1))
                (omega (arith, ap length split, length-append listed (u ∷ left))),
          )))

-- On a server whose table agrees with its list, if each visible tool has a name of 1 to 63 bytes,
-- an estimate of at most 7950 and a printed text of at most 7150, then a client that starts
-- without a cursor and follows `nextCursor` has the documents of all visible tools, each once and
-- in order, and reaches the last page, after at most one page more than there are tools.
pub walk-documents :
    (e : Env) (s : Server) (include_user_tools : Bool)
    → IsConsistent s
    → AllListable e (visible include_user_tools (contents s.tools))
    → walk e s include_user_tools (suc (length (visible include_user_tools (contents s.tools)))) []
      ≡ (documents e (visible include_user_tools (contents s.tools)), true)
walk-documents e s inc c a =
    walk-due e s inc (length (visible inc (contents s.tools))) [] []
      (visible inc (contents s.tools)) refl refl
      (AreDistinct-visible inc (contents s.tools) c.distinct) a (omega arith)
