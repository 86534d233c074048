-- ===== src/Mcp/PropertyList/Find.antt =====
-- `mcp_property_list_get` of core/mcp/mcp_property.c against a search of the list's contents.
use mathlib.Core.List.{append_assoc}
use mlink_device.Prelude.{
  ◌≡◌, refl, sym, ap, ◌∙◌, Option, none, some, List, [], ◌∷◌, ◌++◌, if◌then◌else◌, length,
  get_elem?, length-append,
}
use mathlib.Core.Path.{subst}
use mlink_device.Prelude.Bytes.{Bytes}
use mlink_device.DynList.{slots, get}
use mlink_device.DynList.Contents.{IsValid, contents, get_refines, length-collect}
use mlink_device.DynList.Clone.{get_elem?_middle}
use mlink_device.Mcp.Property.{Property}
use mlink_device.Mcp.PropertyList.{PropertyList, is_named, find_loop}
use mlink_device.Mcp.PropertyList as PropertyList

-- The first property of that name.
unfoldable pub first_named : Bytes → List Property → Option Property
first_named name [] = none
first_named name (p ∷ ps) = if is_named name p then some p else first_named name ps

find_loop-first_named :
    (list : PropertyList) (name : Bytes) (done todo : List Property)
    → IsValid list
    → contents list ≡ done ++ todo
    → find_loop list name (length done) (length todo) ≡ first_named name todo
unfolding find_loop first_named
find_loop-first_named list name done [] v e = refl
find_loop-first_named list name done (p ∷ ps) v e =
    rw (here, find_loop)
      (ap (λ (o : Option Property). if is_named name p then some p else o)
        (ap (λ n. find_loop list name n (length ps)) (sym (length-append done (p ∷ [])))
          ∙ find_loop-first_named list name (done ++ p ∷ []) ps v
              (e ∙ sym (append_assoc done (p ∷ []) ps))))
  where
    here : get list (length done) ≡ some p
    here =
        get_refines list (length done) v
        ∙ ap (λ xs. get_elem? xs (length done)) e
        ∙ get_elem?_middle done p ps

-- A valid list is searched for the first property of the name, and NULL names none.
pub get-first_named :
    (list : PropertyList) (name : Bytes)
    → IsValid list
    → (PropertyList.get list (some name) ≡ first_named name (contents list))
      × (PropertyList.get list none ≡ none)
unfolding PropertyList.get
get-first_named list name v = (
  subst (λ n. find_loop list name 0 n ≡ first_named name (contents list))
      (length-collect list.count (slots list.items) v.filled)
      (find_loop-first_named list name [] (contents list) v refl),
  refl,
)
