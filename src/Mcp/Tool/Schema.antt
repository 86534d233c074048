-- ===== src/Mcp/Tool/Schema.antt =====
-- What the description of a tool says of its properties: `mcp_tool_to_json` of core/mcp/mcp_tool.c.
use mathlib.Core.List.{append_assoc, append-nil}
use mlink_device.Prelude.{
  ◌≡◌, refl, sym, ap, ◌∙◌, ◌⊎◌, inl, inr, Bool, true, false, not, Option, none, some, List, [], ◌∷◌,
  ◌++◌, if◌then◌else◌, Option-cases, Bool-cases,
}
use mlink_device.Prelude.Bytes.{Bytes}
use mlink_device.DynList.Contents.{contents}
use mlink_device.Json.{Json, str, Env}
use mlink_device.Mcp.Property.{Property, property_document, property_to_json, append_json, add_item}
use mlink_device.Mcp.Tool.{Tool, item_if, names, schema_loop, tool_document, tool_to_json}

-- The names of the properties without a default, in order, and none where there is no such property.
abbrev pub required_of : List Property → Option (List Json)
required_of [] = none
required_of (p ∷ ps) =
    if p.has_default then required_of ps else some (item_if p.name ++ names (required_of ps))

-- Whether some property has no default, and the names of those, in order.
abbrev pub any_required : List Property → Bool
any_required [] = false
any_required (p ∷ ps) = if p.has_default then any_required ps else true

abbrev pub named_ahead : Option Bytes → List Json → List Json
named_ahead none rest = rest
named_ahead (some name) rest = str name ∷ rest

abbrev pub required_names : List Property → List Json
required_names [] = []
required_names (p ∷ ps) =
    if p.has_default then required_names ps else named_ahead p.name (required_names ps)

abbrev pub required_list : List Property → Option (List Json)
required_list ps = if any_required ps then some (required_names ps) else none

item_ahead : (name : Option Bytes) (rest : List Json) → item_if name ++ rest ≡ named_ahead name rest
item_ahead none rest = refl
item_ahead (some name) rest = refl

names_of : (ps : List Property) → names (required_of ps) ≡ required_names ps
names_of [] = refl
names_of (p ∷ ps) = elim (Bool-cases p.has_default) [
  | inl d ↦ rw d (names_of ps)
  | inr d ↦ rw d (rw (names_of ps) (item_ahead p.name (required_names ps)))
]

required_of_lem : (ps : List Property) → required_of ps ≡ required_list ps
required_of_lem [] = refl
required_of_lem (p ∷ ps) = elim (Bool-cases p.has_default) [
  | inl d ↦ rw d (required_of_lem ps)
  | inr d ↦ rw d (
      ap (λ (xs : List Json). some xs)
        (ap (λ xs. item_if p.name ++ xs) (names_of ps) ∙ item_ahead p.name (required_names ps)))
]

-- The second array behind the first one.
abbrev join : Option (List Json) → Option (List Json) → Option (List Json)
join required none = required
join required (some more) = some (names required ++ more)

join-none : (more : Option (List Json)) → join none more ≡ more
join-none none = refl
join-none (some more) = refl

join-step :
    (required : Option (List Json)) (one : List Json) (more : Option (List Json))
    → join (some (names required ++ one)) more ≡ join required (some (one ++ names more))
join-step required one none =
    ap (λ (xs : List Json). some (names required ++ xs)) (sym (append-nil one))
join-step required one (some more) =
    ap (λ (xs : List Json). some xs) (append_assoc (names required) one more)

module _ (e : Env) where
  -- The document of a property, once it is printed and parsed.
  pub record Reads (p : Property) (json : Json) : Type 0 where
    pub text : Bytes
    pub printed : e.print (property_document p) ≡ some text
    pub parsed : e.parse text ≡ some json

  -- Each property that has a name is an entry under it.
  pub data Described : List Property → List (Bytes × Json) → Type 0 where
    described : Described [] []
    named :
        {p : Property} {ps : List Property} {entries : List (Bytes × Json)} (key : Bytes)
        (json : Json)
        → p.name ≡ some key
        → Reads p json
        → Described ps entries
        → Described (p ∷ ps) ((key, json) ∷ entries)
    nameless :
        {p : Property} {ps : List Property} {entries : List (Bytes × Json)} (json : Json)
        → p.name ≡ none
        → Reads p json
        → Described ps entries
        → Described (p ∷ ps) entries

  -- A property among these that does not print, or whose text does not parse.
  pub data Unreadable : List Property → Type 0 where
    here :
        {p : Property} {ps : List Property} → ((json : Json) → ¬ Reads p json) → Unreadable (p ∷ ps)
    later : {p : Property} {ps : List Property} → Unreadable ps → Unreadable (p ∷ ps)

  abbrev Looped :
      List Property
      → List (Bytes × Json)
      → Option (List Json)
      → Option (List (Bytes × Json) × Option (List Json))
      → Type 0
  Looped ps entries required r =
      ((more : List (Bytes × Json)) × Described ps more
        × (r ≡ some (entries ++ more, join required (required_of ps))))
      ⊎ (Unreadable ps × (r ≡ none))

  read_cases :
      (p : Property)
      → ((json : Json) × Reads p json
          × ((entries : List (Bytes × Json))
              → append_json e entries p ≡ some (add_item entries p.name json)))
        ⊎ (((json : Json) → ¬ Reads p json)
            × ((entries : List (Bytes × Json)) → append_json e entries p ≡ none))
  unfolding append_json property_to_json
  read_cases p = elim (Option-cases (e.print (property_document p))) [
    | inl n ↦ inr (λ json r. cc (n, r.printed), λ entries. rw (n, append_json) refl)
    | inr (text, q) ↦ elim (Option-cases (e.parse text)) [
      | inl n ↦
          inr (λ json r. cc (n, q, r.printed, r.parsed), λ entries. rw (q, append_json) (rw n refl))
      | inr (json, k) ↦ inl (
        json,
        record { text = text; printed = q; parsed = k },
        λ entries. rw (q, append_json) (rw k refl),
      )
    ]
  ]

  add_item_lem :
      (p : Property) (ps : List Property) (json : Json) (entries more : List (Bytes × Json))
      (name : Option Bytes)
      → p.name ≡ name
      → Reads p json
      → Described ps more
      → (more' : List (Bytes × Json)) × Described (p ∷ ps) more'
        × (add_item entries name json ++ more ≡ entries ++ more')
  add_item_lem p ps json entries more none e r d = (more, nameless json e r d, refl)
  add_item_lem p ps json entries more (some key) e r d =
      ((key, json) ∷ more, named key json e r d, append_assoc entries ((key, json) ∷ []) more)

  required_lem :
      (p : Property) (ps : List Property) (required : Option (List Json))
      → join
          (if not p.has_default then some (names required ++ item_if p.name) else required)
          (required_of ps)
        ≡ join required (required_of (p ∷ ps))
  required_lem p ps required = elim (Bool-cases p.has_default) [
    | inl d ↦ rw d refl
    | inr d ↦ rw d (join-step required (item_if p.name) (required_of ps))
  ]

  loop-Looped :
      (ps : List Property) (entries : List (Bytes × Json)) (required : Option (List Json))
      → Looped ps entries required (schema_loop e ps entries required)
  unfolding schema_loop
  loop-Looped [] entries required = inl ([], described, ap (λ r. some r) (cc (append-nil entries)))
  loop-Looped (p ∷ ps) entries required =
      let required' =
        if not p.has_default then some (names required ++ item_if p.name) else required in
      elim (read_cases p) [
        | inr (no_document, fails) ↦ inr (here no_document, rw (fails entries, schema_loop) refl)
        | inl (json, r, adds) ↦ elim (loop-Looped ps (add_item entries p.name json) required') [
          | inr (bad, eq) ↦ inr (later bad, rw (adds entries, schema_loop) eq)
          | inl (more, d, eq) ↦
              let added = add_item_lem p ps json entries more p.name refl r d in
              inl (
                added.0,
                added.1,
                rw (adds entries, schema_loop)
                    (eq ∙ ap (λ r. some r) (cc (added.2, required_lem p ps required))),
              )
        ]
      ]

  -- Where each property of a tool prints and its text parses back, the description of the tool is
  -- the print of a document that has these, in order and without those of properties that have no
  -- name, each under its name; it has a list `required` where some property has no default, with
  -- the names of exactly these, in order and without those that have none; where a property does
  -- not print or parse, there is no description.
  pub tool_to_json-Described :
      (tool : Tool)
      → ((entries : List (Bytes × Json)) × Described (contents tool.properties) entries
          × (tool_to_json e tool
              ≡ e.print (tool_document tool entries (required_list (contents tool.properties)))))
        ⊎ (Unreadable (contents tool.properties) × (tool_to_json e tool ≡ none))
  unfolding tool_to_json
  tool_to_json-Described tool = elim (loop-Looped (contents tool.properties) [] none) [
    | inl (entries, d, eq) ↦ inl (
      entries,
      d,
      rw (eq, tool_to_json)
          (ap (λ r. e.print (tool_document tool entries r))
            (join-none (required_of (contents tool.properties))
              ∙ required_of_lem (contents tool.properties))),
    )
    | inr (bad, eq) ↦ inr (bad, rw (eq, tool_to_json) refl)
  ]
