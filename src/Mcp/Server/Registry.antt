-- ===== src/Mcp/Server/Registry.antt =====
-- The hash table of core/mcp/mcp_server.c against a search of the whole list of tools.
use mathlib.Core.Path.{subst}
use mlink_device.Prelude.{
  ℕ, ◌≡◌, ◌≢◌, refl, sym, ap, ◌∙◌, ◌⊎◌, inl, inr, Bool, true, false, none, some, List, [], ◌∷◌,
  ◌++◌, ◌==◌, if◌then◌else◌, arith, Option-cases,
}
use mlink_device.Prelude.Bytes.{Bytes, strcmp_eq, strcmp_eq_iff, strcmp_eq_comm}
use mlink_device.Memory.{Heap, pure, ◌>>=◌, realloc}
use mlink_device.Memory.Granting.{HasMemory, HasMemory-kept, realloc-granted}
use mlink_device.DynList.Granting.{add-granted, add-KeepsGrant}
use mlink_device.DynList.{DynList}
use mlink_device.DynList as Items
use mlink_device.DynList.Contents.{IsValid, contents}
use mlink_device.DynList.Add.{Fits, Added, add_cases}
use mlink_device.Mcp.Tool.{Tool}
use mlink_device.Mcp.Server.{
  Server, tool_name_hash, find_in, find_tool_by_hash, update, bucket_block, add_tool_to_hash,
  add_tool,
}

-- The tools of one hash, in the order of the list.
abbrev pub bucket_of : ℕ → List Tool → List Tool
bucket_of hash [] = []
bucket_of hash (t ∷ ts) =
    if tool_name_hash t.name == hash then t ∷ bucket_of hash ts else bucket_of hash ts

bucket_of-append :
    (hash : ℕ) (ts : List Tool) (t : Tool)
    → bucket_of hash (ts ++ t ∷ [])
      ≡ (if tool_name_hash t.name == hash then bucket_of hash ts ++ t ∷ [] else bucket_of hash ts)
bucket_of-append hash [] t = ground arith
bucket_of-append hash (u ∷ ts) t = ground (arith, bucket_of-append hash ts t)

-- No name occurs twice.
abbrev pub AreDistinct : List Tool → Type 0
AreDistinct [] = Unit
AreDistinct (t ∷ ts) = (find_in t.name ts ≡ none) × AreDistinct ts

-- The table holds every tool of the list, in its bucket, and the names differ.
pub record IsConsistent (s : Server) : Type 0 where
  pub listed : IsValid s.tools
  pub hashed : (hash : ℕ) → s.tool_hash hash ≡ bucket_of hash (contents s.tools)
  pub distinct : AreDistinct (contents s.tools)

find_in-bucket_of :
    (name : Bytes) (ts : List Tool)
    → find_in name (bucket_of (tool_name_hash name) ts) ≡ find_in name ts
unfolding find_in
find_in-bucket_of name [] = refl
find_in-bucket_of name (t ∷ ts) =
    ground (arith, strcmp_eq_iff t.name name, find_in-bucket_of name ts)

-- While the table agrees with the list, the lookup by hash finds what a search of the whole list
-- finds.
pub find_tool_by_hash-find_in :
    (s : Server) (name : Bytes)
    → IsConsistent s
    → find_tool_by_hash s name ≡ find_in name (contents s.tools)
unfolding find_tool_by_hash
find_tool_by_hash-find_in s name c =
    rw (c.hashed (tool_name_hash name)) (find_in-bucket_of name (contents s.tools))

pub find_in-append :
    (name : Bytes) (ts : List Tool) (t : Tool)
    → find_in name ts ≡ none
    → find_in name (ts ++ t ∷ []) ≡ (if strcmp_eq t.name name then some t else none)
unfolding find_in
find_in-append name [] t e = refl
find_in-append name (u ∷ ts) t e = ground (arith, find_in-append name ts t)

find_in-append_ne :
    (name : Bytes) (ts : List Tool) (t : Tool)
    → find_in name ts ≡ none
    → strcmp_eq t.name name ≡ false
    → find_in name (ts ++ t ∷ []) ≡ none
find_in-append_ne name ts t e n = find_in-append name ts t e ∙ rw n refl

pub find_in-head :
    (name : Bytes) (t : Tool) (ts : List Tool)
    → find_in name (t ∷ ts) ≡ none
    → (strcmp_eq t.name name ≡ false) × (find_in name ts ≡ none)
unfolding find_in
find_in-head name t ts e = ground arith

pub AreDistinct-append :
    (ts : List Tool) (t : Tool)
    → AreDistinct ts
    → find_in t.name ts ≡ none
    → AreDistinct (ts ++ t ∷ [])
AreDistinct-append [] t d e = unfold find_in in (refl, tt)
AreDistinct-append (u ∷ ts) t d e = (
  find_in-append_ne u.name ts t d.0 (strcmp_eq_comm t.name u.name ∙ (find_in-head t.name u ts e).0),
  AreDistinct-append ts t d.1 (find_in-head t.name u ts e).1,
)

-- Registered: in the list, and in the table too unless its bucket could not grow, at an allocator
-- that does not grant everything. Then no lookup finds it.
abbrev pub Registered : Heap → Server → Tool → Server → Type 0
Registered h s t s' =
    (contents s'.tools ≡ contents s.tools ++ t ∷ [])
    × (IsConsistent s'
        ⊎ ((s'.tool_hash ≡ s.tool_hash) × (find_tool_by_hash s' t.name ≡ none) × ¬ HasMemory h))

add_tool_to_hash_cases :
    (s : Server) (t : Tool) (h : Heap)
    → (((add_tool_to_hash s t h).0.1 ≡ s)
        × ((realloc (bucket_block (s.tool_hash (tool_name_hash t.name))) h).0 ≡ false))
      ⊎ ((add_tool_to_hash s t h).0.1 ≡ record s {
        tool_hash =
            update s.tool_hash
              (tool_name_hash t.name)
              (s.tool_hash (tool_name_hash t.name) ++ t ∷ []);
      })
unfolding add_tool_to_hash
add_tool_to_hash_cases s t h = ground arith

pub hashed_more :
    (f : ℕ → List Tool) (ts : List Tool) (t : Tool)
    → ((hash : ℕ) → f hash ≡ bucket_of hash ts)
    → (hash : ℕ)
    → update f (tool_name_hash t.name) (f (tool_name_hash t.name) ++ t ∷ []) hash
      ≡ bucket_of hash (ts ++ t ∷ [])
hashed_more f ts t e hash =
    ground (arith, e hash, e (tool_name_hash t.name), bucket_of-append hash ts t)

module _ (s : Server) (t : Tool) (c : IsConsistent s)
    (fresh : find_in t.name (contents s.tools) ≡ none) where
  -- Behind the append: the bucket, or the table as it was.
  hashed_cases :
      (h : Heap) (l : DynList Tool) (h' : Heap)
      → IsValid l
      → contents l ≡ contents s.tools ++ t ∷ []
      → h'.grant ≡ h.grant
      → Registered h s t (add_tool_to_hash (record s { tools = l }) t h').0.1
  hashed_cases h l h' v e g = elim (add_tool_to_hash_cases (record s { tools = l }) t h') [
    | inl (same, full) ↦ subst (Registered h s t) (sym same) (
      e,
      inr (
        refl,
        unfold find_tool_by_hash in
            (ap (find_in t.name) (c.hashed (tool_name_hash t.name))
              ∙ find_in-bucket_of t.name (contents s.tools)
              ∙ fresh),
        λ m. cc (full, realloc-granted _ h' (HasMemory-kept h h' g m)),
      ),
    )
    | inr grown ↦ subst (Registered h s t) (sym grown) (
      e,
      inl (record {
        listed = v;
        hashed = λ hash. rw e (hashed_more s.tool_hash (contents s.tools) t c.hashed hash);
        distinct = rw e (AreDistinct-append (contents s.tools) t c.distinct fresh);
      }),
    )
  ]

  -- Behind the duplicate check.
  abbrev listed_next : (Bool × DynList Tool) × Heap → (Bool × Server) × Heap
  listed_next r =
      (if r.0.0
          then (add_tool_to_hash (record s { tools = r.0.1 }) t >>= λ q. pure (true, q.1))
          else pure (false, s))
        r.1

  listed_cases :
      (h : Heap) (r : (Bool × DynList Tool) × Heap)
      → (HasMemory h → r.0.0 ≡ true)
      → r.1.grant ≡ h.grant
      → Added Items.memcpy s.tools t h r
      → (((listed_next r).0 ≡ (false, s)) × ¬ HasMemory h)
        ⊎ (((listed_next r).0.0 ≡ true) × Registered h s t (listed_next r).0.1)
  listed_cases h ((false, l), h') granted g a = inl (refl, λ m. cc (granted m))
  listed_cases h ((true, l), h') granted g (inl (e, _, _)) = cc e
  listed_cases h ((true, l), h') granted g (inr (h₁, _, v, _, _, e, _, _)) =
      inr (refl, hashed_cases h l h' v e g)

-- Adding a tool to a server whose table agrees with its list, where the list can still double
-- within `size_t`: a name that is there already is refused and nothing changes; a new one is the
-- last of the list behind the call, with the answer true, and the table agrees with the list
-- again. Only with an allocator that does not grant everything can a new tool be refused instead,
-- with the server as it was, or be in the list alone: then the answer is still true, the table is
-- as it was, and no lookup finds the tool.
pub add_tool_cases :
    (s : Server) (t : Tool) (h : Heap)
    → IsConsistent s
    → Fits s.tools
    → let r = add_tool s t h in
      ((find_in t.name (contents s.tools) ≢ none) × (r ≡ ((false, s), h)))
      ⊎ ((find_in t.name (contents s.tools) ≡ none)
          × (((r.0 ≡ (false, s)) × ¬ HasMemory h) ⊎ ((r.0.0 ≡ true) × Registered h s t r.0.1)))
unfolding add_tool
add_tool_cases s t h c f = elim (Option-cases (find_in t.name (contents s.tools))) [
  | inr (u, e) ↦ inl ((λ n. ground arith), rw (find_tool_by_hash-find_in s t.name c, e) refl)
  | inl e ↦ inr (
    e,
    rw (find_tool_by_hash-find_in s t.name c, e)
        (listed_cases s t c e h (Items.add Items.memcpy s.tools t h)
          (add-granted Items.memcpy s.tools t h)
          (add-KeepsGrant Items.memcpy s.tools t (λ h'. refl) h)
          (add_cases Items.memcpy s.tools t h c.listed f)),
  )
]
