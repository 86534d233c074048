-- ===== src/Mcp/Protocol/Arguments.antt =====
-- The arguments of a call against the properties of its tool (`mcp_server_parse_arguments`).
pub mod Blocks
pub mod Sound
use mlink_device.Prelude.{
  ℕ, zero, suc, ◌+◌, ◌*◌, ◌<◌, ◌≡◌, ◌∙◌, refl, ◌⊎◌, inl, inr, Bool, true, false, not, Option, none,
  some, List, [], ◌∷◌, if◌then◌else◌, arith, Bool-cases,
}
use mlink_device.Prelude.Bytes.{Bytes}
use mlink_device.Memory.{Heap, pure, ◌>>=◌}
use mlink_device.DynList.{slots, size_mod}
use mlink_device.DynList.Contents.{IsValid, Filled, collect, contents}
use mlink_device.DynList.Clone.{Pointwise}
use mlink_device.Json.{Json, Env, EnvLaws}
use mlink_device.Mcp.Property.{Property, Value, string, copy_from_json}
use mlink_device.Mcp.Property.Accept.{Accepts, Outcome, with_value, copy_from_json-Outcome}
use mlink_device.Mcp.Property.Granting.{copy_from_json-KeepsGrant}
use mlink_device.Memory.Granting.{HasMemory, HasMemory-kept}
use mlink_device.Mcp.PropertyList.{PropertyList, sizeof_property}
use mlink_device.Mcp.PropertyList as PropertyList
use mlink_device.Mcp.PropertyList.Clone.{Clones, clone_cases}
use mlink_device.Mcp.PropertyList.Granting.{clone-KeepsGrant}
use mlink_device.Mcp.Tool.{Tool}
use mlink_device.Mcp.Calling.{
  parse_arguments, Verdict, argument, argument_round, arguments_loop, put_back, clean,
}

module _ (e : Env) (arguments : Option Json) where
  -- What a property of the tool becomes: it keeps its default, or takes an accepted argument.
  pub data Settled (p q : Property) : Type 0 where
    defaulted : argument e arguments p.name ≡ none → p.has_default ≡ true → q ≡ p → Settled p q
    given :
        (j : Json) (v : Value)
        → argument e arguments p.name ≡ some j
        → Accepts e p j v
        → q ≡ with_value p v
        → Settled p q

  -- What is wrong with a property: it is missing, or its argument is refused. What is accepted can
  -- be refused only as a text, by an allocator that does not grant everything.
  pub data Faulty (h₀ : Heap) (p : Property) : Type 0 where
    missing : argument e arguments p.name ≡ none → p.has_default ≡ false → Faulty h₀ p
    unfit :
        (j : Json)
        → argument e arguments p.name ≡ some j
        → ((v : Value) → Accepts e p j v → (p.type ≡ string) × ¬ HasMemory h₀)
        → Faulty h₀ p

  -- Some faulty property has the name that is blamed.
  abbrev pub Blamed : Heap → Option Bytes → List Property → Type 0
  Blamed h₀ name [] = ⊥
  Blamed h₀ name (p ∷ ps) = ((name ≡ p.name) × Faulty h₀ p) ⊎ Blamed h₀ name ps

  abbrev pub Checked : Heap → Verdict → List Property → List Property → Verdict → Type 0
  Checked h₀ v ps qs v' =
      ((v'.ok ≡ true) × (v.ok ≡ true) × Pointwise Settled ps qs)
      ⊎ ((v'.ok ≡ false)
          × (((v.ok ≡ false) × (v'.error_property ≡ v.error_property))
              ⊎ Blamed h₀ v'.error_property ps))

  settle :
      (h₀ : Heap) (v v' : Verdict) (p q : Property) (ps qs : List Property)
      → Settled p q
      → Checked h₀ v ps qs v'
      → Checked h₀ v (p ∷ ps) (q ∷ qs) v'
  settle h₀ v v' p q ps qs s (inl (t, u, w)) = inl (t, u, (s, w))
  settle h₀ v v' p q ps qs s (inr (t, inl c)) = inr (t, inl c)
  settle h₀ v v' p q ps qs s (inr (t, inr b)) = inr (t, inr (inr b))

  blame :
      (h₀ : Heap) (v v' : Verdict) (p q : Property) (ps qs : List Property)
      → Faulty h₀ p
      → Checked h₀ (record { ok = false; error_property = p.name }) ps qs v'
      → Checked h₀ v (p ∷ ps) (q ∷ qs) v'
  blame h₀ v v' p q ps qs f (inl (t, u, w)) = cc u
  blame h₀ v v' p q ps qs f (inr (t, inl (_, c))) = inr (t, inr (inl (c, f)))
  blame h₀ v v' p q ps qs f (inr (t, inr b)) = inr (t, inr (inr b))

  module _ (laws : EnvLaws e) (h₀ : Heap) where
    -- A heap whose answers are those of the heap that the call began with.
    abbrev Behind : Heap → Type 0
    Behind h = h.grant ≡ h₀.grant

    -- One round with the rounds behind it.
    abbrev Done :
        ℕ → List (Option Property) → Verdict → (List (Option Property) × Verdict) × Heap → Type 0
    Done n xs v r = Filled n r.0.0 × Checked h₀ v (collect n xs) (collect n r.0.0) r.0.1

    module _ (n : ℕ) (xs : List (Option Property)) (v : Verdict) (p : Property) (f : Filled n xs)
        (ih : (w : Verdict) (h : Heap)
          → Behind h
          → Done n xs w (arguments_loop e arguments n xs w h)) where
      taken :
          (j : Json) (before : Heap) (r : (Bool × Property) × Heap)
          → argument e arguments p.name ≡ some j
          → Behind before
          → Behind r.1
          → Outcome e p before j r.0
          → Done (suc n) (some p ∷ xs) v (
              (if r.0.0
                  then (arguments_loop e arguments n xs v >>= λ (ys, v').
                      pure (some r.0.1 ∷ ys, v'))
                  else pure (some r.0.1 ∷ xs, record { ok = false; error_property = p.name }))
                r.1)
      taken j before ((true, q), h) a g k (inl (w, acc, eq)) =
          ((ih v h k).0, settle h₀ v _ p q _ _ (given j w a acc (ground arith)) (ih v h k).1)
      taken j before ((false, q), h) a g k (inl (w, acc, eq)) = ground arith
      taken j before ((true, q), h) a g k (inr (eq, _)) = cc eq
      taken j before ((false, q), h) a g k (inr (eq, only)) = (
        f,
        inr (
          refl,
          inr (
              inl (
                refl,
                unfit j a (λ w acc. (
                  (only w acc).0,
                  λ m. cc ((only w acc).1, HasMemory-kept h₀ before g m before.next),
                )),
              )),
        ),
      )

      untaken :
          (b : Bool) (h : Heap)
          → p.has_default ≡ b
          → argument e arguments p.name ≡ none
          → Behind h
          → Done (suc n) (some p ∷ xs) v (
              (arguments_loop e arguments n xs
                    (if not b then (record { ok = false; error_property = p.name }) else v)
                  >>= λ (ys, v'). pure (some p ∷ ys, v'))
                h)
      untaken true h d a k = ((ih v h k).0, settle h₀ v _ p p _ _ (defaulted a d refl) (ih v h k).1)
      untaken false h d a k = ((ih _ h k).0, blame h₀ v _ p p _ _ (missing a d) (ih _ h k).1)

      round-Done :
          (o : Option Json) (h : Heap)
          → argument e arguments p.name ≡ o
          → Behind h
          → Done
              (suc n)
              (some p ∷ xs)
              v
              (argument_round e p v xs (arguments_loop e arguments n xs) o h)
      round-Done none h a k = untaken p.has_default h refl a k
      round-Done (some j) h a k =
          taken j h (copy_from_json e p j h) a k (copy_from_json-KeepsGrant e p j h ∙ k)
            (copy_from_json-Outcome e laws p h j)

    arguments_loop-Checked :
        (n : ℕ) (xs : List (Option Property)) (v : Verdict) (h : Heap)
        → Filled n xs
        → Behind h
        → Done n xs v (arguments_loop e arguments n xs v h)
    unfolding arguments_loop
    arguments_loop-Checked zero xs v h f k =
        (tt, elim (Bool-cases v.ok) [ inl t ↦ inl (t, t, tt) | inr t ↦ inr (t, inl (t, refl)) ])
    arguments_loop-Checked (suc n) [] v h f k = absurd f
    arguments_loop-Checked (suc n) (none ∷ xs) v h f k = absurd f
    arguments_loop-Checked (suc n) (some p ∷ xs) v h f k =
        round-Done n xs v p f (λ w h' k'. arguments_loop-Checked n xs w h' f k')
          (argument e arguments p.name) h refl k

pub slots-put_back :
    (e : Env) (arguments : Option Json) (items : Option (List (Option Property))) (n : ℕ) (h : Heap)
    → Filled n (slots items)
    → slots (put_back items (arguments_loop e arguments n (slots items) clean h).0.0)
      ≡ (arguments_loop e arguments n (slots items) clean h).0.0
unfolding arguments_loop
slots-put_back e arguments none zero h f = refl
slots-put_back e arguments none (suc n) h f = absurd f
slots-put_back e arguments (some xs) n h f = refl

of_Checked :
    (e : Env) (arguments : Option Json) (h₀ : Heap) (ps qs : List Property) (v : Verdict)
    → Checked e arguments h₀ clean ps qs v
    → ((v.ok ≡ true) × Pointwise (Settled e arguments) ps qs)
      ⊎ ((v.ok ≡ false) × Blamed e arguments h₀ v.error_property ps)
of_Checked e arguments h₀ ps qs v (inl (t, _, s)) = inl (t, s)
of_Checked e arguments h₀ ps qs v (inr (t, inl (f, _))) = cc f
of_Checked e arguments h₀ ps qs v (inr (t, inr b)) = inr (t, b)

-- For a tool whose property list is valid and small enough for `size_t`, and a cJSON whose
-- `valueint` of a number is that number: the cloned list holds a copy of each of the tool's
-- properties or none at all, and with an allocator that grants everything a copy of each with all
-- of its texts; and a call is either let through, with every property of that clone keeping its
-- default or taking an argument that it accepts, or refused, with the name of a property of it
-- whose argument is missing without a default, or is none that it accepts, or is a text, with an
-- allocator that does not grant everything.
pub parse_arguments_lem :
    (e : Env) (tool : Tool) (arguments : Option Json) (h : Heap)
    → EnvLaws e
    → IsValid tool.properties
    → tool.properties.item_size ≡ sizeof_property
    → (tool.properties.count * 4 + 12) * sizeof_property < size_mod
    → let cloned = (PropertyList.clone tool.properties h).0 in
      let ((parsed, v), _) = parse_arguments e tool arguments h in
      Clones h (contents tool.properties) (contents cloned)
      × (((v.ok ≡ true) × Pointwise (Settled e arguments) (contents cloned) (contents parsed))
          ⊎ ((v.ok ≡ false) × Blamed e arguments h v.error_property (contents cloned)))
unfolding parse_arguments
parse_arguments_lem e tool arguments h laws v z small =
    let cloned = clone_cases tool.properties h v z small in
    let list = (PropertyList.clone tool.properties h).0 in
    let h' = (PropertyList.clone tool.properties h).1 in
    (
      cloned.0,
      rw (slots-put_back e arguments list.items list.count h' (cloned.1).filled) (
          of_Checked e arguments h _ _ _
            (arguments_loop-Checked e arguments laws h list.count (slots list.items) clean h'
              (cloned.1).filled (clone-KeepsGrant tool.properties h)).1),
    )
