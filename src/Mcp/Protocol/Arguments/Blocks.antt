-- ===== src/Mcp/Protocol/Arguments/Blocks.antt =====
-- The blocks of a call's arguments (`mcp_server_parse_arguments`).
use mlink_device.Prelude.{
  ℕ, zero, suc, ◌≡◌, refl, ◌⊎◌, inl, inr, false, not, Option, none, some, List, [], ◌∷◌, arith,
  if◌then◌else◌, Bool-cases,
}
use mlink_device.Memory.{Heap}
use mlink_device.DynList.{slots}
use mlink_device.DynList.Contents.{collect, contents}
use mlink_device.DynList.Add.{Balanced, block}
use mlink_device.DynList.Free.{total}
use mlink_device.DynList.Clone.{Pointwise}
use mlink_device.Json.{Json, Env}
use mlink_device.Mcp.Property.{Property, copy_from_json}
use mlink_device.Mcp.Property.Copy.{Copied, owned}
use mlink_device.Mcp.Property.Blocks.{IsTidy, Copied-IsTidy, copy_from_json-Carried}
use mlink_device.Mcp.PropertyList.{PropertyList, sizeof_property}
use mlink_device.Mcp.PropertyList as PropertyList
use mlink_device.Mcp.PropertyList.Add.{kept}
use mlink_device.Mcp.PropertyList.Clone.{clone_cases}
use mlink_device.Mcp.Tool.{Tool}
use mlink_device.Mcp.Calling.{
  parse_arguments, Verdict, argument, argument_round, arguments_loop, put_back, clean,
}
use mlink_device.Mcp.Protocol.Arguments.{slots-put_back}
use mlink_device.Mcp.Protocol.Calls.{IsSized}

abbrev pub AllTidy : List Property → Type 0
AllTidy [] = Unit
AllTidy (p ∷ ps) = IsTidy p × AllTidy ps

copies-AllTidy :
    (ps qs : List Property) → (qs ≡ []) ⊎ Pointwise Copied ps qs → AllTidy ps → AllTidy qs
copies-AllTidy ps [] c t = tt
copies-AllTidy ps (q ∷ qs) (inl e) t = cc e
copies-AllTidy [] (q ∷ qs) (inr c) t = absurd c
copies-AllTidy (p ∷ ps) (q ∷ qs) (inr c) t =
    (Copied-IsTidy p q c.0 t.0, copies-AllTidy ps qs (inr c.1) t.1)

module _ (e : Env) (arguments : Option Json) where
  abbrev Loop :
      ℕ → List (Option Property) → Heap → (List (Option Property) × Verdict) × Heap → Type 0
  Loop n xs h r = Balanced h (total owned (collect n xs)) r.1 (total owned (collect n r.0.0))

  round-Loop :
      (n : ℕ) (xs : List (Option Property)) (v : Verdict) (p : Property) (o : Option Json)
      (h : Heap)
      → IsTidy p
      → ((w : Verdict) (h' : Heap) → Loop n xs h' (arguments_loop e arguments n xs w h'))
      → Loop (suc n) (some p ∷ xs) h (argument_round e p v xs (arguments_loop e arguments n xs) o h)
  round-Loop n xs v p none h tidy ih = omega (
    arith,
    ih (if not p.has_default then (record { ok = false; error_property = p.name }) else v) h,
  )
  round-Loop n xs v p (some j) h tidy ih =
      let c = copy_from_json-Carried e p j h tidy in
      elim (Bool-cases (copy_from_json e p j h).0.0) [
        | inl b ↦ rw b (omega (arith, c, ih v (copy_from_json e p j h).1))
        | inr b ↦ rw b (omega (arith, c))
      ]

  arguments_loop-Loop :
      (n : ℕ) (xs : List (Option Property)) (v : Verdict) (h : Heap)
      → AllTidy (collect n xs)
      → Loop n xs h (arguments_loop e arguments n xs v h)
  unfolding arguments_loop
  arguments_loop-Loop zero xs v h t = omega arith
  arguments_loop-Loop (suc n) [] v h t = omega arith
  arguments_loop-Loop (suc n) (none ∷ xs) v h t = arguments_loop-Loop n xs v h t
  arguments_loop-Loop (suc n) (some p ∷ xs) v h t =
      round-Loop n xs v p (argument e arguments p.name) h t.0
        (λ w h'. arguments_loop-Loop n xs w h' t.1)

  put_back-block :
      (items : Option (List (Option Property))) (xs : List (Option Property))
      → block (put_back items xs) ≡ block items
  put_back-block none xs = refl
  put_back-block (some ys) xs = refl

  pub parse_arguments-Balanced :
      (tool : Tool) (h : Heap)
      → IsSized tool
      → AllTidy (contents tool.properties)
      → Balanced h 0
          (parse_arguments e tool arguments h).1
          (kept (parse_arguments e tool arguments h).0.0)
  unfolding parse_arguments
  parse_arguments-Balanced tool h z t =
      let cloned = clone_cases tool.properties h z.valid z.sized z.small in
      let list = (PropertyList.clone tool.properties h).0 in
      let h' = (PropertyList.clone tool.properties h).1 in
      rw
        (
          slots-put_back e arguments list.items list.count h' (cloned.1).filled,
          put_back-block list.items
              (arguments_loop e arguments list.count (slots list.items) clean h').0.0,
        )
        (omega (
          arith,
          cloned.2,
          arguments_loop-Loop list.count (slots list.items) clean h'
              (copies-AllTidy _ _ cloned.0.0 t),
        ))
