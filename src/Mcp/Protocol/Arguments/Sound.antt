-- ===== src/Mcp/Protocol/Arguments/Sound.antt =====
-- The property lists of the program (core/mcp/mcp_property.c), from their making up to the call of a
-- tool (`mcp_server_parse_arguments`).
use mlink_device.Prelude.{
  ℕ, zero, suc, inl, inr, Bool, false, not, Option, none, some, List, [], ◌∷◌, Bool-cases,
  if◌then◌else◌,
}
use mlink_device.Prelude.Int.{ℤ}
use mlink_device.Prelude.Bytes.{Bytes}
use mlink_device.Memory.{Heap}
use mlink_device.DynList.{slots}
use mlink_device.DynList.Every.{Every}
use mlink_device.Json.{Json, Env}
use mlink_device.Mcp.Property.{Property, copy_from_json}
use mlink_device.Mcp.Property.Sound.{IsSound, copy_from_json-IsSound}
use mlink_device.Mcp.PropertyList.{PropertyList, init, free, add_bool, add_int, add_string, clone}
use mlink_device.Mcp.PropertyList.Sound.{
  AllSound, init-AllSound, add_bool-AllSound, add_int-AllSound, add_string-AllSound, clone-AllSound,
  free-AllSound,
}
use mlink_device.Mcp.Tool.{Tool}
use mlink_device.Mcp.Calling.{
  parse_arguments, Verdict, argument, argument_round, arguments_loop, put_back, clean,
}

-- The lists that the program can make: empty, with a property added, cloned, or the arguments of a
-- call. The calls that fail are among these.
pub data Built : PropertyList → Type 0 where
  started : Built init
  with_bool :
      {list : PropertyList} (name : Option Bytes) (d b : Bool) (h : Heap)
      → Built list
      → Built (add_bool list name d b h).0.1
  with_int :
      {list : PropertyList} (name : Option Bytes) (d : Bool) (n : ℤ) (has_min : Bool) (lo : ℤ)
      (has_max : Bool) (hi : ℤ) (h : Heap)
      → Built list
      → Built (add_int list name d n has_min lo has_max hi h).0.1
  with_string :
      {list : PropertyList} (name text : Option Bytes) (h : Heap)
      → Built list
      → Built (add_string list name text h).0.1
  cloned : {list : PropertyList} (h : Heap) → Built list → Built (clone list h).0
  freed : {list : PropertyList} (h : Heap) → Built list → Built (free list h).0
  called :
      (e : Env) (tool : Tool) (arguments : Option Json) (h : Heap)
      → Built tool.properties
      → Built (parse_arguments e tool arguments h).0.0

module _ (e : Env) (arguments : Option Json) where
  round-Every :
      (n : ℕ) (xs : List (Option Property)) (v : Verdict) (p : Property) (o : Option Json)
      (h : Heap)
      → IsSound p
      → Every IsSound xs
      → ((w : Verdict) (h' : Heap) → Every IsSound (arguments_loop e arguments n xs w h').0.0)
      → Every IsSound (argument_round e p v xs (arguments_loop e arguments n xs) o h).0.0
  round-Every n xs v p none h s a ih =
      (s, ih (if not p.has_default then (record { ok = false; error_property = p.name }) else v) h)
  round-Every n xs v p (some j) h s a ih =
      let s' = copy_from_json-IsSound e p j h s in
      elim (Bool-cases (copy_from_json e p j h).0.0) [
        | inl b ↦ rw b (s', ih v (copy_from_json e p j h).1)
        | inr b ↦ rw b (s', a)
      ]

  arguments_loop-Every :
      (n : ℕ) (xs : List (Option Property)) (v : Verdict) (h : Heap)
      → Every IsSound xs
      → Every IsSound (arguments_loop e arguments n xs v h).0.0
  unfolding arguments_loop
  arguments_loop-Every zero xs v h a = a
  arguments_loop-Every (suc n) [] v h a = tt
  arguments_loop-Every (suc n) (none ∷ xs) v h a = arguments_loop-Every n xs v h a
  arguments_loop-Every (suc n) (some p ∷ xs) v h a =
      round-Every n xs v p (argument e arguments p.name) h a.0 a.1
        (λ w h'. arguments_loop-Every n xs w h' a.1)

put_back-Every :
    (items : Option (List (Option Property))) (xs : List (Option Property))
    → Every IsSound xs
    → Every IsSound (slots (put_back items xs))
put_back-Every none xs a = tt
put_back-Every (some old) xs a = a

parse_arguments-AllSound :
    (e : Env) (tool : Tool) (arguments : Option Json) (h : Heap)
    → AllSound tool.properties
    → AllSound (parse_arguments e tool arguments h).0.0
unfolding parse_arguments
parse_arguments-AllSound e tool arguments h a =
    let list = (clone tool.properties h).0 in
    put_back-Every list.items _ (
      arguments_loop-Every e arguments list.count (slots list.items) clean
        (clone tool.properties h).1 (clone-AllSound tool.properties h a))

-- In every property list that the program can make, from the empty one by adding properties, by
-- cloning and freeing, and as the arguments of a call, with any arguments, any cJSON and any
-- allocator: the union of each property holds the member of the property's type, and a text
-- property without a default has no text.
pub Built-AllSound : (list : PropertyList) → Built list → AllSound list
Built-AllSound _ started = init-AllSound
Built-AllSound _ (with_bool {list} name d b h t) =
    add_bool-AllSound list (Built-AllSound list t) name d b h
Built-AllSound _ (with_int {list} name d n has_min lo has_max hi h t) =
    add_int-AllSound list (Built-AllSound list t) name d n has_min lo has_max hi h
Built-AllSound _ (with_string {list} name text h t) =
    add_string-AllSound list (Built-AllSound list t) name text h
Built-AllSound _ (cloned {list} h t) = clone-AllSound list h (Built-AllSound list t)
Built-AllSound _ (freed {list} h t) = free-AllSound list h
Built-AllSound _ (called e tool arguments h t) =
    parse_arguments-AllSound e tool arguments h (Built-AllSound tool.properties t)
