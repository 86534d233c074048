-- ===== src/DynList/Contents.antt =====
-- The items that a list holds, and the invariant of `struct list` in core/posix/list.c.
use mlink_device.Prelude.{
  ℕ, zero, suc, ◌≤◌, ◌<◌, ◌≡◌, refl, ap, Option, none, some, List, [], ◌∷◌, ◌++◌, arith, length,
  set, get_elem?,
}
use mlink_device.DynList.{DynList, slots, resize, read, get, init}

module _ {A : Type 0} where
  abbrev pub collect : ℕ → List (Option A) → List A
  collect zero xs = []
  collect (suc n) [] = []
  collect (suc n) (none ∷ xs) = collect n xs
  collect (suc n) (some x ∷ xs) = x ∷ collect n xs

  -- The first `n` slots were written to.
  abbrev pub Filled : ℕ → List (Option A) → Type 0
  Filled zero xs = Unit
  Filled (suc n) [] = ⊥
  Filled (suc n) (none ∷ xs) = ⊥
  Filled (suc n) (some x ∷ xs) = Filled n xs

  abbrev pub contents : DynList A → List A
  contents l = collect l.count (slots l.items)

  pub record IsValid (l : DynList A) : Type 0 where
    pub within : l.count ≤ l.capacity
    pub room : l.capacity ≤ length (slots l.items)
    pub filled : Filled l.count (slots l.items)

  pub length-resize : (n : ℕ) (xs : List (Option A)) → length (resize n xs) ≡ n
  length-resize zero xs = refl
  length-resize (suc n) [] = ap suc (length-resize n [])
  length-resize (suc n) (x ∷ xs) = ap suc (length-resize n xs)

  pub Filled-resize :
      (c n : ℕ) (xs : List (Option A)) → c ≤ n → Filled c xs → Filled c (resize n xs)
  Filled-resize zero n xs h f = tt
  Filled-resize (suc c) zero xs h f = absurd (omega arith)
  Filled-resize (suc c) (suc n) [] h f = f
  Filled-resize (suc c) (suc n) (none ∷ xs) h f = f
  Filled-resize (suc c) (suc n) (some x ∷ xs) h f = Filled-resize c n xs (omega arith) f

  pub collect-resize :
      (c n : ℕ) (xs : List (Option A))
      → c ≤ n
      → Filled c xs
      → collect c (resize n xs) ≡ collect c xs
  collect-resize zero n xs h f = refl
  collect-resize (suc c) zero xs h f = absurd (omega arith)
  collect-resize (suc c) (suc n) [] h f = absurd f
  collect-resize (suc c) (suc n) (none ∷ xs) h f = absurd f
  collect-resize (suc c) (suc n) (some x ∷ xs) h f =
      ap (◌∷◌ x) (collect-resize c n xs (omega arith) f)

  pub Filled-set :
      (c : ℕ) (xs : List (Option A)) (x : A)
      → c < length xs
      → Filled c xs
      → Filled (suc c) (set xs c (some x))
  Filled-set zero [] x h f = absurd (omega arith)
  Filled-set zero (y ∷ xs) x h f = tt
  Filled-set (suc c) [] x h f = f
  Filled-set (suc c) (none ∷ xs) x h f = f
  Filled-set (suc c) (some y ∷ xs) x h f = Filled-set c xs x (omega arith) f

  pub collect-set :
      (c : ℕ) (xs : List (Option A)) (x : A)
      → c < length xs
      → Filled c xs
      → collect (suc c) (set xs c (some x)) ≡ collect c xs ++ x ∷ []
  collect-set zero [] x h f = absurd (omega arith)
  collect-set zero (y ∷ xs) x h f = refl
  collect-set (suc c) [] x h f = absurd f
  collect-set (suc c) (none ∷ xs) x h f = absurd f
  collect-set (suc c) (some y ∷ xs) x h f = ap (◌∷◌ y) (collect-set c xs x (omega arith) f)

  pub length-collect : (c : ℕ) (xs : List (Option A)) → Filled c xs → length (collect c xs) ≡ c
  length-collect zero xs f = refl
  length-collect (suc c) [] f = absurd f
  length-collect (suc c) (none ∷ xs) f = absurd f
  length-collect (suc c) (some x ∷ xs) f = ap suc (length-collect c xs f)

  read-collect :
      (c i : ℕ) (xs : List (Option A))
      → Filled c xs
      → i < c
      → read xs i ≡ get_elem? (collect c xs) i
  read-collect zero i xs f h = absurd (omega arith)
  read-collect (suc c) i [] f h = absurd f
  read-collect (suc c) i (none ∷ xs) f h = absurd f
  read-collect (suc c) zero (some x ∷ xs) f h = refl
  read-collect (suc c) (suc i) (some x ∷ xs) f h = read-collect c i xs f (omega arith)

  get_elem?_past : (i : ℕ) (xs : List A) → length xs ≤ i → get_elem? xs i ≡ none
  get_elem?_past i [] h = refl
  get_elem?_past zero (x ∷ xs) h = absurd (omega arith)
  get_elem?_past (suc i) (x ∷ xs) h = get_elem?_past i xs (omega arith)

  -- `list_get` of a valid list is the item at that index of its contents, and NULL past the end.
  pub get_refines : (l : DynList A) (i : ℕ) → IsValid l → get l i ≡ get_elem? (contents l) i
  unfolding get
  get_refines l i v = ground (
    arith,
    read-collect l.count i (slots l.items) v.filled,
    get_elem?_past i (contents l),
    length-collect l.count (slots l.items) v.filled,
  )

pub init-IsValid : (A : Type 0) (item_size : ℕ) → IsValid (init A item_size)
unfolding init
init-IsValid A item_size = omega arith
