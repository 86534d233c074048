-- ===== src/DynList/Clone.antt =====
-- `list_clone` of core/posix/list.c: all or nothing.
use native.Mathlib.Nat.{mul-le-mul_right}
use mathlib.Core.List.{append_assoc, append-nil}
use mathlib.Core.Path.{subst}
use mlink_device.Prelude.{
  ℕ, suc, ◌+◌, ◌*◌, ◌≤◌, ◌<◌, ◌≡◌, refl, sym, ap, ◌∙◌, ◌⊎◌, inl, inr, Bool, true, false, none, some,
  List, [], ◌∷◌, ◌++◌, arith, length, get_elem?, length-append, if◌then◌else◌,
}
use mlink_device.Memory.{Heap, M, pure, ◌>>=◌}
use mlink_device.DynList.{DynList, slots, size_mod, init, add, free, clone_loop, clone}
use mlink_device.DynList.Contents.{IsValid, contents, get_refines, length-collect, init-IsValid}
use mlink_device.DynList.Add.{block, Balanced, Fits, IsTight, Added, add_cases}
use mlink_device.DynList.Free.{total, total-append, free-Balanced}

-- The two lists are as long, and related place by place.
abbrev pub Pointwise : {A : Type 0} → (A → A → Type 0) → List A → List A → Type 0
Pointwise R [] [] = Unit
Pointwise R [] (y ∷ ys) = ⊥
Pointwise R (x ∷ xs) [] = ⊥
Pointwise R (x ∷ xs) (y ∷ ys) = R x y × Pointwise R xs ys

module _ {A : Type 0} (R : A → A → Type 0) where
  pub Pointwise-snoc :
      (xs ys : List A) (x y : A)
      → Pointwise R xs ys
      → R x y
      → Pointwise R (xs ++ x ∷ []) (ys ++ y ∷ [])
  Pointwise-snoc [] [] x y p r = (r, tt)
  Pointwise-snoc [] (b ∷ ys) x y p r = absurd p
  Pointwise-snoc (a ∷ xs) [] x y p r = absurd p
  Pointwise-snoc (a ∷ xs) (b ∷ ys) x y p r = (p.0, Pointwise-snoc xs ys x y p.1 r)

  pub Pointwise-length : (xs ys : List A) → Pointwise R xs ys → length ys ≡ length xs
  Pointwise-length [] [] p = refl
  Pointwise-length [] (b ∷ ys) p = absurd p
  Pointwise-length (a ∷ xs) [] p = absurd p
  Pointwise-length (a ∷ xs) (b ∷ ys) p = ap suc (Pointwise-length xs ys p.1)

pub get_elem?_middle :
    {A : Type 0} (xs : List A) (x : A) (ys : List A) → get_elem? (xs ++ x ∷ ys) (length xs) ≡ some x
get_elem?_middle [] x ys = refl
get_elem?_middle (a ∷ xs) x ys = get_elem?_middle xs x ys

-- A list that grew to at most the length of another fits where that one is small.
pub Fits-copy :
    {A : Type 0} (src : DynList A)
    → 0 < src.item_size
    → (src.count * 4 + 12) * src.item_size < size_mod
    → (dst : DynList A) → IsTight dst
    → dst.item_size ≡ src.item_size
    → dst.count ≤ src.count
    → Fits dst
Fits-copy src sized small dst t z c = record {
  sized = omega arith;
  small = rw z (
      grind (
        arith,
        mul-le-mul_right {m = dst.capacity * 2 + 4} {n = src.count * 4 + 12} src.item_size,
      ));
}

-- What the copy function and the free function of a list's owner do.
pub record Ownership {A : Type 0} (copy : A → M A) (free_func : A → M (Unit {0})) : Type 1 where
  pub Copied : A → A → Type 0
  pub owned : A → ℕ
  pub copied : (x : A) (h : Heap) → Copied x (copy x h).0
  pub allocated : (x : A) (h : Heap) → Balanced h 0 (copy x h).1 (owned (copy x h).0)
  pub freed : (x : A) (h : Heap) → Balanced h (owned x) (free_func x h).1 0

module _ {A : Type 0} (copy : A → M A) (free_func : A → M (Unit {0}))
    (o : Ownership copy free_func) where
  open o use {Copied, owned, copied, allocated, freed}

  -- A copy of every item in order, or nothing and no block kept.
  abbrev pub Cloned : List A → Heap → ℕ → (Bool × DynList A) × Heap → Type 0
  Cloned xs h before r =
      ((r.0.0 ≡ false)
        × (r.0.1.count ≡ 0)
        × (r.0.1.capacity ≡ 0)
        × (r.0.1.items ≡ none)
        × Balanced h before r.1 0)
      ⊎ ((r.0.0 ≡ true)
          × IsValid r.0.1
          × Pointwise Copied xs (contents r.0.1)
          × Balanced h before r.1 (block r.0.1.items + total owned (contents r.0.1)))

  -- The blocks that a list keeps.
  abbrev pub held : DynList A → ℕ
  held l = block l.items + total owned (contents l)

  Cloned-shift :
      (xs : List A) (h h₁ : Heap) (before before₁ : ℕ) (r : (Bool × DynList A) × Heap)
      → Balanced h before h₁ before₁
      → Cloned xs h₁ before₁ r
      → Cloned xs h before r
  Cloned-shift xs h h₁ before before₁ r b (inl c) = inl (c.0, c.1, c.2, c.3, omega arith)
  Cloned-shift xs h h₁ before before₁ r b (inr c) = inr (c.0, c.1, c.2, omega arith)

  module _ (src : DynList A) (valid : IsValid src) (sized : 0 < src.item_size)
      (small : (src.count * 4 + 12) * src.item_size < size_mod) where
    -- The rest of the round behind its call of `list_add`.
    abbrev after_add : ℕ → ℕ → (Bool × DynList A) × Heap → (Bool × DynList A) × Heap
    after_add index rounds r =
        (if r.0.0
            then clone_loop copy free_func src r.0.1 index rounds
            else (free free_func r.0.1 >>= λ dst. pure (false, dst)))
          r.1

    count-dst :
        (dst : DynList A) (done todo : List A)
        → contents src ≡ done ++ todo
        → IsValid dst
        → Pointwise Copied done (contents dst)
        → dst.count + length todo ≡ src.count
    count-dst dst done todo e v p = omega (
      arith,
      length-collect dst.count (slots dst.items) v.filled,
      length-collect src.count (slots src.items) valid.filled,
      Pointwise-length Copied done (contents dst) p,
      ap length e,
      length-append done todo,
    )

    -- One round, where the rounds after it do as they should.
    after_add-Cloned :
        (dst : DynList A) (done : List A) (x : A) (h : Heap) (index rounds : ℕ)
        (r : (Bool × DynList A) × Heap)
        → ((dst' : DynList A) (h' : Heap)
            → IsValid dst'
            → IsTight dst'
            → dst'.item_size ≡ src.item_size
            → Pointwise Copied (done ++ x ∷ []) (contents dst')
            → Cloned
                (contents src)
                h'
                (held dst')
                (clone_loop copy free_func src dst' index rounds h'))
        → IsTight dst
        → dst.item_size ≡ src.item_size
        → Pointwise Copied done (contents dst)
        → Added copy dst x h r
        → Cloned (contents src) h (held dst) (after_add index rounds r)
    after_add-Cloned dst done x h index rounds ((false, l'), h') ih t z p (inl c) =
        inl (refl, unfold free in refl, unfold free in refl, unfold free in refl, freed_all)
      where
        freed_all : Balanced h (held dst) (free free_func l' h').1 0
        freed_all = omega (arith, ap held c.1, free-Balanced owned free_func freed l' h', c.2)
    after_add-Cloned dst done x h index rounds ((false, l'), h') ih t z p (inr c) = cc (c.1)
    after_add-Cloned dst done x h index rounds ((true, l'), h') ih t z p (inl c) = cc (c.0)
    after_add-Cloned dst done x h index rounds ((true, l'), h') ih t z p
          (inr (h₁, _, v', z', t', e', eh, b)) =
        Cloned-shift (contents src) h h' (held dst) (held l')
          (clone_loop copy free_func src l' index rounds h') kept
          (ih l' h' v' (t' t) (z' ∙ z)
            (rw e' (Pointwise-snoc Copied done (contents dst) x (copy x h₁).0 p (copied x h₁))))
      where
        kept : Balanced h (held dst) h' (held l')
        kept =
            rw (eh, e')
              (omega
                (arith, b, allocated x h₁, total-append owned (contents dst) ((copy x h₁).0 ∷ [])))

    clone_loop-Cloned :
        (dst : DynList A) (done todo : List A) (h : Heap)
        → contents src ≡ done ++ todo
        → IsValid dst
        → IsTight dst
        → dst.item_size ≡ src.item_size
        → Pointwise Copied done (contents dst)
        → Cloned
            (contents src)
            h
            (held dst)
            (clone_loop copy free_func src dst (length done) (length todo) h)
    unfolding clone_loop
    clone_loop-Cloned dst done [] h e v t z p = inr (refl, v, rw (e ∙ append-nil done) p, refl)
    clone_loop-Cloned dst done (x ∷ todo) h e v t z p =
        rw
          (
            get_refines src (length done) valid
                ∙ ap (λ xs. get_elem? xs (length done)) e
                ∙ get_elem?_middle done x todo,
            clone_loop,
          )
          (after_add-Cloned dst done x h (length done + 1) (length todo) (add copy dst x h)
            (λ dst' h' v' t' z' p'. rw (sym (length-append done (x ∷ []))) (
              clone_loop-Cloned dst' (done ++ x ∷ []) todo h'
                (e ∙ sym (append_assoc done (x ∷ []) todo)) v' t' z' p'))
            t z p
            (add_cases copy dst x h v (
              Fits-copy src sized small dst t z
                (omega (arith, count-dst dst done (x ∷ todo) e v p)))))

    -- For a copy and a free function that balance each other, and a valid source with items of
    -- some size that is small enough for `size_t`: `list_clone` copies every item of its source
    -- in order, or fails with an empty list that keeps no block.
    pub clone-Cloned : (h : Heap) → Cloned (contents src) h 0 (clone copy free_func src h)
    unfolding clone
    clone-Cloned h =
        subst
          (λ n.
            Cloned (contents src) h 0 (clone_loop copy free_func src (init A src.item_size) 0 n h))
          (length-collect src.count (slots src.items) valid.filled)
          (unfold init in
            clone_loop-Cloned (init A src.item_size) [] (contents src) h refl
              (init-IsValid A src.item_size) (omega arith) refl tt)
