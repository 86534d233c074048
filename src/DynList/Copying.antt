-- ===== src/DynList/Copying.antt =====
-- `list_add` and the loop of `list_clone` (core/posix/list.c) with an allocator that grants
-- everything: for a relation in which every copy then stands to its item.
use mathlib.Core.List.{append_assoc, append-nil}
use mathlib.Core.Path.{subst}
use mlink_device.Prelude.{
  ◌+◌, ◌*◌, ◌<◌, ◌≡◌, refl, sym, ap, ◌∙◌, inl, inr, Bool, true, List, [], ◌∷◌, ◌++◌, arith, length,
  get_elem?, length-append,
}
use mlink_device.Memory.{Heap, M}
use mlink_device.Memory.Granting.{HasMemory, KeepsGrant}
use mlink_device.DynList.{DynList, slots, size_mod, init, add, clone_loop, clone}
use mlink_device.DynList.Contents.{IsValid, contents, get_refines, length-collect, init-IsValid}
use mlink_device.DynList.Add.{Fits, IsTight, Added, add_cases}
use mlink_device.DynList.Clone.{
  Pointwise, Pointwise-snoc, Pointwise-length, Fits-copy, get_elem?_middle,
}
use mlink_device.DynList.Granting.{add-granted, add-KeepsGrant}

module _ {A : Type 0} (copy : A → M A) (free_func : A → M (Unit {0})) (R : A → A → Type 0)
    (exact : (x : A) (h : Heap) → HasMemory h → R x (copy x h).0)
    (keeps : (x : A) → KeepsGrant (copy x)) where
  -- The item behind the others, and memory as before.
  pub record AddedExactly (l : DynList A) (x : A) (r : (Bool × DynList A) × Heap) : Type 0 where
    pub answer : r.0.0 ≡ true
    pub valid : IsValid r.0.1
    pub size : r.0.1.item_size ≡ l.item_size
    pub tight : IsTight l → IsTight r.0.1
    pub item : A
    pub related : R x item
    pub appended : contents r.0.1 ≡ contents l ++ item ∷ []
    pub memory : HasMemory r.1

  of_Added :
      (l : DynList A) (x : A) (h : Heap) (r : (Bool × DynList A) × Heap)
      → HasMemory r.1
      → r.0.0 ≡ true
      → Added copy l x h r
      → AddedExactly l x r
  of_Added l x h r m success (inl c) = cc (c.0, success)
  of_Added l x h r m success (inr (h₁, _, v, z, t, e, eh, _)) = record {
    answer = success;
    valid = v;
    size = z;
    tight = t;
    item = (copy x h₁).0;
    related =
        exact x h₁ (λ n. ap (λ g. g n) (sym (ap (λ (k : Heap). k.grant) eh ∙ keeps x h₁)) ∙ m n);
    appended = e;
    memory = m;
  }

  pub add_exactly :
      (l : DynList A) (x : A) (h : Heap)
      → IsValid l
      → Fits l
      → HasMemory h
      → AddedExactly l x (add copy l x h)
  add_exactly l x h v f m =
      of_Added l x h (add copy l x h)
        (λ n. ap (λ g. g n) (add-KeepsGrant copy l x (keeps x) h) ∙ m n) (add-granted copy l x h m)
        (add_cases copy l x h v f)

  module _ (src : DynList A) (valid : IsValid src) (sized : 0 < src.item_size)
      (small : (src.count * 4 + 12) * src.item_size < size_mod) where
    count_of :
        (dst : DynList A) (done todo : List A)
        → contents src ≡ done ++ todo
        → IsValid dst
        → Pointwise R done (contents dst)
        → dst.count + length todo ≡ src.count
    count_of dst done todo e v p = omega (
      arith,
      length-collect dst.count (slots dst.items) v.filled,
      length-collect src.count (slots src.items) valid.filled,
      Pointwise-length R done (contents dst) p,
      ap length e,
      length-append done todo,
    )

    clone_loop_exactly :
        (dst : DynList A) (done todo : List A) (h : Heap)
        → contents src ≡ done ++ todo
        → IsValid dst
        → IsTight dst
        → dst.item_size ≡ src.item_size
        → Pointwise R done (contents dst)
        → HasMemory h
        → Pointwise R
            (contents src)
            (contents (clone_loop copy free_func src dst (length done) (length todo) h).0.1)
    unfolding clone_loop
    clone_loop_exactly dst done [] h e v t z p m =
        subst (λ xs. Pointwise R xs (contents dst)) (sym (e ∙ append-nil done)) p
    clone_loop_exactly dst done (x ∷ todo) h e v t z p m =
        let fits =
          Fits-copy src sized small dst t z (omega (arith, count_of dst done (x ∷ todo) e v p)) in
        let a = add_exactly dst x h v fits m in
        let dst' = (add copy dst x h).0.1 in
        rw
          (
            get_refines src (length done) valid
                ∙ ap (λ xs. get_elem? xs (length done)) e
                ∙ get_elem?_middle done x todo,
            clone_loop,
          )
          (rw a.answer (
            rw (sym (length-append done (x ∷ []))) (
              clone_loop_exactly dst' (done ++ x ∷ []) todo (add copy dst x h).1
                (e ∙ sym (append_assoc done (x ∷ []) todo)) a.valid (a.tight t) (a.size ∙ z)
                (subst (Pointwise R (done ++ x ∷ [])) (sym a.appended)
                  (Pointwise-snoc R done (contents dst) x a.item p a.related))
                a.memory)))

    pub clone_exactly :
        (h : Heap)
        → HasMemory h
        → Pointwise R (contents src) (contents (clone copy free_func src h).0.1)
    unfolding clone
    clone_exactly h m =
        subst
          (λ n.
            Pointwise R (contents src)
              (contents (clone_loop copy free_func src (init A src.item_size) 0 n h).0.1))
          (length-collect src.count (slots src.items) valid.filled)
          (unfold init in
            clone_loop_exactly (init A src.item_size) [] (contents src) h refl
              (init-IsValid A src.item_size) (omega arith) refl tt m)
