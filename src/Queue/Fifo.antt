-- ===== src/Queue/Fifo.antt =====
-- core/posix/queue.c as a bounded first-in first-out list.
use mathlib.Core.Path.{subst}
use native.Mathlib.Nat.{mod-eq_of_lt, mod_self, mul-le-mul_right}
use native.Mathlib.Decide.{dec_lt}
use mlink_device.Prelude.{
  ℕ, zero, suc, ◌+◌, ◌-◌, ◌*◌, ◌%◌, ◌^◌, ◌≤◌, ◌<◌, ◌≡◌, refl, sym, ap, ◌∙◌, ◌⊎◌, inl, inr, true,
  false, some, List, [], ◌∷◌, ◌++◌, length, ◌==◌, arith, if◌then◌else◌, Bool-cases,
}
use mlink_device.Queue.{
  Queue, offset, Timeout, gives_up, Outcome, waiting, refused, returned, update, send, recv,
}

-- A slot behind i: the next one, or the first one behind the last.
abbrev pub IsNext : ℕ → ℕ → ℕ → Type 0
IsNext size i j = ((i + 1 < size) × (j ≡ i + 1)) ⊎ ((i + 1 ≡ size) × (j ≡ 0))

mod-IsNext : (size i : ℕ) → i < size → IsNext size i ((i + 1) % size)
mod-IsNext size i h = elim (Bool-cases (i + 1 == size)) [
  | inl last ↦ inr (ground arith, ap (λ n. n % size) (ground arith) ∙ mod_self size)
  | inr more ↦ inl (ground arith, mod-eq_of_lt (ground arith))
]

-- The slot n behind h.
abbrev pub IsAhead : ℕ → ℕ → ℕ → ℕ → Type 0
IsAhead size h n t = (t ≡ h + n) ⊎ (t + size ≡ h + n)

IsAhead-next :
    (size h j n t : ℕ) → IsNext size h j → t < size → IsAhead size h (suc n) t → IsAhead size j n t
IsAhead-next size h j n t (inl x) b (inl y) = inl (omega (arith, x.1, y))
IsAhead-next size h j n t (inl x) b (inr y) = inr (omega (arith, x.1, y))
IsAhead-next size h j n t (inr x) b (inl y) = absurd (omega (arith, x.0, y, b))
IsAhead-next size h j n t (inr x) b (inr y) = inl (omega (arith, x.0, x.1, y))

IsAhead-suc :
    (size h n t u : ℕ)
    → h < size
    → n < size
    → IsNext size t u
    → IsAhead size h n t
    → IsAhead size h (suc n) u
IsAhead-suc size h n t u hb nb (inl x) (inl y) = inl (omega (arith, x.1, y))
IsAhead-suc size h n t u hb nb (inl x) (inr y) = inr (omega (arith, x.1, y))
IsAhead-suc size h n t u hb nb (inr x) (inl y) = inr (omega (arith, x.0, x.1, y))
IsAhead-suc size h n t u hb nb (inr x) (inr y) = absurd (omega (arith, x.0, y, hb, nb))

IsNext-lt : (size i j : ℕ) → i < size → IsNext size i j → j < size
IsNext-lt size i j h (inl x) = omega (arith, x.0, x.1)
IsNext-lt size i j h (inr x) = omega (arith, h, x.1)

IsAhead-zero : (size head slot : ℕ) → head < size → IsAhead size head 0 slot → head ≡ slot
IsAhead-zero size head slot h (inl x) = omega (arith, x)
IsAhead-zero size head slot h (inr x) = absurd (omega (arith, h, x))

IsAhead-ne :
    (size head n slot : ℕ) → suc n < size → IsAhead size head (suc n) slot → head ≡ slot → ⊥
IsAhead-ne size head n slot m (inl x) e = omega (arith, x, e)
IsAhead-ne size head n slot m (inr x) e = omega (arith, x, m, e)

suc_is : (n : ℕ) → n + 1 ≡ suc n
suc_is n = omega arith

offset-exact :
    (item_size size slot : ℕ)
    → size * item_size < 2 ^ 32
    → slot < size
    → offset item_size slot ≡ slot * item_size
unfolding offset
offset-exact item_size size slot small s =
    mod-eq_of_lt
      (omega (arith, mul-le-mul_right {m = slot} {n = size} item_size (omega arith), small))

offset_lt : (item_size a b : ℕ) → 0 < item_size → a < b → a * item_size ≡ b * item_size → ⊥
offset_lt item_size a b w l e = grind (arith, mul-le-mul_right {m = a + 1} {n = b} item_size)

offset-injective :
    (item_size size a b : ℕ)
    → 0 < item_size
    → size * item_size < 2 ^ 32
    → a < size
    → b < size
    → offset item_size a ≡ offset item_size b
    → a ≡ b
offset-injective item_size size a b w small x y e =
    let same : a * item_size ≡ b * item_size =
      sym (offset-exact item_size size a small x) ∙ e ∙ offset-exact item_size size b small y in
    elim (dec_lt a b) [
      | yes p ↦ absurd (offset_lt item_size a b w p same)
      | no p ↦ elim (dec_lt b a) [
        | yes q ↦ absurd (offset_lt item_size b a w q (sym same))
        | no q ↦ omega arith
      ]
    ]

module _ {Item : Type 0} where
  -- The items from the slot `head` on.
  abbrev pub ring : (ℕ → Item) → ℕ → ℕ → ℕ → List Item
  ring buffer size head zero = []
  ring buffer size head (suc n) = buffer head ∷ ring buffer size ((head + 1) % size) n

  update_at :
      (buffer : ℕ → Item) (slot other : ℕ) (item : Item)
      → other ≡ slot
      → update buffer slot item other ≡ item
  update_at buffer slot other item e = ground arith

  update_else :
      (buffer : ℕ → Item) (slot other : ℕ) (item : Item)
      → (other ≡ slot → ⊥)
      → update buffer slot item other ≡ buffer other
  update_else buffer slot other item e = ground arith

  cons_cong : {x y : Item} {xs ys : List Item} → x ≡ y → xs ≡ ys → x ∷ xs ≡ y ∷ ys
  cons_cong e f = cc (e, f)

  ring-update :
      (buffer : ℕ → Item) (size head n slot : ℕ) (item : Item)
      → head < size
      → slot < size
      → n < size
      → IsAhead size head n slot
      → ring (update buffer slot item) size head (suc n) ≡ ring buffer size head n ++ item ∷ []
  ring-update buffer size head zero slot item h b m a =
      cons_cong (update_at buffer slot head item (IsAhead-zero size head slot h a)) refl
  ring-update buffer size head (suc n) slot item h b m a =
      let j = mod-IsNext size head h in
      cons_cong (update_else buffer slot head item (IsAhead-ne size head n slot m a)) (
        ring-update buffer size ((head + 1) % size) n slot item (IsNext-lt size head _ h j) b
          (omega (arith, m)) (IsAhead-next size head _ n slot j b a))

  ring-cong :
      (f g : ℕ → Item) (size head n : ℕ)
      → ((slot : ℕ) → slot < size → f slot ≡ g slot)
      → head < size
      → ring f size head n ≡ ring g size head n
  ring-cong f g size head zero e h = refl
  ring-cong f g size head (suc n) e h = cons_cong (e head h) (
      ring-cong f g size ((head + 1) % size) n e (IsNext-lt size head _ h (mod-IsNext size head h)))

  -- The item of each slot.
  abbrev pub slot_of : Queue Item → ℕ → Item
  slot_of q slot = q.buffer (offset q.item_size slot)

  abbrev pub contents : Queue Item → List Item
  contents q = ring (slot_of q) q.queue_size q.head q.count

  -- A write at the address of one slot changes that slot alone.
  update-offset :
      (buffer : ℕ → Item) (item_size size slot other : ℕ) (item : Item)
      → 0 < item_size
      → size * item_size < 2 ^ 32
      → slot < size
      → other < size
      → update buffer (offset item_size slot) item (offset item_size other)
        ≡ update (λ n. buffer (offset item_size n)) slot item other
  update-offset buffer item_size size slot other item w small s o =
      elim (Bool-cases (other == slot)) [
        | inl e ↦
            let same : other ≡ slot = ground arith in
            update_at buffer _ _ item (ap (offset item_size) same)
            ∙ sym (update_at (λ n. buffer (offset item_size n)) slot other item same)
        | inr ne ↦
            let differ : (other ≡ slot) → ⊥ = λ e. ground arith in
            update_else buffer _ _ item
              (λ e. differ (offset-injective item_size size other slot w small o s e))
            ∙ sym (update_else (λ n. buffer (offset item_size n)) slot other item differ)
      ]

  -- The tail is `count` slots ahead of the head, around the ring, and no address wraps.
  pub record IsRing (q : Queue Item) : Type 0 where
    pub wide : 0 < q.item_size
    pub small : q.queue_size * q.item_size < 2 ^ 32
    pub head_in : q.head < q.queue_size
    pub tail_in : q.tail < q.queue_size
    pub count_in : q.count ≤ q.queue_size
    pub tail_is : IsAhead q.queue_size q.head q.count q.tail

  pub data Sending (q : Queue Item) (item : Item) : Outcome (Queue Item) → Type 0 where
    is_full : length (contents q) ≡ q.queue_size → Sending q item waiting
    appends :
        (q' : Queue Item)
        → contents q' ≡ contents q ++ item ∷ []
        → length (contents q') ≤ q.queue_size
        → q'.queue_size ≡ q.queue_size
        → IsRing q'
        → Sending q item (returned q')

  length-ring : (buffer : ℕ → Item) (size head n : ℕ) → length (ring buffer size head n) ≡ n
  length-ring buffer size head zero = refl
  length-ring buffer size head (suc n) = ap suc (length-ring buffer size ((head + 1) % size) n)

  length-contents : (q : Queue Item) → length (contents q) ≡ q.count
  length-contents q = length-ring (slot_of q) q.queue_size q.head q.count

  appends_case :
      (q : Queue Item) (item : Item)
      → IsRing q
      → q.count < q.queue_size
      → Sending q item (
          returned (record q {
            buffer = update q.buffer (offset q.item_size q.tail) item;
            tail = (q.tail + 1) % q.queue_size;
            count = q.count + 1;
          }))
  appends_case q item v room =
      let j = mod-IsNext q.queue_size q.tail v.tail_in in
      appends _
        (ring-cong _ (update (slot_of q) q.tail item) q.queue_size q.head (q.count + 1)
            (λ slot s.
              update-offset q.buffer q.item_size q.queue_size q.tail slot item v.wide v.small
                v.tail_in s)
            v.head_in
          ∙ ap (ring (update (slot_of q) q.tail item) q.queue_size q.head) (suc_is q.count)
          ∙ ring-update (slot_of q) q.queue_size q.head q.count q.tail item v.head_in v.tail_in room
              v.tail_is)
        (omega (
          arith,
          length-ring
              (λ slot. update q.buffer (offset q.item_size q.tail) item (offset q.item_size slot))
              q.queue_size q.head (q.count + 1),
          room,
        ))
        refl
        (record {
          wide = v.wide;
          small = v.small;
          head_in = v.head_in;
          tail_in = IsNext-lt q.queue_size q.tail _ v.tail_in j;
          count_in = omega (arith, room);
          tail_is =
              subst (λ n. IsAhead q.queue_size q.head n ((q.tail + 1) % q.queue_size))
                (sym (suc_is q.count))
                (IsAhead-suc q.queue_size q.head q.count q.tail _ v.head_in room j v.tail_is);
        })

  -- On a ring whose tail is `count` slots ahead of its head, a send waits, with `queue_size`
  -- items in it, or it puts the item behind the others, with at most `queue_size` then, and the
  -- ring is such a one again.
  pub send_cases : (q : Queue Item) (item : Item) → IsRing q → Sending q item (send q (some item))
  unfolding send
  send_cases q item v = elim (Bool-cases (q.count == q.queue_size)) [
    | inl at_end ↦ rw at_end (is_full (length-contents q ∙ ground arith))
    | inr room ↦ rw room (appends_case q item v (ground (arith, v.count_in)))
  ]

  pub data Receiving (q : Queue Item) (timeout : Timeout)
      : Outcome (Item × Queue Item) → Type 0 where
    gave_up : contents q ≡ [] → gives_up timeout ≡ true → Receiving q timeout refused
    waits : contents q ≡ [] → gives_up timeout ≡ false → Receiving q timeout waiting
    first :
        (item : Item) (q' : Queue Item)
        → contents q ≡ item ∷ contents q'
        → q'.queue_size ≡ q.queue_size
        → IsRing q'
        → Receiving q timeout (returned (item, q'))

  first_case :
      (q : Queue Item) (timeout : Timeout) (n : ℕ)
      → IsRing q
      → q.count ≡ suc n
      → Receiving q timeout (
          returned (
            slot_of q q.head,
            record q { head = (q.head + 1) % q.queue_size; count = q.count - 1 },
          ))
  first_case q timeout n v e =
      let j = mod-IsNext q.queue_size q.head v.head_in in
      let less : n ≡ q.count - 1 = omega (arith, e) in
      first _ _
        (ap (ring (slot_of q) q.queue_size q.head) e
          ∙ ap
              (λ m.
                slot_of q q.head ∷ ring (slot_of q) q.queue_size ((q.head + 1) % q.queue_size) m)
              less)
        refl
        (record {
          wide = v.wide;
          small = v.small;
          head_in = IsNext-lt q.queue_size q.head _ v.head_in j;
          tail_in = v.tail_in;
          count_in = omega (arith, v.count_in);
          tail_is =
              subst (λ m. IsAhead q.queue_size ((q.head + 1) % q.queue_size) m q.tail) less
                (IsAhead-next q.queue_size q.head _ n q.tail j v.tail_in
                  (subst (λ m. IsAhead q.queue_size q.head m q.tail) e v.tail_is));
        })

  empty_case :
      (q : Queue Item) (timeout : Timeout)
      → q.count ≡ 0
      → Receiving q timeout (if gives_up timeout then refused else waiting)
  empty_case q timeout e = elim (Bool-cases (gives_up timeout)) [
    | inl over ↦ rw over (gave_up (ap (ring (slot_of q) q.queue_size q.head) e) over)
    | inr left ↦ rw left (waits (ap (ring (slot_of q) q.queue_size q.head) e) left)
  ]

  -- On such a ring, a receive returns the first item and leaves the others in their order, in
  -- such a ring again; without an item it fails if its time is over, and else waits.
  pub recv_cases :
      (q : Queue Item) (timeout : Timeout) → IsRing q → Receiving q timeout (recv q timeout)
  unfolding recv
  recv_cases q timeout v = elim (Bool-cases (q.count == 0)) [
    | inl none_in ↦ rw none_in (empty_case q timeout (ground arith))
    | inr some_in ↦ rw some_in (first_case q timeout (q.count - 1) v (ground arith))
  ]
