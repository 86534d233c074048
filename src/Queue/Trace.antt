-- ===== src/Queue/Trace.antt =====
-- core/posix/queue.c over any sequence of calls, as a bounded first-in first-out list.
use mathlib.Core.Path.{subst}
use mlink_device.Prelude.{
  ℕ, ◌<◌, ◌≡◌, refl, sym, ap, ◌∙◌, inl, true, false, some, List, [], ◌∷◌, ◌++◌, length,
  length-append, ◌==◌, arith, if◌then◌else◌,
}
use mlink_device.Queue.{
  Queue, Timeout, gives_up, Outcome, waiting, refused, returned, send, recv, reset,
}
use mlink_device.Queue.Fifo.{
  contents, IsRing, Sending, is_full, appends, send_cases, Receiving, gave_up, waits, first,
  recv_cases,
}

pub data Operation (Item : Type 0) : Type 0 where
  sends : Item → Operation Item
  receives : Timeout → Operation Item
  resets : (zero_item : Item) → Operation Item

-- What a caller sees of a call.
pub data Answer (Item : Type 0) : Type 0 where
  blocked failed done : Answer Item
  received : Item → Answer Item

module _ {Item : Type 0} where
  abbrev pub sent_to : Queue Item → Outcome (Queue Item) → Answer Item × Queue Item
  sent_to q waiting = (blocked, q)
  sent_to q refused = (failed, q)
  sent_to q (returned q') = (done, q')

  abbrev pub received_from : Queue Item → Outcome (Item × Queue Item) → Answer Item × Queue Item
  received_from q waiting = (blocked, q)
  received_from q refused = (failed, q)
  received_from q (returned (item, q')) = (received item, q')

  unfoldable pub operate : Queue Item → Operation Item → Answer Item × Queue Item
  operate q (sends item) = sent_to q (send q (some item))
  operate q (receives timeout) = received_from q (recv q timeout)
  operate q (resets zero_item) = (done, reset zero_item q)

  -- The answers of the calls one behind the other, and the ring behind them.
  unfoldable pub operate_all : Queue Item → List (Operation Item) → List (Answer Item) × Queue Item
  operate_all q [] = ([], q)
  operate_all q (op ∷ ops) =
      let rest = operate_all (operate q op).1 ops in ((operate q op).0 ∷ rest.0, rest.1)

  -- The same of a list with room for `size` items.
  unfoldable pub spec : ℕ → List Item → Operation Item → Answer Item × List Item
  spec size xs (sends item) = if length xs == size then (blocked, xs) else (done, xs ++ item ∷ [])
  spec size [] (receives timeout) = ((if gives_up timeout then failed else blocked), [])
  spec size (x ∷ xs) (receives timeout) = (received x, xs)
  spec size xs (resets zero_item) = (done, [])

  unfoldable pub spec_all : ℕ → List Item → List (Operation Item) → List (Answer Item) × List Item
  spec_all size xs [] = ([], xs)
  spec_all size xs (op ∷ ops) =
      let rest = spec_all size (spec size xs op).1 ops in ((spec size xs op).0 ∷ rest.0, rest.1)

  -- The ring answers as the list, and holds the list's items behind the call.
  pub record Simulates (q : Queue Item) (r : Answer Item × Queue Item) (t : Answer Item × List Item)
      : Type 0 where
    pub answer : r.0 ≡ t.0
    pub items : contents r.1 ≡ t.1
    pub size : r.1.queue_size ≡ q.queue_size
    pub ring : IsRing r.1

  sent-Simulates :
      (q : Queue Item) (item : Item) (r : Outcome (Queue Item))
      → IsRing q
      → Sending q item r
      → Simulates q (sent_to q r) (spec q.queue_size (contents q) (sends item))
  unfolding spec
  sent-Simulates q item r v (is_full e) =
      subst
        (λ b.
          Simulates q (blocked, q)
            (if b then (blocked, contents q) else (done, contents q ++ item ∷ [])))
        (sym (full_test e)) (record { answer = refl; items = refl; size = refl; ring = v })
    where
      full_test : length (contents q) ≡ q.queue_size → (length (contents q) == q.queue_size) ≡ true
      full_test f = ground arith
  sent-Simulates q item r v (appends q' e l z v') =
      subst
        (λ b.
          Simulates q (done, q')
            (if b then (blocked, contents q) else (done, contents q ++ item ∷ [])))
        (sym (
          room_test (contents q)
            (omega (arith, l, ap length e, length-append (contents q) (item ∷ [])))))
        (record { answer = refl; items = e; size = z; ring = v' })
    where
      room_test : (xs : List Item) → length xs < q.queue_size → (length xs == q.queue_size) ≡ false
      room_test xs m = ground arith

  received-Simulates :
      (q : Queue Item) (timeout : Timeout) (r : Outcome (Item × Queue Item))
      → IsRing q
      → Receiving q timeout r
      → Simulates q (received_from q r) (spec q.queue_size (contents q) (receives timeout))
  unfolding spec
  received-Simulates q timeout r v (gave_up e over) =
      subst (λ xs. Simulates q (failed, q) (spec q.queue_size xs (receives timeout))) (sym e)
        (rw over (record { answer = refl; items = e; size = refl; ring = v }))
  received-Simulates q timeout r v (waits e left) =
      subst (λ xs. Simulates q (blocked, q) (spec q.queue_size xs (receives timeout))) (sym e)
        (rw left (record { answer = refl; items = e; size = refl; ring = v }))
  received-Simulates q timeout r v (first item q' e z v') =
      subst (λ xs. Simulates q (received item, q') (spec q.queue_size xs (receives timeout)))
        (sym e) (record { answer = refl; items = refl; size = z; ring = v' })

  operate-Simulates :
      (q : Queue Item) (op : Operation Item)
      → IsRing q
      → Simulates q (operate q op) (spec q.queue_size (contents q) op)
  unfolding operate spec reset
  operate-Simulates q (sends item) v = sent-Simulates q item _ v (send_cases q item v)
  operate-Simulates q (receives timeout) v =
      received-Simulates q timeout _ v (recv_cases q timeout v)
  operate-Simulates q (resets zero_item) v = record {
    answer = refl;
    items = refl;
    size = refl;
    ring = record {
      wide = v.wide;
      small = v.small;
      head_in = omega (arith, v.head_in);
      tail_in = omega (arith, v.head_in);
      count_in = omega arith;
      tail_is = inl refl;
    };
  }

  -- On a ring whose tail is `count` slots ahead of its head, with items of at least one byte and
  -- fewer than 2 ^ 32 bytes for all of its slots: any sequence of sends, receives with any
  -- timeouts, and resets gives the answers of a first-in first-out list with room for
  -- `queue_size` items, on which a send blocks when it is full, and a receive without an item
  -- fails if its time is over and else blocks; and the ring holds the list's items behind the
  -- calls and is such a one again.
  pub operate_all-spec_all :
      (q : Queue Item) (ops : List (Operation Item))
      → IsRing q
      → let r = operate_all q ops in
        let t = spec_all q.queue_size (contents q) ops in
        (r.0 ≡ t.0) × (contents r.1 ≡ t.1) × IsRing r.1
  unfolding operate_all spec_all
  operate_all-spec_all q [] v = (refl, refl, v)
  operate_all-spec_all q (op ∷ ops) v =
      let s = operate-Simulates q op v in
      let ih = operate_all-spec_all (operate q op).1 ops s.ring in
      let same : spec_all (operate q op).1.queue_size (contents (operate q op).1) ops
          ≡ spec_all q.queue_size (spec q.queue_size (contents q) op).1 ops =
        cc (s.size, s.items) in
      (cc (s.answer, ih.0, same), ih.1 ∙ ap (λ p. p.1) same, ih.2)
