-- ===== src/Queue.antt =====
-- core/posix/queue.c: a blocking queue over a ring of slots. Each operation is what its code does in
-- one hold of the lock, up to the point where it would wait. The buffer is a function from
-- addresses to the items that start there, so that a copy of `item_size` bytes is one item; the
-- address of a slot is the code's product, which wraps at 2 ^ 32. Where it wraps, items may also
-- overlap in part, which the theorems exclude.
pub mod Fifo
pub mod Trace
mod Tests
use mlink_device.Prelude.{
  ℕ, ◌+◌, ◌-◌, ◌*◌, ◌%◌, ◌^◌, ◌==◌, not, Bool, true, false, Option, none, some, if◌then◌else◌,
}
use mlink_device.Memory.{M, pure, ◌>>=◌, ◌>>◌, malloc}
use mlink_device.Memory as Memory

pub record Queue (Item : Type 0) : Type 0 where
  pub buffer : ℕ → Item
  pub item_size : ℕ
  pub queue_size : ℕ
  pub head : ℕ
  pub tail : ℕ
  pub count : ℕ

-- The sign of `timeout_ms`; a positive one has a clock, which has or has not run out.
pub data Timeout : Type 0 where
  forever : Timeout
  at_once : Timeout
  after : (expired : Bool) → Timeout

-- Whether a wait may stop on an empty queue.
abbrev pub gives_up : Timeout → Bool
gives_up forever = false
gives_up at_once = true
gives_up (after expired) = expired

-- A call that waits has changed nothing yet.
pub data Outcome (A : Type 0) : Type 0 where
  waiting : Outcome A
  refused : Outcome A
  returned : A → Outcome A

-- `tail * item_size` and `head * item_size`, as an `unsigned int`.
unfoldable pub offset : ℕ → ℕ → ℕ
offset item_size slot = (slot * item_size) % 2 ^ 32

module _ {Item : Type 0} where
  abbrev pub update : (ℕ → Item) → ℕ → Item → ℕ → Item
  update buffer address item other = if other == address then item else buffer other

  -- `garbage` is what the block holds.
  unfoldable pub create : (ℕ → Item) → ℕ → ℕ → M (Option (Queue Item))
  create garbage item_size queue_size = malloc >>= λ granted.
      if not granted
      then pure none
      else (malloc >>= λ buffer_granted.
          if buffer_granted
          then pure (
              some (record {
                buffer = garbage;
                item_size = item_size;
                queue_size = queue_size;
                head = 0;
                tail = 0;
                count = 0;
              }))
          else (Memory.free (some tt) >>= λ u. pure none))

  -- `queue_delete`; `none` is NULL.
  unfoldable pub delete : Option (Queue Item) → M (Unit {0})
  delete none = pure tt
  delete (some q) = Memory.free (some q.buffer) >> Memory.free (some q)

  unfoldable pub send : Queue Item → Option Item → Outcome (Queue Item)
  send q none = refused
  send q (some item) =
      if q.count == q.queue_size
      then waiting
      else returned (record q {
        buffer = update q.buffer (offset q.item_size q.tail) item;
        tail = (q.tail + 1) % q.queue_size;
        count = q.count + 1;
      })

  unfoldable pub recv : Queue Item → Timeout → Outcome (Item × Queue Item)
  recv q timeout =
      if q.count == 0
      then (if gives_up timeout then refused else waiting)
      else returned (
        q.buffer (offset q.item_size q.head),
        record q { head = (q.head + 1) % q.queue_size; count = q.count - 1 },
      )

  -- `zero_item` is an item of zero bytes.
  unfoldable pub reset : Item → Queue Item → Queue Item
  reset zero_item q = record q { buffer = λ address. zero_item; head = 0; tail = 0; count = 0 }
