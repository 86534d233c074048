-- ===== src/Mcp/Session/Delivery.antt =====
-- What becomes of a message that the transport hands to the server (core/mcp/mcp_server.c).
use mlink_device.Prelude.{ℕ, ◌≡◌, refl, inl, inr, false, Option, none, some, [], ◌∷◌, arith}
use mlink_device.Prelude.Bytes.{Bytes}
use mlink_device.Memory.{Heap, malloc, ◌>>=◌}
use mlink_device.Memory as Memory
use mlink_device.DynList.Add.{Balanced, malloc_cases}
use mlink_device.DynList.Free.{free-block}
use mlink_device.Json.{Env}
use mlink_device.Worker.{Sched, enqueue, post}
use mlink_device.Mcp.Server.{Server}
use mlink_device.Mcp.Protocol.{parse_message}
use mlink_device.Mcp.Session.{
  c_string, parse_and_free, Received, at_once, posted, hand_over, receive,
}

module _ (e : Env) (s : Server) where
  -- What becomes of a message: dropped, for want of memory for it alone; handled in the call, between the heaps
  -- `before` and `after`; or queued behind the others, with its block, its task's and its node's.
  pub data Delivery (worker : Option (Sched Bytes)) (message : Bytes) (h : Heap)
      : Received × Heap → Type 0 where
    dropped :
        {h' : Heap}
        → (malloc h).0 ≡ false
        → Balanced h 0 h' 0
        → Delivery worker message h (record { sent = []; worker = worker }, h')
    handled :
        {h' : Heap} (before : Heap) (held : ℕ)
        → Balanced h 0 before held
        → Balanced (parse_message e s message before).1 held h' 0
        → Delivery worker message h
            (record { sent = (parse_message e s message before).0; worker = worker }, h')
    queued :
        {h' : Heap} (sched : Sched Bytes)
        → worker ≡ some sched
        → Balanced h 0 h' 3
        → Delivery worker message h
            (record { sent = []; worker = some (enqueue sched message) }, h')

  parse_and_free-Balanced :
      (message : Bytes) (h : Heap)
      → ((parse_and_free e s message h).0 ≡ (parse_message e s message h).0)
        × Balanced (parse_message e s message h).1 1 (parse_and_free e s message h).1 0
  unfolding parse_and_free
  parse_and_free-Balanced message h =
      (refl, free-block (some message) (parse_message e s message h).1)

  at_once-Delivery :
      (worker : Option (Sched Bytes)) (message : Bytes) (h h₁ : Heap)
      → Balanced h 0 h₁ 1
      → Delivery worker message h (at_once e s worker message h₁)
  unfolding parse_and_free
  at_once-Delivery worker message h h₁ b =
      handled h₁ 1 b (free-block (some message) (parse_message e s message h₁).1)

  posted-Delivery :
      (sched : Sched Bytes) (message : Bytes) (h h₂ : Heap)
      → Balanced h 0 h₂ 2
      → Delivery (some sched) message h ((post sched (some message) >>= posted e s message) h₂)
  unfolding post parse_and_free
  posted-Delivery sched message h h₂ b = elim (malloc_cases h₂) [
    | inl (g, c) ↦ rw g (queued sched refl (omega (arith, b, c)))
    | inr (g, c) ↦ rw g (
        handled (malloc h₂).1 2 (omega (arith, b, c)) (
          omega (
            arith,
            free-block (some message) (parse_message e s message (malloc h₂).1).1,
            free-block (some (tt {0}))
                (Memory.free (some message) (parse_message e s message (malloc h₂).1).1).1,
          )))
  ]

  hand_over-Delivery :
      (worker : Option (Sched Bytes)) (message : Bytes) (h h₁ : Heap)
      → Balanced h 0 h₁ 1
      → Delivery worker message h (hand_over e s worker message h₁)
  hand_over-Delivery none message h h₁ b = at_once-Delivery none message h h₁ b
  hand_over-Delivery (some sched) message h h₁ b = elim (malloc_cases h₁) [
    | inl (g, c) ↦ rw g (posted-Delivery sched message h (malloc h₁).1 (omega (arith, b, c)))
    | inr (g, c) ↦
        rw g (at_once-Delivery (some sched) message h (malloc h₁).1 (omega (arith, b, c)))
  ]

  -- Bytes that a transport hands on come to one of three ends. For want of memory for the message
  -- it is dropped without an answer. Or it is handled in the call, the replies being those of its
  -- text up to the first NUL, and all blocks of the delivery are given back. Or it is queued as
  -- the last task of the worker, where it keeps three blocks.
  pub receive-Delivery :
      (worker : Option (Sched Bytes)) (b : ℕ) (bs : Bytes) (h : Heap)
      → Delivery worker (c_string (b ∷ bs)) h (receive e s worker (some (b ∷ bs)) h)
  unfolding receive
  receive-Delivery worker b bs h = elim (malloc_cases h) [
    | inl (g, c) ↦ rw g (hand_over-Delivery worker (c_string (b ∷ bs)) h (malloc h).1 c)
    | inr (g, c) ↦ rw g (dropped g c)
  ]
