-- ===== src/Mcp/Session/Draining.antt =====
-- From the transport to the worker's last message: what is received before the server stops is
-- handled (core/mcp/mcp_server.c over core/posix/background_sched.c).
use mathlib.Core.List.{append_assoc, append-nil}
use mathlib.Core.Path.{subst}
use mlink_device.Prelude.{
  ℕ, suc, ◌≡◌, refl, sym, ◌∙◌, true, Option, none, some, List, [], ◌∷◌, ◌++◌, length,
}
use mlink_device.Prelude.Bytes.{Bytes}
use mlink_device.Memory.{Heap, malloc, M, pure, ◌>>=◌}
use mlink_device.Memory.Granting.{HasMemory}
use mlink_device.Json.{Env}
use mlink_device.Worker.{Sched, enqueue, post, stop, worker_main, Reachable, stepped, posts}
use mlink_device.Worker.Order.{Drained, stop-Drained}
use mlink_device.Mcp.Server.{Server}
use mlink_device.Mcp.Session.{c_string, Received, receive}

-- Chunks of at least one byte, and their texts.
abbrev pub Chunks : Type 0
Chunks = List (ℕ × Bytes)

abbrev pub texts : Chunks → List Bytes
texts [] = []
texts ((b, bs) ∷ rest) = c_string (b ∷ bs) ∷ texts rest

-- The calls of the receive callback, one for each chunk.
abbrev pub receive_all : Env → Server → Option (Sched Bytes) → Chunks → M Received
receive_all e s worker [] = pure (record { sent = []; worker = worker })
receive_all e s worker ((b, bs) ∷ rest) = do
  first ← receive e s worker (some (b ∷ bs))
  others ← receive_all e s first.worker rest
  pure (record { sent = first.sent ++ others.sent; worker = others.worker })

abbrev posted_all : Sched Bytes → Chunks → Sched Bytes
posted_all sched [] = sched
posted_all sched ((b, bs) ∷ rest) = posted_all (enqueue sched (c_string (b ∷ bs))) rest

malloc-granted : (h : Heap) → HasMemory h → ((malloc h).0 ≡ true) × HasMemory (malloc h).1
unfolding malloc
malloc-granted h m = rw (m h.next) (refl, m)

module _ (e : Env) (s : Server) where
  pub receive-posts :
      (sched : Sched Bytes) (b : ℕ) (bs : Bytes) (h : Heap)
      → HasMemory h
      → ((receive e s (some sched) (some (b ∷ bs)) h).0
          ≡ record { sent = []; worker = some (enqueue sched (c_string (b ∷ bs))) })
        × HasMemory (receive e s (some sched) (some (b ∷ bs)) h).1
  unfolding receive post
  receive-posts sched b bs h m =
      let a = malloc-granted h m in
      let c = malloc-granted (malloc h).1 a.1 in
      let d = malloc-granted (malloc (malloc h).1).1 c.1 in
      rw (a.0) (rw (c.0) (rw (d.0) (refl, d.1)))

  receive_all-posts :
      (sched : Sched Bytes) (chunks : Chunks) (h : Heap)
      → HasMemory h
      → (receive_all e s (some sched) chunks h).0
        ≡ record { sent = []; worker = some (posted_all sched chunks) }
  receive_all-posts sched [] h m = refl
  receive_all-posts sched ((b, bs) ∷ rest) h m =
      let p = receive-posts sched b bs h m in
      rw (p.0) (receive_all-posts (enqueue sched (c_string (b ∷ bs))) rest _ p.1)

posted_all-Reachable :
    (sched : Sched Bytes) (chunks : Chunks) → Reachable sched → Reachable (posted_all sched chunks)
posted_all-Reachable sched [] r = r
posted_all-Reachable sched ((b, bs) ∷ rest) r =
    posted_all-Reachable (enqueue sched (c_string (b ∷ bs))) rest
      (stepped r (posts sched (c_string (b ∷ bs))))

posted_all-taken :
    (sched : Sched Bytes) (chunks : Chunks) → (posted_all sched chunks).taken ≡ sched.taken
unfolding enqueue
posted_all-taken sched [] = refl
posted_all-taken sched ((b, bs) ∷ rest) = posted_all-taken (enqueue sched (c_string (b ∷ bs))) rest

posted_all-accepted :
    (sched : Sched Bytes) (chunks : Chunks)
    → (posted_all sched chunks).accepted ≡ sched.accepted ++ texts chunks
unfolding enqueue
posted_all-accepted sched [] = sym (append-nil sched.accepted)
posted_all-accepted sched ((b, bs) ∷ rest) =
    posted_all-accepted (enqueue sched (c_string (b ∷ bs))) rest
    ∙ append_assoc sched.accepted (c_string (b ∷ bs) ∷ []) (texts rest)

-- The calls returned without a reply of their own, and the worker ran their messages last.
pub record Handled (e : Env) (s : Server) (sched : Sched Bytes) (chunks : Chunks) (h : Heap)
    (behind : Sched Bytes) : Type 0 where
  pub handed_over :
      (receive_all e s (some sched) chunks h).0 ≡ record { sent = []; worker = some behind }
  pub drained :
      Drained
        (sched.accepted ++ texts chunks)
        (worker_main (suc (length behind.queue)) (stop behind))

-- For a server with a worker between two tasks, in any state that the scheduler can reach, and an
-- allocator that grants everything: the calls for any chunks of bytes from the transport return
-- without a reply, and when the scheduler is then stopped, the worker runs, behind what it had
-- accepted before, the texts of all these chunks in their order, and leaves with nothing queued.
pub receive_all-Handled :
    (e : Env) (s : Server) (sched : Sched Bytes) (chunks : Chunks) (h : Heap)
    → HasMemory h
    → Reachable sched
    → sched.taken ≡ none
    → (behind : Sched Bytes) × Handled e s sched chunks h behind
receive_all-Handled e s sched chunks h m r idle = (
  posted_all sched chunks,
  record {
    handed_over = receive_all-posts e s sched chunks h m;
    drained =
        subst
          (λ ts. Drained ts (
            worker_main (suc (length (posted_all sched chunks).queue))
              (stop (posted_all sched chunks))))
          (posted_all-accepted sched chunks)
          (stop-Drained (posted_all sched chunks) (posted_all-Reachable sched chunks r)
            (posted_all-taken sched chunks ∙ idle));
  },
)
