-- ===== src/Device/Closing.antt =====
-- The worker's last rounds, behind `bg_sched_destroy` (core/posix/background_sched.c over
-- core/mcp/mcp_server.c).
use mathlib.Core.List.{append_assoc, append-nil}
use mathlib.Core.Path.{subst}
use mlink_device.Prelude.{
  ℕ, zero, suc, ◌≡◌, refl, sym, ap, ◌∙◌, Bool, true, false, none, List, [], ◌∷◌, ◌++◌, length,
  if◌then◌else◌,
}
use mlink_device.Prelude.Bytes.{Bytes}
use mlink_device.Memory.{Heap}
use mlink_device.Json.{Env}
use mlink_device.Worker.{leaves, waits, turn, turn_at, take, finish, stop}
use mlink_device.Mcp.Server.{Server}
use mlink_device.Worker.Order.{in_hand, Reachable-IsOrdered}
use mlink_device.Device.{
  Device, answer, run_task, work_on, work, serve, Run, acts, picks, exits, answers, stops,
}
use mlink_device.Device.Account.{Account, Run-Account}

-- The worker has left, with every message of its queue answered in order, as one server alone would.
pub record Closed (e : Env) (d : Device) (queue : List Bytes) (r : Bool × Device) : Type 0 where
  pub left : r.0 ≡ true
  pub exited : r.1.exited ≡ true
  pub emptied : r.1.worker.queue ≡ []
  pub ran : r.1.worker.ran ≡ d.worker.ran ++ queue
  pub sent : r.1.sent ≡ d.sent ++ (serve e d.server queue d.heap).0
  pub heap : r.1.heap ≡ (serve e d.server queue d.heap).1
  pub server : r.1.server ≡ d.server

module _ (e : Env) where
  -- The rounds from a device whose worker has the queue that is given.
  abbrev rounds : ℕ → Device → List Bytes → Bool × Device
  rounds fuel d queue =
      work_on (turn_at d.worker queue) d
        (λ s text. work e fuel (answer e (record d { worker = s }) text))

  -- The device behind the round for one text.
  abbrev next : Device → Bytes → List Bytes → Device
  next d text rest = answer e (record d { worker = take d.worker text rest }) text

  leave-Closed :
      (d : Device) → d.worker.queue ≡ [] → d.worker.running ≡ false → Closed e d [] (rounds 0 d [])
  unfolding serve
  leave-Closed d q stopped = rw stopped (record {
    left = refl;
    exited = refl;
    emptied = q;
    ran = sym (append-nil d.worker.ran);
    sent = sym (append-nil d.sent);
    heap = refl;
    server = refl;
  })

  next-Closed :
      (d : Device) (text : Bytes) (rest : List Bytes) (r : Bool × Device)
      → Closed e (next d text rest) rest r
      → Closed e d (text ∷ rest) r
  unfolding take finish answer serve
  next-Closed d text rest r c = record {
    left = c.left;
    exited = c.exited;
    emptied = c.emptied;
    ran = c.ran ∙ append_assoc d.worker.ran (text ∷ []) rest;
    sent = c.sent ∙ append_assoc d.sent (run_task e d.server text d.heap).0 _;
    heap = c.heap;
    server = c.server;
  }

  closing :
      (d : Device) (queue : List Bytes)
      → d.worker.queue ≡ queue
      → d.worker.running ≡ false
      → Closed e d queue (work e (suc (length queue)) d)
  unfolding work turn take finish answer
  closing d [] q stopped =
      subst (λ ts. Closed e d [] (rounds 0 d ts)) (sym q) (leave-Closed d q stopped)
  closing d (text ∷ rest) q stopped =
      subst (λ ts. Closed e d (text ∷ rest) (rounds (suc (length rest)) d ts)) (sym q)
        (next-Closed d text rest (work e (suc (length rest)) (next d text rest))
          (closing (next d text rest) rest refl stopped))

  -- A worker on its own takes steps that the device can take.
  round-Run :
      (s : Server) (h : Heap) (arrived : List Bytes) (fuel : ℕ) (d : Device)
      → ((d' : Device)
          → Run e s h arrived d'
          → d'.exited ≡ false
          → d'.worker.taken ≡ none
          → Run e s h arrived (work e fuel d').1)
      → Run e s h arrived d
      → d.exited ≡ false
      → d.worker.taken ≡ none
      → (queue : List Bytes) → d.worker.queue ≡ queue
      → Run e s h arrived (rounds fuel d queue).1
  unfolding take finish answer
  round-Run s h arrived fuel d ih r inside idle [] q = stay_or_leave d.worker.running refl
    where
      stay_or_leave :
          (running : Bool)
          → d.worker.running ≡ running
          → Run e s h arrived
              (work_on
                (if running then waits else leaves)
                d
                (λ s' text. work e fuel (answer e (record d { worker = s' }) text))).1
      stay_or_leave true t = r
      stay_or_leave false t = acts r (exits d inside idle q t)
  round-Run s h arrived fuel d ih r inside idle (text ∷ rest) q =
      ih (next d text rest)
        (acts (acts r (picks d text rest inside idle q))
          (answers (record d { worker = take d.worker text rest }) text refl))
        inside refl

  pub work-Run :
      (s : Server) (h : Heap) (arrived : List Bytes) (fuel : ℕ) (d : Device)
      → Run e s h arrived d
      → d.exited ≡ false
      → d.worker.taken ≡ none
      → Run e s h arrived (work e fuel d).1
  unfolding work turn
  work-Run s h arrived zero d r inside idle = r
  work-Run s h arrived (suc fuel) d r inside idle =
      round-Run s h arrived fuel d
        (λ d' r' inside' idle'. work-Run s h arrived fuel d' r' inside' idle') r inside idle
        d.worker.queue refl

  -- The worker left the queue empty, as one server alone would, and with that every message has come
  -- to its end.
  pub record Finished (s : Server) (h : Heap) (arrived : List Bytes) (d : Device)
      (r : Bool × Device) : Type 0 where
    pub closed : Closed e d d.worker.queue r
    pub behind : Run e s h arrived r.1
    pub account : Account e behind
    pub ran_all : r.1.worker.ran ≡ d.worker.accepted

  -- In every state that a device with a fresh worker can reach, in any interleaving and with any
  -- allocator, with the worker in its loop and between two tasks: when the scheduler is stopped,
  -- the worker leaves its loop after at most one round for each queued task and one more; it has
  -- then sent, and done to the heap, what a server alone does that answers the queued texts one
  -- behind the other, the server is as it was, nothing is queued, every text accepted so far has
  -- run, and the state is one that the device can reach, with the account of the arrived texts.
  pub stop-Finished :
      (s : Server) (h : Heap) (arrived : List Bytes) (d : Device)
      → Run e s h arrived d
      → d.exited ≡ false
      → d.worker.taken ≡ none
      → Finished s h arrived d
          (work e (suc (length d.worker.queue)) (record d { worker = stop d.worker }))
  unfolding stop
  stop-Finished s h arrived d r inside idle =
      let stopped = record d { worker = stop d.worker } in
      let behind =
        work-Run s h arrived (suc (length d.worker.queue)) stopped (acts r (stops d)) inside idle in
      let closed = closing stopped d.worker.queue refl refl in
      record {
        closed = record {
          left = closed.left;
          exited = closed.exited;
          emptied = closed.emptied;
          ran = closed.ran;
          sent = closed.sent;
          heap = closed.heap;
          server = closed.server;
        };
        behind = behind;
        account = Run-Account e s h arrived _ behind;
        ran_all =
            closed.ran
            ∙ ap (λ t. d.worker.ran ++ (in_hand t ++ d.worker.queue)) (sym idle)
            ∙ (Reachable-IsOrdered d.worker (Run-Account e s h arrived d r).reached).in_order;
      }
