-- ===== src/Device.antt =====
-- The parts of core/mcp/mcp_server.c at work together over core/posix/background_sched.c: the receive
-- thread of a transport hands on messages, the worker answers them, and the application registers
-- tools and sends notifications. A step is one call, or what the worker does in one hold of its
-- mutex; the answer of the worker to a message is one step with the `finish` behind it.
pub mod Log
pub mod Account
pub mod Closing
pub mod InOrder
pub mod Tools
mod Tests
use mlink_device.Prelude.{
  ℕ, zero, suc, ◌≡◌, Bool, true, false, Option, none, some, List, [], ◌∷◌, ◌++◌,
}
use mlink_device.Prelude.Bytes.{Bytes}
use mlink_device.Memory.{Heap, M, pure, ◌>>=◌, ◌>>◌}
use mlink_device.Memory as Memory
use mlink_device.Json.{Env}
use mlink_device.Worker.{Sched, Turn, takes, leaves, waits, empty, take, turn, finish, stop}
use mlink_device.Mcp.Tool.{Tool}
use mlink_device.Mcp.Server.{Server, Sent, add_tool}
use mlink_device.Mcp.Session.{
  c_string, Received, receive, message_task_run, send_notification_message,
}

-- A server with its worker, the heap, what went out so far, and whether the worker has left its
-- loop: then nothing is picked any more, and what is posted stays in the queue.
pub record Device : Type 0 where
  pub server : Server
  pub worker : Sched Bytes
  pub heap : Heap
  pub sent : List Sent
  pub exited : Bool

abbrev pub start : Server → Heap → Device
start s h = record { server = s; worker = empty; heap = h; sent = []; exited = false }

abbrev pub worker_or : Sched Bytes → Option (Sched Bytes) → Sched Bytes
worker_or worker none = worker
worker_or worker (some behind) = behind

abbrev pub behind_call : Device → Received × Heap → Device
behind_call d (received, h) = record d {
  worker = worker_or d.worker received.worker;
  heap = h;
  sent = d.sent ++ received.sent;
}

-- Bytes from the transport.
unfoldable pub arrive : Env → Device → ℕ → Bytes → Device
arrive e d b bs = behind_call d (receive e d.server (some d.worker) (some (b ∷ bs)) d.heap)

-- The callback of a task, behind which its node is given back.
unfoldable pub run_task : Env → Server → Bytes → M (List Sent)
run_task e s text = do sent ← message_task_run e s text; Memory.free (some text); pure sent

-- The callback of the task in the worker's hand, and the hold of the mutex behind it.
unfoldable pub answer : Env → Device → Bytes → Device
answer e d text = record d {
  worker = finish d.worker;
  heap = (run_task e d.server text d.heap).1;
  sent = d.sent ++ (run_task e d.server text d.heap).0;
}

unfoldable pub register_tool : Device → Tool → Device
register_tool d tool = record d {
  server = (add_tool d.server tool d.heap).0.1;
  heap = (add_tool d.server tool d.heap).1;
}

unfoldable pub notify : Env → Device → Option Bytes → Option Bytes → Option Bytes → Device
notify e d level logger text = record d {
  sent = d.sent ++ send_notification_message e d.server level logger text;
}

-- What happens besides the arrival of bytes.
pub data Act (e : Env) : Device → Device → Type 0 where
  picks :
      (d : Device) (text : Bytes) (rest : List Bytes)
      → d.exited ≡ false
      → d.worker.taken ≡ none
      → d.worker.queue ≡ text ∷ rest
      → Act e d (record d { worker = take d.worker text rest })
  exits :
      (d : Device)
      → d.exited ≡ false
      → d.worker.taken ≡ none
      → d.worker.queue ≡ []
      → d.worker.running ≡ false
      → Act e d (record d { exited = true })
  answers : (d : Device) (text : Bytes) → d.worker.taken ≡ some text → Act e d (answer e d text)
  registers : (d : Device) (tool : Tool) → Act e d (register_tool d tool)
  notifies :
      (d : Device) (level logger text : Option Bytes) → Act e d (notify e d level logger text)
  stops : (d : Device) → Act e d (record d { worker = stop d.worker })

-- The states behind any interleaving, each with the texts that have arrived so far.
pub data Run (e : Env) (s : Server) (h : Heap) : List Bytes → Device → Type 0 where
  started : Run e s h [] (start s h)
  arrives :
      {arrived : List Bytes} {d : Device} (b : ℕ) (bs : Bytes)
      → Run e s h arrived d
      → Run e s h (arrived ++ c_string (b ∷ bs) ∷ []) (arrive e d b bs)
  acts :
      {arrived : List Bytes} {d d' : Device}
      → Run e s h arrived d
      → Act e d d'
      → Run e s h arrived d'

abbrev pub work_on : Turn Bytes → Device → (Sched Bytes → Bytes → Bool × Device) → Bool × Device
work_on leaves d again = (true, record d { exited = true })
work_on waits d again = (false, d)
work_on (takes s) d again = elim s.taken [ none ↦ (false, d) | some text ↦ again s text ]

-- The worker on its own, from a state in its loop and for a number of rounds; true once it has left.
unfoldable pub work : Env → ℕ → Device → Bool × Device
work e zero d = (false, d)
work e (suc fuel) d =
    work_on (turn d.worker) d (λ s text. work e fuel (answer e (record d { worker = s }) text))

-- What a server alone would do: the callbacks of the tasks, one behind the other.
unfoldable pub serve : Env → Server → List Bytes → M (List Sent)
serve e s [] = pure []
serve e s (text ∷ texts) = do
  first ← run_task e s text
  rest ← serve e s texts
  pure (first ++ rest)
