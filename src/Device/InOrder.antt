-- ===== src/Device/InOrder.antt =====
-- A device whose allocator grants everything (core/mcp/mcp_server.c): no message is lost, and the
-- replies come in the order of arrival.
use mlink_device.Prelude.{
  ◌≡◌, refl, sym, ap, false, ◌∙◌, Bool, Option, none, some, List, [], ◌∷◌, ◌++◌, true, length,
  length-append, suc, ◌+◌, arith,
}
use mlink_device.Prelude.Bytes.{Bytes}
use mlink_device.Memory.{Heap}
use mlink_device.Memory.Granting.{HasMemory, free-KeepsGrant}
use mlink_device.Json.{Env}
use mlink_device.Worker.{Sched, enqueue, take, finish, finish_with, stop}
use mlink_device.Mcp.Server.{Server}
use mlink_device.Mcp.Server.Granting.{add_tool-KeepsGrant}
use mlink_device.Mcp.Protocol.Granting.{parse_message-KeepsGrant}
use mlink_device.Mcp.Session.{c_string, parse_and_free, message_task_run}
use mlink_device.Mcp.Session.Draining.{receive-posts}
use mlink_device.Device.{
  Device, behind_call, arrive, answer, run_task, register_tool, notify, work, serve, Act, picks,
  answers, registers, exits, notifies, stops, Run, started, arrives, acts,
}
use mlink_device.Device.Closing.{stop-Finished}
use mlink_device.Device.Account.{log_in, lost_in, direct_in, Run-Account, in_order}
use mlink_device.Worker.Order.{in_hand}
use mlink_device.Device.Log.{Split, nothing, drop, reply_now, accept, answered, all_words}

module _ (e : Env) where
  answer-grant : (d : Device) (text : Bytes) → (answer e d text).heap.grant ≡ d.heap.grant
  unfolding answer run_task message_task_run parse_and_free
  answer-grant d text =
      free-KeepsGrant (some text) _
      ∙ free-KeepsGrant (some (tt {0})) _
      ∙ free-KeepsGrant (some text) _
      ∙ parse_message-KeepsGrant e d.server text d.heap

  act-grant : (d d' : Device) → Act e d d' → d'.heap.grant ≡ d.heap.grant
  unfolding register_tool notify
  act-grant d d' (picks _ text rest inside idle q) = refl
  act-grant d d' (exits _ inside idle q stopped) = refl
  act-grant d d' (answers _ text t) = answer-grant d text
  act-grant d d' (registers _ tool) = add_tool-KeepsGrant d.server tool d.heap
  act-grant d d' (notifies _ level logger text) = refl
  act-grant d d' (stops _) = refl

  finish-accepted :
      {Task : Type 0} (s : Sched Task) (t : Option Task) → (finish_with s t).accepted ≡ s.accepted
  finish-accepted s none = refl
  finish-accepted s (some task) = refl

  act-accepted : (d d' : Device) → Act e d d' → d'.worker.accepted ≡ d.worker.accepted
  unfolding take stop register_tool notify answer finish
  act-accepted d d' (picks _ text rest inside idle q) = refl
  act-accepted d d' (exits _ inside idle q stopped) = refl
  act-accepted d d' (answers _ text t) = finish-accepted d.worker d.worker.taken
  act-accepted d d' (registers _ tool) = refl
  act-accepted d d' (notifies _ level logger text) = refl
  act-accepted d d' (stops _) = refl

  -- There is memory for everything, and the worker has accepted all that has arrived.
  pub record Accepting (arrived : List Bytes) (d : Device) : Type 0 where
    pub memory : HasMemory d.heap
    pub accepted : d.worker.accepted ≡ arrived

  pub Run-Accepting :
      (s : Server) (h : Heap) (arrived : List Bytes) (d : Device)
      → HasMemory h
      → Run e s h arrived d
      → Accepting arrived d
  unfolding arrive enqueue
  Run-Accepting s h _ _ m started = record { memory = m; accepted = refl }
  Run-Accepting s h _ _ m (arrives {arrived} {d} b bs r) =
      let a = Run-Accepting s h arrived d m r in
      let p = receive-posts e d.server d.worker b bs d.heap a.memory in
      record {
        memory = p.1;
        accepted =
            ap (λ received. (behind_call d (received, d.heap)).worker.accepted) p.0
            ∙ ap (λ ts. ts ++ c_string (b ∷ bs) ∷ []) a.accepted;
      }
  Run-Accepting s h arrived _ m (acts {d = d} {d' = d'} r x) =
      let a = Run-Accepting s h arrived d m r in
      record {
        memory = λ n. ap (λ grant. grant n) (act-grant d d' x) ∙ a.memory n;
        accepted = act-accepted d d' x ∙ a.accepted;
      }

length-Split :
    {arrived lost direct accepted : List Bytes}
    → Split arrived lost direct accepted
    → length arrived ≡ length lost + length direct + length accepted
length-Split nothing = refl
length-Split (drop {arrived} {lost} {direct} {accepted} text p) =
    omega (arith, length-Split p, length-append arrived (text ∷ []), length-append lost (text ∷ []))
length-Split (reply_now {arrived} {lost} {direct} {accepted} text p) =
    omega
      (arith, length-Split p, length-append arrived (text ∷ []), length-append direct (text ∷ []))
length-Split (accept {arrived} {lost} {direct} {accepted} text p) =
    omega
      (arith, length-Split p, length-append arrived (text ∷ []), length-append accepted (text ∷ []))

of_length : {A : Type 0} (xs : List A) → length xs ≡ 0 → xs ≡ []
of_length [] e = refl
of_length (x ∷ xs) e = absurd (omega arith)

-- The worker has left with nothing queued. What was sent is what was said in the run so far, and then
-- what the server answers to the queued texts one behind the other; together these are replies to
-- the texts that have arrived, each once and in their order.
pub record InOrder (e : Env) (s : Server) (h : Heap) {arrived : List Bytes} {d : Device}
    (r : Run e s h arrived d) (w : Bool × Device) : Type 0 where
  pub left : w.0 ≡ true
  pub emptied : w.1.worker.queue ≡ []
  pub said : w.1.sent ≡ all_words e (log_in e r) ++ (serve e d.server d.worker.queue d.heap).0
  pub in_order : answered (log_in e r) ++ d.worker.queue ≡ arrived

-- For a device that starts with a fresh worker and an allocator that grants everything, in every
-- state that bytes from the transport, the worker, registrations, notifications and
-- `bg_sched_destroy` can reach in any interleaving, with the worker in its loop and between two
-- tasks: when the scheduler is stopped, the worker leaves after at most one round for each queued
-- task and one more, with nothing queued. What has been sent by then is, in order, the
-- notifications and replies said in the run so far, each by the server and the heap of the state
-- before it, and then what the server answers to the queued texts one behind the other. The texts
-- replied to in the run, and behind them the queued ones, are the texts that have arrived, each
-- once and in the order of their arrival.
pub stop-InOrder :
    (e : Env) (s : Server) (h : Heap) (arrived : List Bytes) (d : Device)
    → HasMemory h
    → (r : Run e s h arrived d) → d.exited ≡ false
    → d.worker.taken ≡ none
    → InOrder e s h r (work e (suc (length d.worker.queue)) (record d { worker = stop d.worker }))
stop-InOrder e s h arrived d m r inside idle =
    let f = stop-Finished e s h arrived d r inside idle in
    let a = Run-Account e s h arrived d r in
    let accepted = (Run-Accepting e s h arrived d m r).accepted in
    let none_lost : lost_in e r ≡ [] =
      of_length (lost_in e r) (omega (arith, length-Split a.split, ap length accepted)) in
    let no_direct : direct_in e r ≡ [] =
      of_length (direct_in e r) (omega (arith, length-Split a.split, ap length accepted)) in
    record {
      left = f.closed.left;
      emptied = f.closed.emptied;
      said = f.closed.sent ∙ ap (λ sent. sent ++ (serve e d.server d.worker.queue d.heap).0) a.said;
      in_order =
          ap (λ t. answered (log_in e r) ++ (in_hand t ++ d.worker.queue)) (sym idle)
          ∙ in_order e arrived (log_in e r) (lost_in e r) (direct_in e r) d a none_lost no_direct;
    }
