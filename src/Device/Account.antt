-- ===== src/Device/Account.antt =====
-- Every message that has arrived, and everything that was sent, in any interleaving of the receive
-- thread, the worker and the application (core/mcp/mcp_server.c).
use mlink_device.Prelude.{
  ℕ, ◌≡◌, refl, sym, ap, ◌∙◌, inl, inr, Option, some, Bool-cases, List, [], ◌∷◌, ◌++◌,
}
use mathlib.Core.List.{append-nil}
use mathlib.Core.Path.{subst}
use mlink_device.Prelude.Bytes.{Bytes}
use mlink_device.Memory.{Heap, malloc, ◌>>=◌}
use mlink_device.Json.{Env}
use mlink_device.Worker.{
  Sched, post, enqueue, take, finish, finish_with, stop, Reachable, created, stepped, posts,
  finishes,
}
use mlink_device.Worker as Worker
use mlink_device.Worker.Order.{in_hand, Reachable-IsOrdered}
use mlink_device.Mcp.Server.{Server}
use mlink_device.Mcp.Protocol.{parse_message}
use mlink_device.Mcp.Session.{
  c_string, Received, receive, hand_over, posted, parse_and_free, message_task_run,
  send_notification_message,
}
use mlink_device.Device.Log.{
  Fate, is_lost, at_once, is_queued, node_fate, task_fate, fate, said_of, lost_of, direct_of, reply,
  notice, Spoken, all_words, answered, all_words-append, answered-append, answered-notice, Split,
  nothing, drop, reply_now, accept, Split-accepted, Merge, both_empty, on_left, on_right,
  Merge-right,
}
use mlink_device.Device.{
  Device, behind_call, arrive, answer, run_task, register_tool, notify, Act, picks, answers, exits,
  registers, notifies, stops, Run, started, arrives, acts,
}

module _ (e : Env) where
  -- What a state owes to the texts that have arrived.
  pub record Tally (arrived : List Bytes) (log : List Spoken) (lost direct : List Bytes)
      (d : Device) : Type 0 where
    pub said : d.sent ≡ all_words e log
    pub split : Split arrived lost direct d.worker.accepted
    pub merged : Merge (answered log) direct d.worker.ran
    pub reached : Reachable d.worker

  -- What the delivery of a text answers.
  abbrev received_as : Server → Sched Bytes → Bytes → Fate → Received
  received_as s sched text is_lost = record { sent = []; worker = some sched }
  received_as s sched text (at_once h) = record {
    sent = (parse_message e s text h).0;
    worker = some sched;
  }
  received_as s sched text is_queued = record { sent = []; worker = some (enqueue sched text) }

  posted_as :
      (s : Server) (sched : Sched Bytes) (text : Bytes) (h : Heap)
      → ((post sched (some text) >>= posted e s text) h).0
        ≡ received_as s sched text (node_fate (malloc h))
  unfolding post parse_and_free
  posted_as s sched text h = elim (Bool-cases (malloc h).0) [
    | inl g ↦ rw g refl
    | inr g ↦ rw g refl
  ]

  handed_as :
      (s : Server) (sched : Sched Bytes) (text : Bytes) (h : Heap)
      → (hand_over e s (some sched) text h).0 ≡ received_as s sched text (task_fate (malloc h))
  unfolding parse_and_free
  handed_as s sched text h = elim (Bool-cases (malloc h).0) [
    | inl g ↦ rw g (posted_as s sched text (malloc h).1)
    | inr g ↦ rw g refl
  ]

  receive_as :
      (s : Server) (sched : Sched Bytes) (b : ℕ) (bs : Bytes) (h : Heap)
      → (receive e s (some sched) (some (b ∷ bs)) h).0
        ≡ received_as s sched (c_string (b ∷ bs)) (fate h)
  unfolding receive
  receive_as s sched b bs h = elim (Bool-cases (malloc h).0) [
    | inl g ↦ rw g (handed_as s sched (c_string (b ∷ bs)) (malloc h).1)
    | inr g ↦ rw g refl
  ]

  module _ {arrived : List Bytes} {log : List Spoken} {lost direct : List Bytes} (d : Device)
      (a : Tally arrived log lost direct d) where
    by_fate :
        (text : Bytes) (f : Fate) (h : Heap)
        → Tally
            (arrived ++ text ∷ [])
            (log ++ said_of d.server text f)
            (lost ++ lost_of text f)
            (direct ++ direct_of text f)
            (behind_call d (received_as d.server d.worker text f, h))
    unfolding enqueue
    by_fate text is_lost h =
        rw (append-nil log, append-nil direct)
          (record {
            said = append-nil d.sent ∙ a.said;
            split = drop text a.split;
            merged = a.merged;
            reached = a.reached;
          })
    by_fate text (at_once before) h = rw (append-nil lost) (record {
      said =
          ap (λ sent. sent ++ (parse_message e d.server text before).0) a.said
          ∙ sym (all_words-append e log (reply d.server text before));
      split = reply_now text a.split;
      merged = rw (answered-append log d.server text before) (on_left text a.merged);
      reached = a.reached;
    })
    by_fate text is_queued h =
        rw (append-nil log, append-nil lost, append-nil direct)
          (record {
            said = append-nil d.sent ∙ a.said;
            split = accept text a.split;
            merged = a.merged;
            reached = stepped a.reached (posts d.worker text);
          })

    arrive-Tally :
        (b : ℕ) (bs : Bytes)
        → let text = c_string (b ∷ bs) in
          Tally
            (arrived ++ text ∷ [])
            (log ++ said_of d.server text (fate d.heap))
            (lost ++ lost_of text (fate d.heap))
            (direct ++ direct_of text (fate d.heap))
            (arrive e d b bs)
    unfolding arrive
    arrive-Tally b bs =
        let text = c_string (b ∷ bs) in
        let h = (receive e d.server (some d.worker) (some (b ∷ bs)) d.heap).1 in
        subst
          (λ received.
            Tally (arrived ++ text ∷ []) (log ++ said_of d.server text (fate d.heap))
              (lost ++ lost_of text (fate d.heap)) (direct ++ direct_of text (fate d.heap))
              (behind_call d (received, h)))
          (sym (receive_as d.server d.worker b bs d.heap)) (by_fate text (fate d.heap) h)

    answer-Tally :
        (text : Bytes)
        → d.worker.taken ≡ some text
        → Tally arrived (log ++ reply d.server text d.heap ∷ []) lost direct (answer e d text)
    unfolding answer run_task message_task_run parse_and_free finish
    answer-Tally text t = record {
      said =
          ap (λ sent. sent ++ (parse_message e d.server text d.heap).0) a.said
          ∙ sym (all_words-append e log (reply d.server text d.heap));
      split = rw t a.split;
      merged = rw (answered-append log d.server text d.heap) (rw t (on_right text a.merged));
      reached = stepped a.reached (finishes d.worker);
    }

    -- The steps that say nothing and leave what the worker accepted and ran.
    quiet-Tally :
        (d' : Device)
        → d'.sent ≡ d.sent
        → d'.worker.accepted ≡ d.worker.accepted
        → d'.worker.ran ≡ d.worker.ran
        → Reachable d'.worker
        → Tally arrived (log ++ []) lost direct d'
    quiet-Tally d' sent accepted ran r = rw (append-nil log) (record {
      said = sent ∙ a.said;
      split = subst (Split arrived lost direct) (sym accepted) a.split;
      merged = subst (Merge (answered log) direct) (sym ran) a.merged;
      reached = r;
    })

    notify-Tally :
        (level logger text : Option Bytes)
        → Tally arrived
            (log ++ notice d.server level logger text ∷ [])
            lost
            direct
            (notify e d level logger text)
    unfolding notify
    notify-Tally level logger text = record {
      said =
          ap (λ sent. sent ++ send_notification_message e d.server level logger text) a.said
          ∙ sym (all_words-append e log (notice d.server level logger text));
      split = a.split;
      merged = rw (answered-notice log d.server level logger text) a.merged;
      reached = a.reached;
    }

  -- What is said in a step: by the server and the heap of the state before it.
  abbrev pub act_log : {d d' : Device} → Act e d d' → List Spoken
  act_log (picks d text rest inside idle q) = []
  act_log (exits d inside idle q stopped) = []
  act_log (answers d text t) = reply d.server text d.heap ∷ []
  act_log (registers d tool) = []
  act_log (notifies d level logger text) = notice d.server level logger text ∷ []
  act_log (stops d) = []

  act-Tally :
      {arrived : List Bytes} {log : List Spoken} {lost direct : List Bytes} (d d' : Device)
      (x : Act e d d')
      → Tally arrived log lost direct d
      → Tally arrived (log ++ act_log x) lost direct d'
  unfolding take stop register_tool
  act-Tally d d' (picks _ text rest inside idle q) a =
      quiet-Tally d a d' refl refl refl (stepped a.reached (Worker.picks d.worker text rest idle q))
  act-Tally d d' (exits _ inside idle q stopped) a = quiet-Tally d a d' refl refl refl a.reached
  act-Tally d d' (answers _ text t) a = answer-Tally d a text t
  act-Tally d d' (registers _ tool) a = quiet-Tally d a d' refl refl refl a.reached
  act-Tally d d' (notifies _ level logger text) a = notify-Tally d a level logger text
  act-Tally d d' (stops _) a =
      quiet-Tally d a d' refl refl refl (stepped a.reached (Worker.stops d.worker))

  module _ {s : Server} {h : Heap} where
    -- What was said in a run, and the texts that were lost or answered in the call, each by the
    -- allocator's answers in the state that it arrived in.
    pub log_in : {arrived : List Bytes} {d : Device} → Run e s h arrived d → List Spoken
    log_in started = []
    log_in (arrives {arrived} {d} b bs r) =
        log_in r ++ said_of d.server (c_string (b ∷ bs)) (fate d.heap)
    log_in (acts r x) = log_in r ++ act_log x

    pub lost_in : {arrived : List Bytes} {d : Device} → Run e s h arrived d → List Bytes
    lost_in started = []
    lost_in (arrives {arrived} {d} b bs r) = lost_in r ++ lost_of (c_string (b ∷ bs)) (fate d.heap)
    lost_in (acts r x) = lost_in r

    pub direct_in : {arrived : List Bytes} {d : Device} → Run e s h arrived d → List Bytes
    direct_in started = []
    direct_in (arrives {arrived} {d} b bs r) =
        direct_in r ++ direct_of (c_string (b ∷ bs)) (fate d.heap)
    direct_in (acts r x) = direct_in r

    abbrev pub Account : {arrived : List Bytes} {d : Device} → Run e s h arrived d → Type 0
    Account {arrived} {d} r = Tally arrived (log_in r) (lost_in r) (direct_in r) d

  -- In every state that a device with a fresh worker can reach, in any interleaving of bytes from
  -- the transport, the worker, registrations, notifications and `bg_sched_destroy`, and with any
  -- allocator: what was sent is, in order, the notifications and replies said in the run, each by
  -- the server of the state before it; each text that has arrived was lost, where the allocator
  -- refused the request for its copy in the state that it arrived in, or answered in the call,
  -- where it refused the request for its task or its node, or else accepted by the worker, each
  -- in their order; the texts replied to are those answered in a call and those that the worker
  -- ran, each kind in its order; and the worker's state is one that its scheduler can reach.
  pub Run-Account :
      (s : Server) (h : Heap) (arrived : List Bytes) (d : Device) (r : Run e s h arrived d)
      → Account r
  unfolding log_in lost_in direct_in
  Run-Account s h _ _ started = record {
    said = refl;
    split = nothing;
    merged = both_empty;
    reached = created;
  }
  Run-Account s h _ _ (arrives {arrived} {d} b bs r) =
      arrive-Tally d (Run-Account s h arrived d r) b bs
  Run-Account s h arrived _ (acts {d = d} {d' = d'} r x) =
      act-Tally d d' x (Run-Account s h arrived d r)

  -- Where nothing was lost and nothing answered in a call, the replies are in the order of arrival.
  pub in_order :
      (arrived : List Bytes) (log : List Spoken) (lost direct : List Bytes) (d : Device)
      → Tally arrived log lost direct d
      → lost ≡ []
      → direct ≡ []
      → answered log ++ (in_hand d.worker.taken ++ d.worker.queue) ≡ arrived
  in_order arrived log lost direct d a l n =
      ap (λ ts. ts ++ (in_hand d.worker.taken ++ d.worker.queue)) (Merge-right a.merged n)
      ∙ (Reachable-IsOrdered d.worker a.reached).in_order
      ∙ Split-accepted a.split l n
