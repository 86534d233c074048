-- ===== src/Worker/Order.antt =====
-- The order and the counters of core/posix/background_sched.c, over every interleaving of its steps.
use mathlib.Core.Path.{subst}
use mlink_device.Prelude.{
  ℕ, zero, suc, ◌≡◌, refl, sym, ap, ◌∙◌, Bool, true, false, Option, none, some, List, [], ◌∷◌, ◌++◌,
  length, length-append, arith, if◌then◌else◌,
}
use mlink_device.Worker.{
  Sched, enqueue, leaves, waits, turn_at, turn, act, finish_with, finish, stop, posts, picks, take,
  finishes, stops, Reachable, created, stepped, worker_main,
}

module _ {Task : Type 0} where
  append_assoc : (xs ys zs : List Task) → (xs ++ ys) ++ zs ≡ xs ++ (ys ++ zs)
  append_assoc [] ys zs = refl
  append_assoc (x ∷ xs) ys zs = ap (◌∷◌ x) (append_assoc xs ys zs)

  append_nil : (xs : List Task) → xs ++ [] ≡ xs
  append_nil [] = refl
  append_nil (x ∷ xs) = ap (◌∷◌ x) (append_nil xs)

  abbrev pub in_hand : Option Task → List Task
  in_hand none = []
  in_hand (some task) = task ∷ []

  -- The accepted tasks are the ones that ran, the one in the worker's hand and the queue, in this
  -- order, and the counters count the last two.
  pub record IsOrdered (s : Sched Task) : Type 0 where
    pub in_order : s.ran ++ (in_hand s.taken ++ s.queue) ≡ s.accepted
    pub pending_is : s.pending ≡ length s.queue
    pub active_is : s.active ≡ length (in_hand s.taken)

  enqueue-IsOrdered : (s : Sched Task) (task : Task) → IsOrdered s → IsOrdered (enqueue s task)
  unfolding enqueue
  enqueue-IsOrdered s task o = record {
    in_order =
        ap (◌++◌ s.ran) (sym (append_assoc (in_hand s.taken) s.queue (task ∷ [])))
        ∙ sym (append_assoc s.ran _ (task ∷ []))
        ∙ ap (λ ts. ts ++ task ∷ []) o.in_order;
    pending_is = omega (arith, o.pending_is, length-append s.queue (task ∷ []));
    active_is = o.active_is;
  }

  take-IsOrdered :
      (s : Sched Task) (task : Task) (rest : List Task)
      → s.taken ≡ none
      → s.queue ≡ task ∷ rest
      → IsOrdered s
      → IsOrdered (take s task rest)
  unfolding take
  take-IsOrdered s task rest idle e o = record {
    in_order =
        sym (
          ap (λ ts. s.ran ++ (in_hand s.taken ++ ts)) e
          ∙ ap (λ t. s.ran ++ (in_hand t ++ task ∷ rest)) idle)
        ∙ o.in_order;
    pending_is = omega (arith, o.pending_is ∙ ap length e);
    active_is = omega (arith, o.active_is ∙ ap (λ t. length (in_hand t)) idle);
  }

  finish_with-IsOrdered :
      (s : Sched Task) (t : Option Task) → s.taken ≡ t → IsOrdered s → IsOrdered (finish_with s t)
  finish_with-IsOrdered s none e o = o
  finish_with-IsOrdered s (some task) e o = record {
    in_order =
        append_assoc s.ran (task ∷ []) s.queue
        ∙ sym (ap (λ t. s.ran ++ (in_hand t ++ s.queue)) e)
        ∙ o.in_order;
    pending_is = o.pending_is;
    active_is = omega (arith, o.active_is ∙ ap (λ t. length (in_hand t)) e);
  }

  finish-IsOrdered : (s : Sched Task) → IsOrdered s → IsOrdered (finish s)
  unfolding finish
  finish-IsOrdered s o = finish_with-IsOrdered s s.taken refl o

  stop-IsOrdered : (s : Sched Task) → IsOrdered s → IsOrdered (stop s)
  unfolding stop
  stop-IsOrdered s o = record {
    in_order = o.in_order;
    pending_is = o.pending_is;
    active_is = o.active_is;
  }

  -- In every state that posts, the worker and `bg_sched_destroy` can reach, in any interleaving,
  -- the accepted tasks are the ones that ran, then the one in the worker's hand, then the queue,
  -- in the order of their posts; `pending` is the length of the queue, and `active` is one with a
  -- task in the worker's hand and else zero.
  pub Reachable-IsOrdered : (s : Sched Task) → Reachable s → IsOrdered s
  Reachable-IsOrdered s created = record { in_order = refl; pending_is = refl; active_is = refl }
  Reachable-IsOrdered s (stepped r (posts s' task)) =
      enqueue-IsOrdered s' task (Reachable-IsOrdered s' r)
  Reachable-IsOrdered s (stepped r (picks s' task rest idle e)) =
      take-IsOrdered s' task rest idle e (Reachable-IsOrdered s' r)
  Reachable-IsOrdered s (stepped r (finishes s')) = finish-IsOrdered s' (Reachable-IsOrdered s' r)
  Reachable-IsOrdered s (stepped r (stops s')) = stop-IsOrdered s' (Reachable-IsOrdered s' r)

  -- The worker left, and all that was accepted has run.
  pub record Drained (accepted : List Task) (r : Bool × Sched Task) : Type 0 where
    pub left : r.0 ≡ true
    pub ran_all : r.1.ran ≡ accepted
    pub none_queued : r.1.queue ≡ []
    pub none_active : r.1.active ≡ 0

  drained :
      (n : ℕ) (s : Sched Task) (queue : List Task)
      → s.queue ≡ queue
      → length queue ≡ n
      → s.taken ≡ none
      → s.running ≡ false
      → IsOrdered s
      → Drained s.accepted (worker_main (suc n) s)
  unfolding worker_main turn finish take
  drained n s [] e l idle stopped o =
      subst (λ q. Drained s.accepted (act (turn_at s q) s (λ s'. worker_main n (finish s'))))
        (sym e)
        (subst
          (λ b.
            Drained s.accepted
              (act (if b then waits else leaves) s (λ s'. worker_main n (finish s'))))
          (sym stopped)
          (record {
            left = refl;
            ran_all =
                sym (append_nil s.ran)
                ∙ ap (λ ts. s.ran ++ ts) (sym (ap (λ t. in_hand t ++ s.queue) idle ∙ e))
                ∙ o.in_order;
            none_queued = e;
            none_active = o.active_is ∙ ap (λ t. length (in_hand t)) idle;
          }))
  drained zero s (task ∷ rest) e l idle stopped o = absurd (omega arith)
  drained (suc n) s (task ∷ rest) e l idle stopped o =
      subst (λ q. Drained s.accepted (act (turn_at s q) s (λ s'. worker_main (suc n) (finish s'))))
        (sym e)
        (drained n (finish (take s task rest)) rest refl (omega arith) refl stopped
          (finish-IsOrdered _ (take-IsOrdered s task rest idle e o)))

  -- When `bg_sched_destroy` stops the worker between two tasks, in any state the code can reach,
  -- the worker leaves after at most one round for each queued task and one more; by then every
  -- accepted task has run, in the order of the posts, and nothing is queued or active.
  pub stop-Drained :
      (s : Sched Task)
      → Reachable s
      → s.taken ≡ none
      → Drained s.accepted (worker_main (suc (length s.queue)) (stop s))
  unfolding stop
  stop-Drained s r idle =
      drained (length s.queue) (stop s) s.queue refl refl idle refl
        (stop-IsOrdered s (Reachable-IsOrdered s r))
