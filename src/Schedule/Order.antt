-- ===== src/Schedule/Order.antt =====
-- The order in which core/posix/schedule.c runs its tasks.
use mathlib.Core.List.{append-nil, append_assoc}
use mathlib.Core.Path.{subst}
use mlink_device.Prelude.{
  ℕ, zero, suc, ◌+◌, ◌≤◌, ◌≡◌, refl, sym, ap, ◌∙◌, Bool, true, false, some, List, [], ◌∷◌, ◌++◌,
  length, arith,
}
use mlink_device.Memory.{Heap}
use mlink_device.Memory as Memory
use mlink_device.DynList.Add.{Balanced}
use mlink_device.DynList.Free.{free-block}
use mlink_device.Schedule.{
  Schedule, Effect, free_tasks, destroy, append_node, post_all, call, rounds, run,
}

module _ {Task : Type 0} where
  append_node_lem : (ts : List Task) (t : Task) → append_node ts t ≡ ts ++ t ∷ []
  unfolding append_node
  append_node_lem [] t = refl
  append_node_lem (u ∷ ts) t = ap (◌∷◌ u) (append_node_lem ts t)

  post_all_lem : (queue ts : List Task) → post_all queue ts ≡ queue ++ ts
  post_all_lem queue [] = sym (append-nil queue)
  post_all_lem queue (t ∷ ts) =
      post_all_lem (append_node queue t) ts
      ∙ ap (λ q. q ++ ts) (append_node_lem queue t)
      ∙ append_assoc queue (t ∷ []) ts

  module _ (effect : Task → Effect Task) where
    -- What the tasks of a list post, in the order in which they run.
    abbrev pub posted_by : List Task → List Task
    posted_by [] = []
    posted_by (t ∷ ts) = (effect t).posts ++ posted_by ts

    -- First in, first out: `now` has run `more` tasks since `before`, and no task is lost or overtaken.
    pub record Progress (before now : Schedule Task) (more : List Task) : Type 0 where
      pub ran_more : now.ran ≡ before.ran ++ more
      pub in_order : more ++ now.task_queue ≡ before.task_queue ++ posted_by more

    step-Progress :
        (s now : Schedule Task) (task : Task) (rest more : List Task)
        → s.task_queue ≡ task ∷ rest
        → Progress (call effect s task rest) now more
        → Progress s now (task ∷ more)
    unfolding call
    step-Progress s now task rest more e p = record {
      ran_more = p.ran_more ∙ append_assoc s.ran (task ∷ []) more;
      in_order =
          ap (◌∷◌ task) (
            p.in_order
            ∙ ap (λ q. q ++ posted_by more) (post_all_lem rest (effect task).posts)
            ∙ append_assoc rest (effect task).posts (posted_by more))
          ∙ ap (λ q. q ++ posted_by (task ∷ more)) (sym e);
    }

    stay-Progress : (s : Schedule Task) → Progress s s []
    stay-Progress s = record {
      ran_more = sym (append-nil s.ran);
      in_order = sym (append-nil s.task_queue);
    }

    rounds-Progress :
        (again : Schedule Task → Schedule Task) (s : Schedule Task) (queue : List Task)
        (running : Bool)
        → s.task_queue ≡ queue
        → ((s' : Schedule Task) → (more : List Task) × Progress s' (again s') more)
        → (more : List Task) × Progress s (rounds effect again s queue running) more
    rounds-Progress again s [] running e ih = ([], stay-Progress s)
    rounds-Progress again s (task ∷ rest) false e ih = ([], stay-Progress s)
    rounds-Progress again s (task ∷ rest) true e ih =
        let (more, p) = ih (call effect s task rest) in
        (task ∷ more, step-Progress s _ task rest more e p)

    -- For callbacks with any effect and any number of rounds, `schedule_run` runs tasks in the
    -- order of a queue: the tasks that ran since, followed by those still queued, are the tasks
    -- that were queued, followed by what those that ran have posted, in their order.
    pub run-Progress :
        (fuel : ℕ) (s : Schedule Task) → (more : List Task) × Progress s (run effect fuel s) more
    unfolding run
    run-Progress zero s = ([], stay-Progress s)
    run-Progress (suc fuel) s =
        rounds-Progress (run effect fuel) s s.task_queue s.running refl (run-Progress fuel)

    -- Every task in the queue, and nothing else, has run.
    pub record Finished (before now : Schedule Task) : Type 0 where
      pub ran_all : now.ran ≡ before.ran ++ before.task_queue
      pub none_left : now.task_queue ≡ []

    finished :
        (queue : List Task) (fuel : ℕ) (s : Schedule Task)
        → s.task_queue ≡ queue
        → s.running ≡ true
        → ((task : Task) → (effect task).posts ≡ [])
        → ((task : Task) → (effect task).keeps_running ≡ true)
        → length queue ≤ fuel
        → Finished s (run effect fuel s)
    unfolding run call
    finished [] zero s e r quiet keep enough = record {
      ran_all = sym (ap (λ q. s.ran ++ q) e ∙ append-nil s.ran);
      none_left = e;
    }
    finished [] (suc fuel) s e r quiet keep enough =
        subst (λ q. Finished s (rounds effect (run effect fuel) s q s.running)) (sym e)
          (record { ran_all = sym (ap (λ q. s.ran ++ q) e ∙ append-nil s.ran); none_left = e })
    finished (task ∷ rest) zero s e r quiet keep enough = absurd (omega arith)
    finished (task ∷ rest) (suc fuel) s e r quiet keep enough =
        subst (λ q. Finished s (rounds effect (run effect fuel) s q s.running)) (sym e)
          (subst (λ b. Finished s (rounds effect (run effect fuel) s (task ∷ rest) b)) (sym r)
            (let next =
                finished rest fuel (call effect s task rest) (ap (post_all rest) (quiet task))
                  (keep task) quiet keep (omega arith) in
              record {
                ran_all =
                    next.ran_all
                    ∙ append_assoc s.ran (task ∷ []) _
                    ∙ ap (λ q. s.ran ++ task ∷ post_all rest q) (quiet task)
                    ∙ ap (λ q. s.ran ++ q) (sym e);
                none_left = next.none_left;
              }))

    -- On a running schedule, if no callback posts a task or stops the schedule, as many rounds as
    -- there are tasks run each of them once, in order, and leave none.
    pub run-Finished :
        (s : Schedule Task)
        → s.running ≡ true
        → ((task : Task) → (effect task).posts ≡ [])
        → ((task : Task) → (effect task).keeps_running ≡ true)
        → Finished s (run effect (length s.task_queue) s)
    run-Finished s r quiet keep =
        finished s.task_queue (length s.task_queue) s refl r quiet keep (omega arith)

  free_tasks-Balanced :
      (tasks : List Task) (h : Heap) → Balanced h (length tasks) (free_tasks tasks h).1 0
  unfolding free_tasks
  free_tasks-Balanced [] h = omega arith
  free_tasks-Balanced (t ∷ ts) h =
      omega (arith, free-block (some t) h, free_tasks-Balanced ts (Memory.free (some t) h).1)

  pub destroy_gives_back :
      (s : Schedule Task) (h : Heap) → Balanced h (length s.task_queue + 1) (destroy (some s) h).1 0
  unfolding destroy
  destroy_gives_back s h =
      omega (
        arith,
        free_tasks-Balanced s.task_queue h,
        free-block (some s) (free_tasks s.task_queue h).1,
      )
