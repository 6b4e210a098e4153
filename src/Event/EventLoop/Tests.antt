-- ===== src/Event/EventLoop/Tests.antt =====
-- A run of the loop: a task is queued while it waits.
use knpnl.Prelude.{◌≡◌, refl, inl, true, [], ◌++◌, arith, ℕ}
use knpnl.Event.EventLoop.{
  EventLoop, new, push_task, check_wakeup, wakeup, test_quit, poll_returned, take_tasks, run_task,
  pushes, checks, wakes, tests, polled, takes, runs, Reach, start, next, advance,
}
use knpnl.Event.EventLoop.Progress.{tasks_get_run}
use knpnl.Event.EventLoop.Wakeup.{no_lost_wakeup, tasks_in_order}

abbrev waiting : EventLoop
waiting = wakeup (check_wakeup (push_task (test_quit new) 7))

waiting-Reach : Reach waiting
unfolding new test_quit push_task check_wakeup wakeup
waiting-Reach =
    next (next (next (next start (tests refl)) (pushes 7)) (checks (omega arith)))
      (wakes (omega arith))

abbrev ran : EventLoop
ran = run_task (take_tasks (poll_returned waiting)) 7 []

ran-Reach : Reach ran
unfolding new test_quit push_task check_wakeup wakeup poll_returned take_tasks run_task
ran-Reach = next (next (next waiting-Reach (polled refl)) (takes refl)) (runs 7 [] refl refl)

no_lost_wakeup_example : waiting.edge ≡ true
unfolding new test_quit push_task check_wakeup wakeup
no_lost_wakeup_example = no_lost_wakeup waiting-Reach refl refl refl (inl (λ e. cc))

tasks_in_order_example :
    (ran.asked ≡ ran.done ++ (ran.batch ++ ran.tasks))
    × (ran.batch ≡ [] → ran.tasks ≡ [] → ran.done ≡ ran.asked)
tasks_in_order_example = tasks_in_order ran-Reach

tasks_get_run_example :
    (n : ℕ) × Reach (advance n waiting) × ((advance n waiting).done ≡ waiting.asked)
unfolding new test_quit push_task check_wakeup wakeup
tasks_get_run_example = tasks_get_run waiting-Reach refl refl refl
