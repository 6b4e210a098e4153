-- ===== src/ThreadPool/Tests.antt =====
-- Runs of a pool with one worker and room for one task.
use knpnl.Prelude.{ℕ, ◌<◌, ◌≡◌, inl, refl, true, arith}
use knpnl.ThreadPool.{
  Worker, testing, taking, sleeping, working, left, outside, adding, Stopper, before, stopped,
  ThreadPool, start, set_worker, set_producer, is_sleeping, is_joining, add_task, take_task,
  test_running, stop, joined, Step, calls, adds, takes, tests, stops, joins, Reach, here, next,
}
use knpnl.ThreadPool
use knpnl.ThreadPool.Queue.{Orderly, Reach-Orderly}
use knpnl.ThreadPool.Sleep.{is_awake, waiting_task}
use knpnl.ThreadPool.Stop.{stop_hangs}
use knpnl.ThreadPool.Joined.{stopped_workers}

-- The worker is at the lock, and a producer has added the task 5.
abbrev one_task : ThreadPool
one_task = add_task (set_producer (test_running (start 1 1) 0) 0 (adding 5)) 0 5 0

one_task-Reach : Reach (start 1 1) one_task
unfolding start test_running
one_task-Reach =
    next (next (next here (tests 0 (omega arith) refl)) (calls 0 5 refl))
      (adds 0 5 0 refl refl (ThreadPool.Picked.nobody (λ k l. ground arith)))

Reach-Orderly_example : Orderly one_task
Reach-Orderly_example = Reach-Orderly 1 1 one_task-Reach

waiting_task_example : (i : ℕ) × (i < one_task.workers) × (is_awake (one_task.worker i) ≡ true)
unfolding add_task start test_running
waiting_task_example = waiting_task 1 1 (omega arith) one_task-Reach refl (ground arith)

-- The pool is stopped while its worker is in `take`.
abbrev in_take : ThreadPool
in_take = test_running (start 1 1) 0

stop_hangs_example :
    (is_joining (set_producer (stop in_take) 0 (adding 5)).stopper ≡ true)
    × ((set_producer (stop in_take) 0 (adding 5)).tasks ≡ in_take.tasks)
unfolding start test_running stop
stop_hangs_example = stop_hangs in_take 0 (omega arith) (inl refl) (next here (calls 0 5 refl))

-- The pool is stopped before its worker tests `isRunning`.
abbrev all_joined : ThreadPool
all_joined = joined (test_running (stop (start 1 1)) 0) 0

all_joined-Reach : Reach (start 1 1) all_joined
unfolding start test_running stop
all_joined-Reach =
    next (next (next here (stops refl)) (tests 0 (omega arith) refl)) (joins 0 refl refl)

stopped_workers_example : all_joined.worker 0 ≡ left
unfolding start test_running stop joined
stopped_workers_example = stopped_workers 1 1 all_joined-Reach refl 0 (omega arith)
