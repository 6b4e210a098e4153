-- ===== src/Event/EventLoop/Wakeup.antt =====
-- event/EventLoop.cpp: the wake-up protocol between the callers of `QueueInLoop` and `Quit` and the
-- loop's thread, and the order of the tasks.
use mathlib.Core.List.{append_assoc, append-nil}
use knpnl.Prelude.{◌<◌, ◌≡◌, ◌≢◌, ◌⊎◌, true, false, [], ◌∷◌, ◌++◌, arith}
use knpnl.Event.EventLoop.{
  EventLoop, polling, handling, running, stopped, new, push_task, set_quit, check_wakeup, wakeup,
  test_quit, poll_returned, take_tasks, run_task, end_round, Step, pushes, quits, checks, wakes,
  tests, polled, takes, runs, rounds, Reach, start, next,
}

-- Someone has seen to it that `poll` will return.
abbrev Signalled : EventLoop → Type 0
Signalled l = (l.edge ≡ true) ⊎ ((0 < l.checking) ⊎ (0 < l.waking))

-- `isWakeup` is set only while the handlers run; a batch is there only while it is run; tasks
-- that no `doTask` will take before the next `poll`, and a `Quit` that the loop has not seen, are
-- signalled; the loop stops only for a `Quit`; and the tasks that were queued are those that were run, those being run and those
-- that wait, in that order.
pub record Inv (l : EventLoop) : Type 0 where
  pub flag : (l.is_wakeup ≡ false) ⊎ (l.phase ≡ handling)
  pub quiet : (l.batch ≡ []) ⊎ (l.phase ≡ running)
  pub tasks_seen : (l.tasks ≡ []) ⊎ ((l.phase ≡ handling) ⊎ Signalled l)
  pub quit_seen : (l.quit ≡ false) ⊎ ((l.phase ≢ polling) ⊎ Signalled l)
  pub ended : (l.phase ≢ stopped) ⊎ (l.quit ≡ true)
  pub in_order : l.asked ≡ l.done ++ (l.batch ++ l.tasks)

new-Inv : Inv new
unfolding new
new-Inv = ground arith

pub Step-Inv : {l m : EventLoop} → Step l m → Inv l → Inv m
unfolding push_task set_quit check_wakeup wakeup test_quit poll_returned take_tasks run_task
    end_round
Step-Inv {l} (pushes t) v = ground (
  arith,
  append_assoc l.batch l.tasks (t ∷ []),
  append_assoc l.done (l.batch ++ l.tasks) (t ∷ []),
)
Step-Inv {l} quits v = ground arith
Step-Inv {l} (checks h) v = ground arith
Step-Inv {l} (wakes h) v = ground arith
Step-Inv {l} (tests e) v = ground arith
Step-Inv {l} (polled e) v = ground arith
Step-Inv {l} (takes e) v = ground (arith, append-nil l.tasks)
Step-Inv {l} (runs t rest e b) v = ground (arith, append_assoc l.done (t ∷ []) (rest ++ l.tasks))
Step-Inv {l} (rounds e b) v = ground arith

pub Reach-Inv : {l : EventLoop} → Reach l → Inv l
Reach-Inv start = new-Inv
Reach-Inv (next r s) = Step-Inv s (Reach-Inv r)

-- No wake-up is lost: in each reachable state, when the loop's thread waits in `poll` and no
-- caller is between its push (or its `mQuit = true`) and its write, then a task that waits, or a
-- quit that was asked for, has made `mWakeupFd` ready, so that `poll` returns.
pub no_lost_wakeup :
    {l : EventLoop}
    → Reach l
    → l.phase ≡ polling
    → l.checking ≡ 0
    → l.waking ≡ 0
    → (l.tasks ≢ []) ⊎ (l.quit ≡ true)
    → l.edge ≡ true
no_lost_wakeup r e c w h = let v = Reach-Inv r in ground (arith, v)

-- Queued tasks are run in the order in which they were queued, each once: in each reachable state
-- the tasks that were queued are those that were run, then those being run, then those that wait;
-- when nothing is left, all were run.
pub tasks_in_order :
    {l : EventLoop}
    → Reach l
    → (l.asked ≡ l.done ++ (l.batch ++ l.tasks)) × (l.batch ≡ [] → l.tasks ≡ [] → l.done ≡ l.asked)
tasks_in_order {l} r =
    let v = Reach-Inv r in (v.in_order, λ b t. ground (arith, v.in_order, append-nil l.done))
