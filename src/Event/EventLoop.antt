-- ===== src/Event/EventLoop.antt =====
-- event/EventLoop.cpp: the task queue of a loop and the wake-up of its thread, as steps of the
-- loop's thread and of the callers of `QueueInLoop` and `Quit` in any order. A read or a write of
-- a shared variable is one step; the critical sections of `mMutex` are one step each.
pub mod Progress
pub mod Quitting
pub mod Wakeup
mod Tests
use knpnl.Prelude.{
  ℕ, zero, suc, ◌+◌, ◌-◌, ◌<◌, ◌≡◌, ◌≢◌, Bool, true, false, List, [], ◌∷◌, ◌++◌, if◌then◌else◌,
}

-- Where the loop's thread stands: before `while (!mQuit)`, in `poll`, between `isWakeup = true`
-- and the swap of `doTask`, in the `for` of `doTask`, and behind the loop.
pub data Phase : Type 0 where
  testing polling handling running stopped : Phase

-- `edge` is the readiness of `mWakeupFd` that `epoll_wait` has not reported yet (EPOLLET).
-- `checking` callers have pushed their task or set `mQuit` and have not read `isWakeup`;
-- `waking` callers have read `false` and have not written to `mWakeupFd`.
-- `asked` and `done` record the tasks that were queued and those that were run, oldest first.
pub record EventLoop : Type 0 where
  pub phase : Phase
  pub tasks : List ℕ
  pub batch : List ℕ
  pub is_wakeup : Bool
  pub quit : Bool
  pub edge : Bool
  pub checking : ℕ
  pub waking : ℕ
  pub asked : List ℕ
  pub done : List ℕ

-- The constructor.
unfoldable pub new : EventLoop
new = record {
  phase = testing;
  tasks = [];
  batch = [];
  is_wakeup = false;
  quit = false;
  edge = false;
  checking = 0;
  waking = 0;
  asked = [];
  done = [];
}

-- `QueueInLoop`, its critical section.
unfoldable pub push_task : EventLoop → ℕ → EventLoop
push_task l t = record l {
  tasks = l.tasks ++ (t ∷ []);
  asked = l.asked ++ (t ∷ []);
  checking = suc l.checking;
}

-- `Quit`, its assignment.
unfoldable pub set_quit : EventLoop → EventLoop
set_quit l = record l { quit = true; checking = suc l.checking }

-- `if (isWakeup == false)` of both.
unfoldable pub check_wakeup : EventLoop → EventLoop
check_wakeup l =
    if l.is_wakeup
    then record l { checking = l.checking - 1 }
    else record l { checking = l.checking - 1; waking = suc l.waking }

-- `wakeup`: the write to `mWakeupFd`.
unfoldable pub wakeup : EventLoop → EventLoop
wakeup l = record l { waking = l.waking - 1; edge = true }

-- `while (!mQuit)`
unfoldable pub test_quit : EventLoop → EventLoop
test_quit l = if l.quit then record l { phase = stopped } else record l { phase = polling }

-- `poll` returns, because of `mWakeupFd` or of another channel; then `isWakeup = true`.
unfoldable pub poll_returned : EventLoop → EventLoop
poll_returned l = record l { phase = handling; is_wakeup = true; edge = false }

-- `doTask`, its critical section.
unfoldable pub take_tasks : EventLoop → EventLoop
take_tasks l = record l { phase = running; batch = l.tasks; tasks = []; is_wakeup = false }

-- `for (TaskFunc t : tasks) t();`
unfoldable pub run_task : EventLoop → ℕ → List ℕ → EventLoop
run_task l t rest = record l { batch = rest; done = l.done ++ (t ∷ []) }

unfoldable pub end_round : EventLoop → EventLoop
end_round l = record l { phase = testing }

-- One step of a caller, or of the loop's thread. `polled` with `edge` false is the return of
-- `poll` for another channel. A task or a handler that calls `QueueInLoop` or `Quit` on its own
-- loop is one of the callers.
pub data Step (l : EventLoop) : EventLoop → Type 0 where
  pushes : (t : ℕ) → Step l (push_task l t)
  quits : Step l (set_quit l)
  checks : 0 < l.checking → Step l (check_wakeup l)
  wakes : 0 < l.waking → Step l (wakeup l)
  tests : l.phase ≡ testing → Step l (test_quit l)
  polled : l.phase ≡ polling → Step l (poll_returned l)
  takes : l.phase ≡ handling → Step l (take_tasks l)
  runs :
      (t : ℕ) (rest : List ℕ) → l.phase ≡ running → l.batch ≡ t ∷ rest → Step l (run_task l t rest)
  rounds : l.phase ≡ running → l.batch ≡ [] → Step l (end_round l)

-- `Loop` alone: the next step of the loop's thread. In `poll` with nothing to report it waits.
unfoldable pub loop_step : EventLoop → EventLoop
loop_step l = by_phase l.phase l.batch
  where
    by_phase : Phase → List ℕ → EventLoop
    by_phase testing b = test_quit l
    by_phase polling b = if l.edge then poll_returned l else l
    by_phase handling b = take_tasks l
    by_phase running [] = end_round l
    by_phase running (t ∷ rest) = run_task l t rest
    by_phase stopped b = l

unfoldable pub advance : ℕ → EventLoop → EventLoop
advance zero l = l
advance (suc n) l = advance n (loop_step l)

pub data Reach : EventLoop → Type 0 where
  start : Reach new
  next : {l m : EventLoop} → Reach l → Step l m → Reach m
