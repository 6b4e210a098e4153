-- ===== src/Event/LoopThread.antt =====
-- event/LoopThread.h and LoopThread.cpp: a thread that builds a loop and runs it.
pub mod Stopping
use knpnl.Prelude.{ℕ, Bool, true, false, Option, none, some, if◌then◌else◌}
use knpnl.Event.EventLoop.{
  Phase, testing, polling, handling, running, stopped, EventLoop, set_quit, check_wakeup, wakeup,
  advance,
}
use knpnl.Event.EventLoop

-- `mLoop` (`none` is the null pointer) and `mStop`. The loop is a local variable of `threadFunc`: once
-- it has stopped, the pointer leads nowhere.
pub record LoopThread : Type 0 where
  pub loop : Option EventLoop
  pub is_stop : Bool

-- The constructor; the thread has not built its loop yet.
unfoldable pub new : LoopThread
new = record { loop = none; is_stop = false }

-- `threadFunc`, up to the `Loop()` of its loop.
unfoldable pub thread_func : LoopThread → LoopThread
thread_func t = record t { loop = some EventLoop.new }

-- `GetLoop()`
unfoldable pub get_loop : LoopThread → Option EventLoop
get_loop t = t.loop

-- `mLoop->`: the loop that the pointer leads to, while it is there.
unfoldable pub unless_ended : EventLoop → Phase → Option EventLoop
unless_ended l stopped = none
unless_ended l testing = some l
unless_ended l polling = some l
unless_ended l handling = some l
unless_ended l running = some l

unfoldable pub pointed : LoopThread → Option EventLoop
unfolding unless_ended
pointed t = elim t.loop [ none ↦ none | some l ↦ unless_ended l l.phase ]

-- `EventLoop::Quit()` where nothing comes between its steps.
unfoldable pub quit : EventLoop → EventLoop
unfolding set_quit check_wakeup wakeup
quit l = let asked = check_wakeup (set_quit l) in if l.is_wakeup then asked else wakeup asked

-- `join()` has returned: the loop of the thread has ended.
unfoldable pub join : LoopThread → EventLoop → Phase → Option LoopThread
join t l stopped = some (record t { loop = some l; is_stop = true })
join t l testing = none
join t l polling = none
join t l handling = none
join t l running = none

-- `Stop()`, where the thread makes `n` steps until the `join` is looked at. `none` is a call
-- through the null pointer or through a pointer to a loop that has ended, or a `join` that has not
-- returned yet.
unfoldable pub stop : ℕ → LoopThread → Option LoopThread
unfolding pointed quit join
stop n t = elim (pointed t) [
  | none ↦ none
  | some l ↦ (let after = advance n (quit l) in join t after after.phase)
]

-- `~LoopThread()`, up to `~Thread`. `none` is a call through the null pointer or through a pointer to
-- a loop that has ended.
unfoldable pub destroy : LoopThread → Option LoopThread
unfolding pointed quit
destroy t = elim (pointed t) [ none ↦ none | some l ↦ some (record t { loop = some (quit l) }) ]
