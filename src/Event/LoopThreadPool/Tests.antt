-- ===== src/Event/LoopThreadPool/Tests.antt =====
-- A pool of two threads is destroyed.
use knpnl.Prelude.{ℕ, ◌≡◌, refl, arith, false, none, some, List, [], ◌∷◌, map}
use knpnl.Event.EventLoop.{EventLoop, test_quit, tests, Reach, start, next}
use knpnl.Event.EventLoop
use knpnl.Event.LoopThread.{LoopThread}
use knpnl.Event.LoopThreadPool.{stop_all, destroy_all}
use knpnl.Event.LoopThreadPool.Destruction.{IsBuilt, stop_all-destroy_all}

abbrev polls : EventLoop
polls = test_quit EventLoop.new

polls-Reach : Reach polls
unfolding EventLoop.new
polls-Reach = next start (tests refl)

abbrev thread : LoopThread
thread = record { loop = some polls; is_stop = false }

thread-IsBuilt : IsBuilt thread
unfolding EventLoop.new test_quit
thread-IsBuilt = record {
  loop = polls;
  known = refl;
  runs = ground arith;
  reached = polls-Reach;
  no_check = refl;
  no_wake = refl;
}

stop_all-destroy_all_example :
    (run : List (ℕ × LoopThread)) × (ts : List LoopThread) × (map (λ r. r.1) run
      ≡ thread ∷ thread ∷ [])
    × (stop_all run ≡ some ts)
    × (destroy_all ts ≡ none)
stop_all-destroy_all_example =
    stop_all-destroy_all thread (thread ∷ []) (thread-IsBuilt, (thread-IsBuilt, tt))
