-- ===== src/Event/LoopThreadPool.antt =====
-- event/LoopThreadPool.h and LoopThreadPool.cpp: the loops of the worker threads, given out in turn.
pub mod RoundRobin
pub mod Destruction
mod Tests
use knpnl.Prelude.{
  ℕ, zero, suc, Bool, true, false, Option, none, some, List, [], ◌∷◌, if◌then◌else◌, leb,
}
use knpnl.Event.LoopThread.{LoopThread, stop, destroy}

-- `mThreadNums`, and the static `index` of `getNextLoop`.
pub record LoopThreadPool : Type 0 where
  pub thread_nums : ℕ
  pub index : ℕ

unfoldable pub new : ℕ → LoopThreadPool
new nums = record { thread_nums = nums; index = 0 }

-- `getNextLoop()`: the pool, and the place of the loop in `mLoopList`.
unfoldable pub get_next_loop : LoopThreadPool → LoopThreadPool × ℕ
get_next_loop p =
    let i = if leb p.thread_nums p.index then 0 else p.index in (record p { index = suc i }, i)

-- A thread with the number of steps that it makes until its `join` is looked at.
unfoldable pub stop_after : ℕ × LoopThread → Option LoopThread
unfolding stop
stop_after (n, t) = stop n t

-- The loop of `~LoopThreadPool()` over `mLoopList`.
unfoldable pub stop_all : List (ℕ × LoopThread) → Option (List LoopThread)
unfolding stop_after
stop_all [] = some []
stop_all (t ∷ ts) =
    let rest = stop_all ts in
    elim (stop_after t) [
      | none ↦ none
      | some t' ↦ (elim rest [ none ↦ none | some ts' ↦ some (t' ∷ ts') ])
    ]

-- The destruction of `mLoopList`, which destroys each of its threads.
unfoldable pub destroy_all : List LoopThread → Option (List LoopThread)
unfolding destroy
destroy_all [] = some []
destroy_all (t ∷ ts) =
    let rest = destroy_all ts in
    elim (destroy t) [
      | none ↦ none
      | some t' ↦ (elim rest [ none ↦ none | some ts' ↦ some (t' ∷ ts') ])
    ]
