-- ===== src/Event/LoopThreadPool/RoundRobin.antt =====
-- The order in which the loops are given out.
use knpnl.Prelude.{suc, ◌≤◌, ◌<◌, ◌≡◌, if◌then◌else◌, ltb, arith}
use knpnl.Event.LoopThreadPool.{LoopThreadPool, get_next_loop}

-- In a pool with at least one loop whose index is at most the number of loops, the loop that is
-- given out is one of the pool's, the next call gives the one behind it, or the first behind the
-- last, and the pool stays such a one.
pub get_next_loop-round :
    (p : LoopThreadPool)
    → 0 < p.thread_nums
    → p.index ≤ p.thread_nums
    → let (p', i) = get_next_loop p in
      (i < p.thread_nums)
      × (p'.index ≤ p'.thread_nums)
      × (p'.thread_nums ≡ p.thread_nums)
      × ((get_next_loop p').1 ≡ (if ltb (suc i) p.thread_nums then suc i else 0))
unfolding get_next_loop
get_next_loop-round p h i = ground arith
