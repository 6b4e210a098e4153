-- ===== src/ThreadPool/Queue.antt =====
-- base/ThreadPool.cpp: the bound and the order of the queue of a thread pool.
use mathlib.Core.List.{append_assoc}
use knpnl.Prelude.{ℕ, ◌≤◌, ◌≡◌, refl, List, [], ◌∷◌, ◌++◌, length, length-append, arith}
use knpnl.ThreadPool.{
  ThreadPool, start, add_task, take_task, test_running, stop, joined, Step, calls, adds, takes,
  tests, ends, wakes, unblocks, stops, joins, Reach, here, next,
}

-- The queue is within its bound, and the tasks that were pushed are those that were popped and then
-- those in the queue.
pub record Orderly (p : ThreadPool) : Type 0 where
  pub bounded : length p.tasks ≤ p.q_size
  pub in_order : p.added ≡ p.taken ++ p.tasks

add_task-Orderly : (p : ThreadPool) (j t i : ℕ) → Orderly p → Orderly (add_task p j t i)
unfolding add_task
add_task-Orderly p j t i v =
    ground (arith, length-append p.tasks (t ∷ []), append_assoc p.taken p.tasks (t ∷ []))

take_task-Orderly :
    (p : ThreadPool) (i : ℕ) (ts : List ℕ) (j : ℕ)
    → p.tasks ≡ ts
    → Orderly p
    → Orderly (take_task p i ts j)
unfolding take_task
take_task-Orderly p i [] j e v = ground arith
take_task-Orderly p i (t ∷ ts) j e v = ground (arith, append_assoc p.taken (t ∷ []) ts)

Step-Orderly : {p q : ThreadPool} → Step p q → Orderly p → Orderly q
unfolding test_running stop joined
Step-Orderly (calls j t e) v = record { bounded = v.bounded; in_order = v.in_order }
Step-Orderly {p} (adds j t i l e c) v = add_task-Orderly p j t i v
Step-Orderly {p} (takes i j l n e c) v = take_task-Orderly p i p.tasks j refl v
Step-Orderly (tests i n e) v = ground arith
Step-Orderly (ends i t n e) v = record { bounded = v.bounded; in_order = v.in_order }
Step-Orderly (wakes i n e) v = record { bounded = v.bounded; in_order = v.in_order }
Step-Orderly (unblocks j t e) v = record { bounded = v.bounded; in_order = v.in_order }
Step-Orderly (stops e) v = record { bounded = v.bounded; in_order = v.in_order }
Step-Orderly (joins i e l) v = record { bounded = v.bounded; in_order = v.in_order }

start-Orderly : (n s : ℕ) → Orderly (start n s)
unfolding start
start-Orderly n s = record { bounded = omega arith; in_order = refl }

-- In every state that may follow `Start`, whatever the producers, the workers and the thread that
-- stops the pool do: the queue holds at most `qSize` tasks, and the tasks that were added are
-- those that were taken followed by those in the queue, in this order.
pub Reach-Orderly : (n s : ℕ) {p : ThreadPool} → Reach (start n s) p → Orderly p
Reach-Orderly n s here = start-Orderly n s
Reach-Orderly n s (next r st) = Step-Orderly st (Reach-Orderly n s r)
