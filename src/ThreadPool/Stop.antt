-- ===== src/ThreadPool/Stop.antt =====
-- base/ThreadPool.cpp, `Stop`: it joins the workers while it holds the lock that they take.
use knpnl.Prelude.{ℕ, suc, ◌≤◌, ◌<◌, ◌≡◌, ◌⊎◌, inl, refl, ◌∙◌, true, List, arith}
use knpnl.ThreadPool.{
  taking, sleeping, joining, ThreadPool, is_joining, test_running, stop, joined, Step, calls, adds,
  takes, tests, ends, wakes, unblocks, stops, joins, Reach, here, next,
}

-- `Stop` is at the join of the worker `w` or of one before it, and `w` waits for the lock or for a
-- task.
record Stuck (w : ℕ) (ts : List ℕ) (p : ThreadPool) : Type 0 where
  at : ℕ
  is_at : p.stopper ≡ joining at
  not_past : at ≤ w
  is_worker : w < p.workers
  in_take : (p.worker w ≡ taking) ⊎ (p.worker w ≡ sleeping)
  same_tasks : p.tasks ≡ ts

stop-Stuck :
    (p : ThreadPool) (w : ℕ)
    → w < p.workers
    → (p.worker w ≡ taking) ⊎ (p.worker w ≡ sleeping)
    → Stuck w p.tasks (stop p)
unfolding stop
stop-Stuck p w l c = record {
  at = 0;
  is_at = ground arith;
  not_past = omega arith;
  is_worker = l;
  in_take = inl (ground arith);
  same_tasks = refl;
}

-- Another worker moves.
others-Stuck :
    {w : ℕ} {ts : List ℕ} (p q : ThreadPool)
    → q.stopper ≡ p.stopper
    → q.workers ≡ p.workers
    → q.tasks ≡ p.tasks
    → ((p.worker w ≡ taking) ⊎ (p.worker w ≡ sleeping)
        → (q.worker w ≡ taking) ⊎ (q.worker w ≡ sleeping))
    → Stuck w ts p
    → Stuck w ts q
others-Stuck p q e f g c v = record {
  at = v.at;
  is_at = e ∙ v.is_at;
  not_past = v.not_past;
  is_worker = rw f v.is_worker;
  in_take = c v.in_take;
  same_tasks = g ∙ v.same_tasks;
}

Step-Stuck : {w : ℕ} {ts : List ℕ} {p q : ThreadPool} → Step p q → Stuck w ts p → Stuck w ts q
unfolding test_running stop joined
Step-Stuck {p = p} (calls j t e) v = others-Stuck p _ refl refl refl (λ c. c) v
Step-Stuck {p = p} (adds j t i l e c) v = absurd (ground (arith, v.is_at))
Step-Stuck {p = p} (takes i j l n e c) v = absurd (ground (arith, v.is_at))
Step-Stuck {p = p} (tests i n e) v =
    others-Stuck p _ (ground arith) (ground arith) (ground arith) (ground arith) v
Step-Stuck {p = p} (ends i t n e) v = others-Stuck p _ refl refl refl (λ c. ground arith) v
Step-Stuck {p = p} (wakes i n e) v = others-Stuck p _ refl refl refl (λ c. ground arith) v
Step-Stuck {p = p} (unblocks j t e) v = others-Stuck p _ refl refl refl (λ c. c) v
Step-Stuck {p = p} (stops e) v = absurd (ground (arith, v.is_at))
Step-Stuck {w} {p = p} (joins i e l) v = record {
  at = suc i;
  is_at = ground (arith, v.is_at, v.in_take, v.not_past);
  not_past = ground (arith, v.is_at, v.in_take, v.not_past);
  is_worker = v.is_worker;
  in_take = v.in_take;
  same_tasks = v.same_tasks;
}

Reach-Stuck :
    (p : ThreadPool) (w : ℕ)
    → w < p.workers
    → (p.worker w ≡ taking) ⊎ (p.worker w ≡ sleeping)
    → {q : ThreadPool} → Reach (stop p) q
    → Stuck w p.tasks q
Reach-Stuck p w l c here = stop-Stuck p w l c
Reach-Stuck p w l c (next r st) = Step-Stuck st (Reach-Stuck p w l c r)

-- If some worker is in `take` when `Stop` gets the lock (about to lock, woken, or waiting for a
-- task), then in whatever follows `Stop` is still at its joins, and the queue is as it was.
pub stop_hangs :
    (p : ThreadPool) (w : ℕ) {q : ThreadPool}
    → w < p.workers
    → (p.worker w ≡ taking) ⊎ (p.worker w ≡ sleeping)
    → Reach (stop p) q
    → (is_joining q.stopper ≡ true) × (q.tasks ≡ p.tasks)
stop_hangs p w l c r = let v = Reach-Stuck p w l c r in (rw v.is_at refl, v.same_tasks)
