-- ===== src/ThreadPool/Joined.antt =====
-- base/ThreadPool.cpp, `Stop`: the workers that its joins have waited for.
use knpnl.Prelude.{
  ℕ, ◌+◌, ◌<◌, ◌≡◌, ◌≢◌, refl, sym, inl, inr, Bool, true, false, List, [], ◌∷◌, ◌++◌, ◌==◌, ltb,
  leb, length, arith, Bool-cases,
}
use knpnl.ThreadPool.{
  Worker, testing, taking, sleeping, working, left, Stopper, before, joining, stopped, ThreadPool,
  start, update, set_worker, add_task, take_task, test_running, stop, joined, Step, calls, adds,
  takes, tests, ends, wakes, unblocks, stops, joins, Reach, here, next, post_if_room,
}

-- The worker `i` of `n` is one that the stopping thread has joined.
abbrev covers : Stopper → ℕ → ℕ → Bool
covers before n i = false
covers (joining k) n i = ltb i k
covers stopped n i = ltb i n

record Joined (p : ThreadPool) : Type 0 where
  have_left : (i : ℕ) → covers p.stopper p.workers i ≡ true → p.worker i ≡ left

-- The stopping thread does not move, and who has left stays so.
same-Joined :
    (p q : ThreadPool)
    → q.stopper ≡ p.stopper
    → q.workers ≡ p.workers
    → ((i : ℕ) → p.worker i ≡ left → q.worker i ≡ left)
    → Joined p
    → Joined q
same-Joined p q e f g v = record { have_left = λ i c. g i (v.have_left i (rw (sym e, sym f) c)) }

-- A worker moves that has not left.
moves-Joined :
    (p q : ThreadPool) (i : ℕ) (w : Worker)
    → q.stopper ≡ p.stopper
    → q.workers ≡ p.workers
    → ((k : ℕ) → q.worker k ≡ update p.worker i w k)
    → p.worker i ≢ left
    → Joined p
    → Joined q
moves-Joined p q i w e f g n v = same-Joined p q e f (λ k l. ground (arith, g k)) v

post_if_room-Joined : (p : ThreadPool) (j : ℕ) → Joined p → Joined (post_if_room p j)
post_if_room-Joined p j v = elim (Bool-cases (length p.tasks + 1 == p.q_size)) [
  | inl e ↦ rw e (same-Joined p _ refl refl (λ k l. l) v)
  | inr e ↦ rw e v
]

take_task-Joined :
    (p : ThreadPool) (i : ℕ) (ts : List ℕ) (j : ℕ)
    → p.worker i ≢ left
    → Joined p
    → Joined (take_task p i ts j)
unfolding take_task
take_task-Joined p i [] j n v = moves-Joined p _ i sleeping refl refl (λ k. refl) n v
take_task-Joined p i (t ∷ ts) j n v = elim (Bool-cases p.is_running) [
  | inl f ↦ rw f (
      post_if_room-Joined
        (record (set_worker p i (working t)) {
          is_running = true;
          tasks = ts;
          taken = p.taken ++ (t ∷ []);
        })
        j (moves-Joined p _ i (working t) refl refl (λ k. refl) n v))
  | inr f ↦ rw f (
      post_if_room-Joined (record (set_worker p i testing) { is_running = false }) j
        (moves-Joined p _ i testing refl refl (λ k. refl) n v))
]

test_running-Joined :
    (p : ThreadPool) (i : ℕ) → p.worker i ≢ left → Joined p → Joined (test_running p i)
unfolding test_running
test_running-Joined p i n v = elim (Bool-cases p.is_running) [
  | inl f ↦ rw f (
      moves-Joined p (record (set_worker p i taking) { is_running = true }) i taking refl refl
        (λ k. refl) n v)
  | inr f ↦ rw f (
      moves-Joined p (record (set_worker p i left) { is_running = false }) i left refl refl
        (λ k. refl) n v)
]

add_task-Joined : (p : ThreadPool) (j t i : ℕ) → Joined p → Joined (add_task p j t i)
unfolding add_task
add_task-Joined p j t i v = elim (Bool-cases (leb p.q_size (length p.tasks))) [
  | inl e ↦ rw e (same-Joined p _ refl refl (λ k l. l) v)
  | inr e ↦ rw e (elim (Bool-cases (length (p.tasks ++ (t ∷ [])) == 1)) [
    | inl f ↦ rw f (same-Joined p _ refl refl (λ k l. ground arith) v)
    | inr f ↦ rw f (same-Joined p _ refl refl (λ k l. l) v)
  ])
]

stop-Joined : (p : ThreadPool) → Joined (stop p)
unfolding stop
stop-Joined p = record { have_left = λ i c. ground arith }

joined-Joined :
    (p : ThreadPool) (k : ℕ)
    → p.stopper ≡ joining k
    → p.worker k ≡ left
    → Joined p
    → Joined (joined p k)
unfolding joined
joined-Joined p k e l v = record { have_left = λ i c. ground (arith, v.have_left i) }

Step-Joined : {p q : ThreadPool} → Step p q → Joined p → Joined q
Step-Joined {p} (calls j t e) v = same-Joined p _ refl refl (λ k l. l) v
Step-Joined {p} (adds j t i l e c) v = add_task-Joined p j t i v
Step-Joined {p} (takes i j l n e c) v = take_task-Joined p i p.tasks j (ground arith) v
Step-Joined {p} (tests i n e) v = test_running-Joined p i (ground arith) v
Step-Joined {p} (ends i t n e) v = moves-Joined p _ i testing refl refl (λ k. refl) (ground arith) v
Step-Joined {p} (wakes i n e) v = moves-Joined p _ i taking refl refl (λ k. refl) (ground arith) v
Step-Joined {p} (unblocks j t e) v = same-Joined p _ refl refl (λ k l. l) v
Step-Joined {p} (stops e) v = stop-Joined p
Step-Joined {p} (joins i e l) v = joined-Joined p i e l v

Reach-Joined : (n s : ℕ) {p : ThreadPool} → Reach (start n s) p → Joined p
unfolding start
Reach-Joined n s here = record { have_left = λ i c. ground arith }
Reach-Joined n s (next r st) = Step-Joined st (Reach-Joined n s r)

-- In every state that may follow `Start`: if `Stop` has returned, every worker has left
-- `runInThread`.
pub stopped_workers :
    (n s : ℕ) {p : ThreadPool}
    → Reach (start n s) p
    → p.stopper ≡ stopped
    → (i : ℕ) → i < p.workers
    → p.worker i ≡ left
stopped_workers n s r e i l = (Reach-Joined n s r).have_left i (rw e (ground arith))
