-- ===== src/ThreadPool/Sleep.antt =====
-- base/ThreadPool.cpp: the workers that sleep, and the tasks that are in the queue meanwhile.
use knpnl.Prelude.{
  ℕ, ◌+◌, ◌<◌, ◌≡◌, ◌≢◌, inl, inr, refl, sym, ◌∙◌, Bool, true, false, List, [], ◌∷◌, ◌++◌, ◌==◌,
  leb, length, length-append, arith, Bool-cases,
}
use knpnl.ThreadPool.{
  Worker, testing, taking, sleeping, working, left, Producer, outside, adding, blocked, Stopper,
  before, joining, stopped, ThreadPool, start, update, set_worker, set_producer, is_sleeping,
  is_joining, add_task, take_task, test_running, stop, joined, Picked, Step, calls, adds, takes,
  tests, ends, wakes, unblocks, stops, joins, Reach, here, next, post_empty, woken_worker,
  post_if_room,
}
use knpnl.ThreadPool

-- At work, or on its way to the queue.
abbrev pub is_awake : Worker → Bool
is_awake testing = true
is_awake taking = true
is_awake sleeping = false
is_awake (working t) = true
is_awake left = false

-- While the pool runs no worker has left, and if the queue holds a task some worker is awake.
record Awake (p : ThreadPool) : Type 0 where
  some_worker : 0 < p.workers
  nobody_left : p.is_running ≡ true → (i : ℕ) → i < p.workers → p.worker i ≢ left
  watched :
      p.is_running ≡ true
      → p.tasks ≢ []
      → (i : ℕ) × (i < p.workers) × (is_awake (p.worker i) ≡ true)

-- Another worker is as it was, and this one is awake.
moves-Awake :
    (p q : ThreadPool) (i : ℕ) (w : Worker)
    → q.workers ≡ p.workers
    → q.is_running ≡ p.is_running
    → ((k : ℕ) → q.worker k ≡ update p.worker i w k)
    → i < p.workers
    → is_awake w ≡ true
    → Awake p
    → Awake q
moves-Awake p q i w e f g n a v = record {
  some_worker = rw e v.some_worker;
  nobody_left = λ h k l. ground (arith, g k, v.nobody_left (ground arith) k);
  watched = λ h t. (i, rw e n, ground (arith, g i));
}

-- The workers are as they were, and no task is new.
same-Awake :
    (p q : ThreadPool)
    → q.workers ≡ p.workers
    → q.is_running ≡ p.is_running
    → ((k : ℕ) → q.worker k ≡ p.worker k)
    → (p.tasks ≡ [] → q.tasks ≡ [])
    → Awake p
    → Awake q
same-Awake p q e f g t v = record {
  some_worker = rw e v.some_worker;
  nobody_left = λ h k l. ground (arith, g k, v.nobody_left (ground arith) k);
  watched = λ h n.
      let (i, l, a) = v.watched (ground arith) (λ z. n (t z)) in (i, rw e l, ground (arith, g i));
}

woken-is_awake : (w : Worker) → w ≢ left → is_awake (woken_worker w) ≡ true
woken-is_awake testing n = refl
woken-is_awake taking n = refl
woken-is_awake sleeping n = refl
woken-is_awake (working t) n = refl
woken-is_awake left n = absurd (n refl)

not_sleeping-is_awake : (w : Worker) → w ≢ left → is_sleeping w ≡ false → is_awake w ≡ true
not_sleeping-is_awake testing n e = refl
not_sleeping-is_awake taking n e = refl
not_sleeping-is_awake sleeping n e = ground arith
not_sleeping-is_awake (working t) n e = refl
not_sleeping-is_awake left n e = absurd (n refl)

update_same-is_awake :
    (f : ℕ → Worker) (i : ℕ) (w : Worker) → is_awake w ≡ true → is_awake (update f i w i) ≡ true
update_same-is_awake f i w e = ground arith

update-is_awake :
    (f : ℕ → Worker) (i k : ℕ) (w : Worker)
    → (i ≡ k → is_awake w ≡ true)
    → is_awake (f k) ≡ true
    → is_awake (update f i w k) ≡ true
update-is_awake f i k w e a = ground arith

update-left :
    (f : ℕ → Worker) (i k : ℕ) (w : Worker)
    → (i ≡ k → w ≢ left)
    → f k ≢ left
    → update f i w k ≢ left
update-left f i k w n m = ground arith

woken-left : (w : Worker) → w ≢ left → woken_worker w ≢ left
woken-left testing n = n
woken-left taking n = n
woken-left sleeping n = ground arith
woken-left (working t) n = n
woken-left left n = absurd (n refl)

-- A `post` wakes a worker that sleeps, or none sleeps.
Picked-is_awake :
    (p : ThreadPool) (i : ℕ)
    → Picked p i
    → Awake p
    → p.is_running ≡ true
    → (k : ℕ) × (k < p.workers)
      × (is_awake (update p.worker i (woken_worker (p.worker i)) k) ≡ true)
Picked-is_awake p i (ThreadPool.Picked.waits l e) v h =
    (i, l, update_same-is_awake p.worker i (woken_worker (p.worker i)) (rw e refl))
Picked-is_awake p i (ThreadPool.Picked.nobody f) v h = (
  0,
  v.some_worker,
  update-is_awake p.worker i 0 (woken_worker (p.worker i))
      (λ e. woken-is_awake (p.worker i) (rw e (v.nobody_left h 0 v.some_worker)))
      (not_sleeping-is_awake (p.worker 0) (v.nobody_left h 0 v.some_worker) (f 0 v.some_worker)),
)

post_empty-Awake :
    (p q : ThreadPool) (i : ℕ)
    → q.workers ≡ p.workers
    → q.is_running ≡ p.is_running
    → ((k : ℕ) → q.worker k ≡ update p.worker i (woken_worker (p.worker i)) k)
    → Picked p i
    → Awake p
    → Awake q
post_empty-Awake p q i e f g c v = record {
  some_worker = rw e v.some_worker;
  nobody_left = λ h k l. rw (g k) (
      let n = v.nobody_left (sym f ∙ h) k (rw (sym e) l) in
      update-left p.worker i k (woken_worker (p.worker i)) (λ z. woken-left (p.worker i) (rw z n))
        n);
  watched = λ h n. let (k, l, a) = Picked-is_awake p i c v (sym f ∙ h) in (k, rw e l, rw (g k) a);
}

not_one : (ts : List ℕ) (t : ℕ) → ts ≡ [] → (length (ts ++ (t ∷ [])) == 1) ≢ false
not_one ts t z e = ground (arith, length-append ts (t ∷ []))

add_task-Awake : (p : ThreadPool) (j t i : ℕ) → Picked p i → Awake p → Awake (add_task p j t i)
unfolding add_task
add_task-Awake p j t i c v = elim (Bool-cases (leb p.q_size (length p.tasks))) [
  | inl e ↦ rw e (same-Awake p _ refl refl (λ k. refl) (λ z. z) v)
  | inr e ↦ rw e (elim (Bool-cases (length (p.tasks ++ (t ∷ [])) == 1)) [
    | inl f ↦ rw f (post_empty-Awake p _ i refl refl (λ k. refl) c v)
    | inr f ↦ rw f (same-Awake p _ refl refl (λ k. refl) (λ z. absurd (not_one p.tasks t z f)) v)
  ])
]

post_if_room-Awake : (p : ThreadPool) (j : ℕ) → Awake p → Awake (post_if_room p j)
post_if_room-Awake p j v = elim (Bool-cases (length p.tasks + 1 == p.q_size)) [
  | inl e ↦ rw e (same-Awake p _ refl refl (λ k. refl) (λ z. z) v)
  | inr e ↦ rw e v
]

take_task-Awake :
    (p : ThreadPool) (i : ℕ) (ts : List ℕ) (j : ℕ)
    → i < p.workers
    → p.tasks ≡ ts
    → Awake p
    → Awake (take_task p i ts j)
unfolding take_task
take_task-Awake p i [] j n e v = record {
  some_worker = v.some_worker;
  nobody_left =
      λ h k l. update-left p.worker i k sleeping (λ z. ground arith) (v.nobody_left h k l);
  watched = λ h z. absurd (z e);
}
take_task-Awake p i (t ∷ ts) j n e v = elim (Bool-cases p.is_running) [
  | inl f ↦ rw f (
      post_if_room-Awake
        (record (set_worker p i (working t)) {
          is_running = true;
          tasks = ts;
          taken = p.taken ++ (t ∷ []);
        })
        j (moves-Awake p _ i (working t) refl (sym f) (λ k. refl) n refl v))
  | inr f ↦ rw f (
      post_if_room-Awake (record (set_worker p i testing) { is_running = false }) j
        (moves-Awake p _ i testing refl (sym f) (λ k. refl) n refl v))
]

idle-Awake : (q : ThreadPool) → 0 < q.workers → q.is_running ≡ false → Awake q
idle-Awake q n e = record {
  some_worker = n;
  nobody_left = λ h. ground arith;
  watched = λ h. ground arith;
}

test_running-Awake : (p : ThreadPool) (i : ℕ) → i < p.workers → Awake p → Awake (test_running p i)
unfolding test_running
test_running-Awake p i n v = elim (Bool-cases p.is_running) [
  | inl f ↦ rw f (
      moves-Awake p (record (set_worker p i taking) { is_running = true }) i taking refl (sym f)
        (λ k. refl) n refl v)
  | inr f ↦
      rw f (idle-Awake (record (set_worker p i left) { is_running = false }) v.some_worker refl)
]

Step-Awake : {p q : ThreadPool} → Step p q → Awake p → Awake q
unfolding stop joined
Step-Awake {p} (calls j t e) v = same-Awake p _ refl refl (λ k. refl) (λ z. z) v
Step-Awake {p} (adds j t i l e c) v = add_task-Awake p j t i c v
Step-Awake {p} (takes i j l n e c) v = take_task-Awake p i p.tasks j n refl v
Step-Awake {p} (tests i n e) v = test_running-Awake p i n v
Step-Awake {p} (ends i t n e) v = moves-Awake p _ i testing refl refl (λ k. refl) n refl v
Step-Awake {p} (wakes i n e) v = moves-Awake p _ i taking refl refl (λ k. refl) n refl v
Step-Awake {p} (unblocks j t e) v = same-Awake p _ refl refl (λ k. refl) (λ z. z) v
Step-Awake {p} (stops e) v = idle-Awake _ v.some_worker refl
Step-Awake {p} (joins i e l) v = same-Awake p _ refl refl (λ k. refl) (λ z. z) v

start-Awake : (n s : ℕ) → 0 < n → Awake (start n s)
unfolding start
start-Awake n s h = record {
  some_worker = h;
  nobody_left = λ e i l. ground arith;
  watched = λ e z. absurd (z refl);
}

Reach-Awake : (n s : ℕ) {p : ThreadPool} → 0 < n → Reach (start n s) p → Awake p
Reach-Awake n s h here = start-Awake n s h
Reach-Awake n s h (next r st) = Step-Awake st (Reach-Awake n s h r)

-- In every state that may follow `Start` of a pool with at least one worker, if the pool is
-- running and its queue is not empty, some worker is not waiting for a task: the `post` that
-- `AddTask` leaves out for a queue with two tasks or more is not missed by all of them.
pub waiting_task :
    (n s : ℕ) {p : ThreadPool}
    → 0 < n
    → Reach (start n s) p
    → p.is_running ≡ true
    → p.tasks ≢ []
    → (i : ℕ) × (i < p.workers) × (is_awake (p.worker i) ≡ true)
waiting_task n s h r = (Reach-Awake n s h r).watched
