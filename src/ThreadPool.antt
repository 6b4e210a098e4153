-- ===== src/ThreadPool.antt =====
-- base/ThreadPool.h and ThreadPool.cpp, with base/Condition.h: producers that add tasks, workers that
-- take them, and a thread that stops the pool, in any order. What a thread does under `mMutex`, from
-- the lock (or from its return out of a wait) to the unlock (or to its wait), is one step.
pub mod Joined
pub mod Queue
pub mod Sleep
pub mod Stop
mod Tests
use knpnl.Prelude.{
  ℕ, suc, ◌+◌, ◌-◌, ◌*◌, ◌<◌, ◌≡◌, ◌≢◌, Bool, true, false, not, ◌&&◌, Option, none, some, List, [],
  ◌∷◌, ◌++◌, if◌then◌else◌, ◌==◌, ltb, leb, length,
}

-- A worker: at `while(isRunning)`, about to lock in `take` (or woken there), in `isEmpty.wait()`,
-- in a task, or out of `runInThread`.
pub data Worker : Type 0 where
  testing taking sleeping : Worker
  working : ℕ → Worker
  left : Worker

-- A caller of `AddTask`: elsewhere, about to lock (or woken), in `isFull.wait()`.
pub data Producer : Type 0 where
  outside : Producer
  adding blocked : ℕ → Producer

-- The thread that calls `Stop`: before it, at the join of the thread with that number (it holds the
-- lock meanwhile), and behind it.
pub data Stopper : Type 0 where
  before : Stopper
  joining : ℕ → Stopper
  stopped : Stopper

-- `added` and `taken` record the tasks that were pushed and those that were popped, oldest first.
pub record ThreadPool : Type 0 where
  pub workers : ℕ
  pub q_size : ℕ
  pub is_running : Bool
  pub tasks : List ℕ
  pub worker : ℕ → Worker
  pub producer : ℕ → Producer
  pub stopper : Stopper
  pub added : List ℕ
  pub taken : List ℕ

-- The constructor, and `Start`. With one argument, `q_size` is twice the number of workers.
unfoldable pub start : ℕ → ℕ → ThreadPool
start workers q_size = record {
  workers = workers;
  q_size = q_size;
  is_running = true;
  tasks = [];
  worker = λ i. testing;
  producer = λ j. outside;
  stopper = before;
  added = [];
  taken = [];
}

abbrev pub update {ℓ} : {A : Type ℓ} → (ℕ → A) → ℕ → A → ℕ → A
update f k v j = if k == j then v else f j

abbrev pub set_worker : ThreadPool → ℕ → Worker → ThreadPool
set_worker p i w = record p { worker = update p.worker i w }

abbrev pub set_producer : ThreadPool → ℕ → Producer → ThreadPool
set_producer p j c = record p { producer = update p.producer j c }

abbrev pub is_sleeping : Worker → Bool
is_sleeping sleeping = true
is_sleeping _ = false

abbrev pub woken_producer : Producer → Producer
woken_producer (blocked t) = adding t
woken_producer c = c

abbrev pub woken_worker : Worker → Worker
woken_worker sleeping = taking
woken_worker w = w

-- `isEmpty.post()` and `isFull.post()`, for the thread that the system picks.
abbrev pub post_empty : ThreadPool → ℕ → ThreadPool
post_empty p i = set_worker p i (woken_worker (p.worker i))

abbrev pub post_full : ThreadPool → ℕ → ThreadPool
post_full p j = set_producer p j (woken_producer (p.producer j))

-- `mutex` is free: only `Stop` holds it over more than a step.
abbrev pub is_joining : Stopper → Bool
is_joining (joining i) = true
is_joining _ = false

-- `AddTask` of the producer `j` from its lock on; `i` is the worker that a `post` wakes.
unfoldable pub add_task : ThreadPool → ℕ → ℕ → ℕ → ThreadPool
add_task p j t i =
    if leb p.q_size (length p.tasks)
    then set_producer p j (blocked t)
    else (let pushed = record (set_producer p j outside) {
      tasks = p.tasks ++ (t ∷ []);
      added = p.added ++ (t ∷ []);
    } in
        if length pushed.tasks == 1 then post_empty pushed i else pushed)

-- `if(mTasks.size()==qSize-1) isFull.post()`, with the producer that it wakes.
abbrev pub post_if_room : ThreadPool → ℕ → ThreadPool
post_if_room p j = if length p.tasks + 1 == p.q_size then post_full p j else p

-- `take` of the worker `i` from its lock on.
unfoldable pub take_task : ThreadPool → ℕ → List ℕ → ℕ → ThreadPool
take_task p i [] j = set_worker p i sleeping
take_task p i (t ∷ ts) j =
    if p.is_running
    then post_if_room
        (record (set_worker p i (working t)) { tasks = ts; taken = p.taken ++ (t ∷ []) }) j
    else post_if_room (set_worker p i testing) j

-- `while(isRunning)`
unfoldable pub test_running : ThreadPool → ℕ → ThreadPool
test_running p i = if p.is_running then set_worker p i taking else set_worker p i left

-- `Stop` up to its first `join`.
unfoldable pub stop : ThreadPool → ThreadPool
stop p = record p {
  is_running = false;
  worker = λ i. woken_worker (p.worker i);
  producer = λ j. woken_producer (p.producer j);
  stopper = if ltb 0 p.workers then joining 0 else stopped;
}

-- `t->join()` returns; behind the last one the lock is given back.
unfoldable pub joined : ThreadPool → ℕ → ThreadPool
joined p i = record p { stopper = if ltb (suc i) p.workers then joining (suc i) else stopped }

-- A worker that a `post` may wake: one that waits, or any if none does.
pub data Picked (p : ThreadPool) (i : ℕ) : Type 0 where
  waits : i < p.workers → p.worker i ≡ sleeping → Picked p i
  nobody : ((k : ℕ) → k < p.workers → is_sleeping (p.worker k) ≡ false) → Picked p i

-- The same of a producer.
pub data PickedProducer (p : ThreadPool) (j : ℕ) : Type 0 where
  waits : (t : ℕ) → p.producer j ≡ blocked t → PickedProducer p j
  nobody : ((k t : ℕ) → p.producer k ≢ blocked t) → PickedProducer p j

-- One step of one thread. A wait may also end by itself (`wakes`, `unblocks`).
pub data Step (p : ThreadPool) : ThreadPool → Type 0 where
  calls : (j t : ℕ) → p.producer j ≡ outside → Step p (set_producer p j (adding t))
  adds :
      (j t i : ℕ)
      → is_joining p.stopper ≡ false
      → p.producer j ≡ adding t
      → Picked p i
      → Step p (add_task p j t i)
  takes :
      (i j : ℕ)
      → is_joining p.stopper ≡ false
      → i < p.workers
      → p.worker i ≡ taking
      → PickedProducer p j
      → Step p (take_task p i p.tasks j)
  tests : (i : ℕ) → i < p.workers → p.worker i ≡ testing → Step p (test_running p i)
  ends : (i t : ℕ) → i < p.workers → p.worker i ≡ working t → Step p (set_worker p i testing)
  wakes : (i : ℕ) → i < p.workers → p.worker i ≡ sleeping → Step p (set_worker p i taking)
  unblocks : (j t : ℕ) → p.producer j ≡ blocked t → Step p (set_producer p j (adding t))
  stops : p.stopper ≡ before → Step p (stop p)
  joins : (i : ℕ) → p.stopper ≡ joining i → p.worker i ≡ left → Step p (joined p i)

-- What may follow a state.
pub data Reach (p : ThreadPool) : ThreadPool → Type 0 where
  here : Reach p p
  next : {q r : ThreadPool} → Reach p q → Step q r → Reach p r
