-- ===== src/Event/TimerQueue/Calls.antt =====
-- event/TimerQueue.cpp: `AddTimer`, `Remove` and `ResetTimer`, from the loop's thread and from
-- others, and event/EventLoop.cpp: `RunAt`, `RunAfter` and `RunEvery`. From another thread a call
-- hands a task to the loop, with the pointer or the id that it has bound.
use knpnl.Prelude.{
  ℕ, ◌+◌, ◌%◌, ◌^◌, ◌<◌, ◌≡◌, refl, Bool, false, Option, none, some, List, [], ◌∷◌, ◌++◌,
  if◌then◌else◌, length, arith,
}
use knpnl.Event.TimerQueue.{TimerQueue, update, add_time, insert, delete_timer, reset_timer}
use knpnl.Event.TimerQueue.Valid.{IsValid}
use knpnl.Event.TimerQueue.Deletions.{delete_timer-Done}

pub data TimerTask : Type 0 where
  insert_task delete_task : ℕ → TimerTask
  reset_task : ℕ → ℕ → TimerTask

-- The queue, `Timer::TimerCount`, and the tasks that the loop has not run yet.
pub record Timers : Type 0 where
  pub queue : TimerQueue
  pub timer_count : ℕ
  pub tasks : List TimerTask

abbrev with_queue : Timers → Option TimerQueue → Option Timers
with_queue s o = elim o [ none ↦ none | some q ↦ some (record s { queue = q }) ]

abbrev later : Timers → TimerTask → Timers
later s t = record s { tasks = s.tasks ++ (t ∷ []) }

-- An interval in seconds: whether it is positive, and its microseconds.
pub record Interval : Type 0 where
  pub positive : Bool
  pub microseconds : ℕ

abbrev pub no_interval : Interval
no_interval = record { positive = false; microseconds = 0 }

-- `new Timer(cb, ts, interval)` at the address `a`.
unfoldable pub new_timer : Timers → ℕ → ℕ → ℕ → Interval → Timers
new_timer s a cb ts interval = record s {
  queue = record s.queue {
    heap = update s.queue.heap a (
        some (record {
          callback = cb;
          expired = ts;
          interval = interval.microseconds;
          is_repeat = interval.positive;
          timer_id = s.timer_count;
        }));
  };
  timer_count = (s.timer_count + 1) % 2 ^ 64;
}

-- `AddTimer(cb, ts, interval)`: the timer's id is returned.
unfoldable pub add_timer : Bool → Timers → ℕ → ℕ → ℕ → Interval → Option (Timers × ℕ)
unfolding new_timer insert
add_timer in_loop s a cb ts interval =
    let s' = new_timer s a cb ts interval in
    elim (if in_loop then with_queue s' (insert s'.queue a) else some (later s' (insert_task a))) [
      | none ↦ none
      | some s'' ↦ some (s'', s.timer_count)
    ]

-- `Remove(timerId)`
unfoldable pub remove : Bool → Timers → ℕ → Option Timers
remove in_loop s k = elim (s.queue.id_map k) [
  | none ↦ some s
  | some a ↦
      if in_loop then with_queue s (delete_timer s.queue a) else some (later s (delete_task a))
]

-- `ResetTimer(timerId, ts, isReset)`: `isReset` as the caller sees it. From another thread the
-- task has a copy of it.
unfoldable pub reset : Bool → Timers → ℕ → ℕ → Bool → Option (Timers × Bool)
reset in_loop s k ts is_reset =
    if in_loop
    then (elim (reset_timer s.queue k ts) [
      | none ↦ none
      | some (q, found) ↦ some (record s { queue = q }, found)
    ])
    else some (later s (reset_task k ts), is_reset)

-- The loop runs a task.
unfoldable pub run_task : TimerTask → TimerQueue → Option TimerQueue
run_task (insert_task a) q = insert q a
run_task (delete_task a) q = delete_timer q a
run_task (reset_task k ts) q = elim (reset_timer q k ts) [ none ↦ none | some (q', b) ↦ some q' ]

unfoldable pub run_tasks : List TimerTask → TimerQueue → Option TimerQueue
unfolding run_task
run_tasks [] q = some q
run_tasks (t ∷ ts) q = elim (run_task t q) [ none ↦ none | some q' ↦ run_tasks ts q' ]

-- `RunAt(when, cb)`, `RunAfter(when, cb)` and `RunEvery(when, cb)`, at the time `now`.
unfoldable pub run_at : Bool → Timers → ℕ → ℕ → ℕ → Option (Timers × ℕ)
unfolding add_timer
run_at in_loop s a when cb = add_timer in_loop s a cb when no_interval

unfoldable pub run_after : Bool → Timers → ℕ → ℕ → Interval → ℕ → Option (Timers × ℕ)
unfolding add_timer
run_after in_loop s a now when cb =
    add_timer in_loop s a cb (add_time now when.microseconds) no_interval

unfoldable pub run_every : Bool → Timers → ℕ → ℕ → Interval → ℕ → Option (Timers × ℕ)
unfolding add_timer
run_every in_loop s a now when cb = add_timer in_loop s a cb (add_time now when.microseconds) when

run_tasks_twice :
    (a : ℕ) (q q' : TimerQueue)
    → delete_timer q a ≡ some q'
    → delete_timer q' a ≡ none
    → run_tasks (delete_task a ∷ delete_task a ∷ []) q ≡ none
unfolding run_tasks run_task
run_tasks_twice a q q' h k = rw (run_tasks, run_task, h) (rw (run_tasks, run_task, k) refl)

remove-eq :
    (s : Timers) (k a : ℕ)
    → s.queue.id_map k ≡ some a
    → remove false s k ≡ some (later s (delete_task a))
unfolding remove
remove-eq s k a h = rw (remove, h) refl

-- `Remove` of a timer, called twice from another thread before the loop gets to its tasks: each
-- call queues a deletion; the first that the loop runs returns with a valid queue, and the second
-- one uses freed memory, so that the loop's tasks have no defined end. The queue is valid with
-- two timers or more, and the loop has no other tasks.
pub remove_twice :
    (s : Timers) (k a : ℕ)
    → IsValid s.queue
    → s.queue.id_map k ≡ some a
    → 1 < length s.queue.timer_set
    → s.tasks ≡ []
    → (s1 : Timers) × (s2 : Timers) × (q : TimerQueue) × (remove false s k ≡ some s1)
      × (remove false s1 k ≡ some s2)
      × (s2.queue ≡ s.queue)
      × (s2.tasks ≡ delete_task a ∷ delete_task a ∷ [])
      × (run_task (delete_task a) s2.queue ≡ some q)
      × IsValid q
      × (run_task (delete_task a) q ≡ none)
      × (run_tasks s2.tasks s2.queue ≡ none)
unfolding run_task
remove_twice s k a v m l e =
    let s1 = later s (delete_task a) in
    let (d, gone, again) = (delete_timer-Done k a v m).1 l in
    (
      s1,
      later s1 (delete_task a),
      d.after,
      remove-eq s k a m,
      remove-eq s1 k a m,
      refl,
      ground (arith, e),
      d.returns,
      d.sound,
      again,
      rw e (run_tasks_twice a s.queue d.after d.returns again),
    )
