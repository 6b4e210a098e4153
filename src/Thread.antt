-- ===== src/Thread.antt =====
-- base/Thread.h and Thread.cpp: a thread that is started, joined, and detached if nobody joined it;
-- and the number that each thread keeps of itself.
pub mod Life
mod Tests
use knpnl.Prelude.{ℕ, Bool, true, false, ◌&&◌, not, Option, none, some, List, ◌==◌, if◌then◌else◌}
use knpnl.Kernel.Threads.{Pthreads}
use knpnl.Http.CString.{codes}

-- `task` stands for `runningData.mTask`.
pub record Thread (Task : Type 0) : Type 0 where
  pub task : Task
  pub name : List ℕ
  pub pthread_id : ℕ
  pub is_running : Bool
  pub is_join : Bool

-- The constructors; the one without a name takes "null".
unfoldable pub new : {Task : Type 0} → Task → List ℕ → Thread Task
new t name = record { task = t; name = name; pthread_id = 0; is_running = false; is_join = false }

unfoldable pub new_unnamed : {Task : Type 0} → Task → Thread Task
unfolding new
new_unnamed t = new t (codes "null")

-- What `pthread_create`, `pthread_join` and `pthread_detach` do. `none` is a failed assertion.
module _ {Task : Type 0} (p : Pthreads) where
  open p use {S, create, detach}

  -- `start()`
  unfoldable pub start : Thread Task → S → Option (Thread Task × S)
  start t s =
      let ((ret, id), s') = create s in
      if ret == 0 then some (record t { pthread_id = id; is_running = true }, s') else none

  -- `join()`
  unfoldable pub join : Thread Task → S → Option (Thread Task × S)
  join t s =
      let (ret, s') = p.join s t.pthread_id in
      if ret == 0 then some (record t { is_join = true }, s') else none

  -- `~Thread()`
  unfoldable pub destroy : Thread Task → S → Option S
  destroy t s =
      let (ret, s') = detach s t.pthread_id in
      if not t.is_join && t.is_running then (if ret == 0 then some s' else none) else some s

-- `CurrentThread::Tid` and `TidStr`, from the number that `syscall(SYS_gettid)` gives.
module _ (gettid : ℕ) (decimal : ℕ → List ℕ) where
  -- `tid()`: the number, and the two variables behind it.
  unfoldable pub tid : ℕ × List ℕ → ℕ × (ℕ × List ℕ)
  tid (cached, text) =
      if cached == 0 then (gettid, (gettid, decimal gettid)) else (cached, (cached, text))

  -- `getStr()`
  unfoldable pub get_str : ℕ × List ℕ → List ℕ × (ℕ × List ℕ)
  unfolding tid
  get_str (cached, text) =
      if cached == 0
      then ((tid (cached, text)).1.1, (tid (cached, text)).1)
      else (text, (cached, text))
