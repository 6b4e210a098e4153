-- ===== src/Net/Connection/Calls.antt =====
-- net/TcpConnection.cpp, `Send` and `Close`, and EventLoop::RunInLoop (event/EventLoop.cpp): the calls
-- that any thread may make.
use knpnl.Prelude.{Bool, ◌≡◌, ◌≢◌, Option, none, some, List, [], ◌∷◌, ◌++◌, if◌then◌else◌}
use mathlib.Core.Option
use knpnl.Kernel.{Receiver, Sender, closed_end, broken}
use knpnl.Buffer.{FixedBuffer}
use knpnl.Net.TcpConnection.{Outgoing}
use knpnl.Net.Connection.{Connection, send_in_loop}

-- `RunInLoop(t)`: the task is run at once in the loop's thread, and queued by another one. The queue
-- stands beside the state that the tasks work on; `none` is a failed assertion of the task.
unfoldable pub run_in_loop :
    {T S : Type 0} → (T → S → Option S) → Bool → T → List T × S → Option (List T × S)
run_in_loop run here t (tasks, s) =
    if here then Option.map (λ s'. (tasks, s')) (run t s) else some (tasks ++ (t ∷ []), s)

-- `doTask()`, for tasks that queue no others.
unfoldable pub run_tasks : {T S : Type 0} → (T → S → Option S) → List T × S → Option S
run_tasks run ([], s) = some s
run_tasks run (t ∷ tasks, s) = elim (run t s) [ none ↦ none | some s' ↦ run_tasks run (tasks, s') ]

-- `shutdown(fd, SHUT_RD)`: what has come is kept, and then the end is read.
pub record ReadShutdown (r : Receiver) : Type 0 where
  pub shut : r.S → r.S
  pub pending_lem : (s : r.S) → r.pending (shut s) ≡ r.pending s
  pub status_lem : (s : r.S) → r.status s ≢ broken → r.status (shut s) ≡ closed_end

-- The two tasks that are bound to the connection.
pub data Task : Type 0 where
  sending closing_down : Task

module _ (r : Receiver) (k : Sender) (set : Bool)
    (on_message : FixedBuffer → Outgoing → (FixedBuffer × Outgoing) × Bool)
    (down : ReadShutdown r) where
  open r use {S as R}
  open k use {S as W}

  -- `closeInLoop()`: `shutdownWrite()` shuts the reading side.
  unfoldable pub close_in_loop : Connection R W → Connection R W
  close_in_loop c = record c { input = down.shut c.input }

  unfoldable pub run_task : Task → Connection R W → Option (Connection R W)
  unfolding send_in_loop close_in_loop
  run_task sending c = send_in_loop r k set on_message c
  run_task closing_down c = some (close_in_loop c)

  -- `Send()`, `here` in the loop's thread.
  unfoldable pub send : Bool → List Task × Connection R W → Option (List Task × Connection R W)
  unfolding run_in_loop run_task
  send here (tasks, c) =
      if here
      then Option.map (λ c'. (tasks, c')) (send_in_loop r k set on_message c)
      else run_in_loop run_task here sending (tasks, c)

  -- `Close()`
  unfoldable pub close : Bool → List Task × Connection R W → Option (List Task × Connection R W)
  unfolding run_in_loop run_task
  close here q = run_in_loop run_task here closing_down q
