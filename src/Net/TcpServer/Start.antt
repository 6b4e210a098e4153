-- ===== src/Net/TcpServer/Start.antt =====
-- net/TcpServer.cpp, `Start`, and net/http/HttpServer.cpp, `ListenAndServe`: how a server begins.
use knpnl.Prelude.{Bool, true, false, Option, none, some, List, ◌∷◌, if◌then◌else◌, ◌≡◌, refl, []}
use knpnl.Event.Poller.{Poller}
use knpnl.Net.Acceptor.{Acceptor, listen}
use knpnl.Net.Connection.Calls.{run_in_loop, run_tasks}

-- The only task: `Acceptor::Listen`.
pub data Task : Type 0 where
  listens : Task

unfoldable pub run_task : Bool → Task → Acceptor × Poller → Option (Acceptor × Poller)
unfolding listen
run_task listening listens (a, p) = listen listening a p

-- `Start()`, `here` in the thread of the server's loop; `listening` is whether `listen` gives 0.
unfoldable pub start :
    Bool → Bool → List Task × (Acceptor × Poller) → Option (List Task × (Acceptor × Poller))
unfolding run_in_loop run_task
start listening here (tasks, (a, p)) =
    if a.is_listening then none else run_in_loop (run_task listening) here listens (tasks, (a, p))

-- `ListenAndServe(f)`, up to the first round of `mLoop.Loop()`: the callback, and the server.
unfoldable pub listen_and_serve :
    {F : Type 0}
    → Bool
    → F
    → List Task × (Acceptor × Poller)
    → Option (F × (List Task × (Acceptor × Poller)))
unfolding start
listen_and_serve listening f q = elim (start listening true q) [
  | none ↦ none
  | some q' ↦ some (f, q')
]

-- From whichever thread `Start` is called, for an acceptor that does not listen yet: when its task is
-- run, the acceptor and the poller are as `Listen` leaves them.
pub start-listen :
    (listening here : Bool) (a : Acceptor) (p : Poller) {after : Acceptor × Poller}
    → a.is_listening ≡ false
    → listen listening a p ≡ some after
    → (q : List Task × (Acceptor × Poller)) × (start listening here ([], (a, p)) ≡ some q)
      × (run_tasks (run_task listening) q ≡ some after)
unfolding start run_in_loop run_task run_tasks
start-listen listening true a p {after} h e = (([], after), rw (start, h, e) refl, refl)
start-listen listening false a p h e =
    ((listens ∷ [], (a, p)), rw (start, h) refl, rw (run_tasks, e) refl)
