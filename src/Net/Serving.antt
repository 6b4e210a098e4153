-- ===== src/Net/Serving.antt =====
-- net/TcpServer.cpp with net/TcpConnection.cpp: a server, the loops of its connections and its own
-- loop, in any order of their steps. Of a connection only `mState` is kept: what else its handlers
-- do, and their assertions on the channel, are in Net/Connection, and Handlers ties the two
-- together. A loop's own loop and the server's are different threads, so `RunInLoop` between them
-- queues.
pub mod Tally
pub mod Invariant
pub mod Accepts
pub mod Closes
pub mod Runs
pub mod Removes
pub mod Handlers
pub mod Assertions
mod Tests
use knpnl.Prelude.{
  ℕ, suc, ◌<◌, ◌≡◌, ◌≢◌, Bool, true, false, Option, none, some, List, [], ◌∷◌, ◌++◌, if◌then◌else◌,
  ◌==◌,
}
use knpnl.Event.LoopThreadPool.{LoopThreadPool}
use knpnl.Net.Connection.{ConnectionState, connecting, connected, closing, closed, can_close}
use knpnl.Net.Serving.Tally
use knpnl.Net.TcpServer.{
  TcpServer, TcpConnPtr, Duty, established, handle_close, destroy, Request, new_connection, close,
  remove_in_loop, update,
}

-- `server.asked` holds the requests that the loops have not run yet, and `removals` the calls of
-- `removeInLoop` that the server's loop has not run yet, oldest first. `object` and `state` are
-- the connections that were made, by their numbers below `next_object`.
pub record Serving : Type 0 where
  pub server : TcpServer
  pub next_object : ℕ
  pub object : ℕ → TcpConnPtr
  pub state : ℕ → ConnectionState
  pub removals : List TcpConnPtr

unfoldable pub start : LoopThreadPool → TcpConnPtr → Serving
start pool nobody = record {
  server = record { thread_pool = pool; conn_map = λ fd. none; asked = [] };
  next_object = 0;
  object = λ o. nobody;
  state = λ o. closed;
  removals = [];
}

-- `newConnection` for a descriptor.
unfoldable pub accept : Serving → ℕ → Serving
unfolding new_connection
accept s fd =
    let (server, conn) = new_connection s.server s.next_object fd in
    record s {
      server = server;
      next_object = suc s.next_object;
      object = update s.object s.next_object conn;
      state = update s.state s.next_object connecting;
    }

-- What `handleClose` of a connection, by its test of `mState`, does to `mState` and by the close
-- callback, `removeConnection`, to the server.
unfoldable pub close_connection : Serving → ℕ → Serving
close_connection s o =
    if can_close (s.state o)
    then record s { state = update s.state o closing; removals = s.removals ++ (s.object o ∷ []) }
    else s

-- A loop runs a request; `asked` are those that are left.
unfoldable pub run_request : Serving → Request → List Request → Serving
unfolding close_connection
run_request s r asked =
    let left = record s { server = record s.server { asked = asked } } in
    elim r.duty [
      | established ↦ record left { state = update s.state r.connection connected }
      | handle_close ↦ close_connection left r.connection
      | destroy ↦ record left { state = update s.state r.connection closed }
    ]

-- One step. A descriptor is accepted that no connection has which is not destroyed: the object has
-- it until its destructor. A loop takes the oldest of its own requests.
pub data Step (s : Serving) : Serving → Type 0 where
  accepts :
      (fd : ℕ)
      → ((o : ℕ) → o < s.next_object → (s.object o).fd ≡ fd → s.state o ≡ closed)
      → Step s (accept s fd)
  calls_close :
      (o : ℕ) → o < s.next_object → Step s (record s { server = close s.server (s.object o) })
  runs :
      (xs : List Request) (r : Request) (ys : List Request)
      → s.server.asked ≡ xs ++ (r ∷ ys)
      → Tally.Each (λ q. q.loop ≢ r.loop) xs
      → Step s (run_request s r (xs ++ ys))
  peer_closes : (o : ℕ) → o < s.next_object → s.state o ≡ connected → Step s (close_connection s o)
  removes :
      (c : TcpConnPtr) (cs : List TcpConnPtr) (server : TcpServer)
      → s.removals ≡ c ∷ cs
      → remove_in_loop s.server c ≡ some server
      → Step s (record s { server = server; removals = cs })

pub data Reach (s : Serving) : Serving → Type 0 where
  here : Reach s s
  next : {t u : Serving} → Reach s t → Step t u → Reach s u
