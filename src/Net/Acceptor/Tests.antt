-- ===== src/Net/Acceptor/Tests.antt =====
-- A listening socket with two connections, and what becomes of them.
use knpnl.Prelude.{ℕ, refl, none, some, List, [], ◌∷◌}
use knpnl.Kernel.{Listener, AcceptResult, connection, no_more, Accepted}
use knpnl.Kernel
use knpnl.Event.LoopThreadPool.{new}
use knpnl.Net.TcpServer.{TcpServer}
use knpnl.Net.Acceptor.{Served, handler_read, on_new_connection}
use knpnl.Net.Acceptor.Accepting.{Handled, Serves, serve_all, handler_read-Serves}

abbrev take_first : List ℕ → AcceptResult × List ℕ
take_first [] = (no_more, [])
take_first (fd ∷ fds) = (connection fd, fds)

take_first-Accepted : (s : List ℕ) → Accepted (λ x. x) s (take_first s).0 (take_first s).1
take_first-Accepted [] = Kernel.Accepted.drained refl refl refl
take_first-Accepted (fd ∷ fds) = Kernel.Accepted.taken fd refl refl

-- Connections wait, and no other error comes.
abbrev waiting : Listener
waiting = record {
  S = List ℕ;
  accept4 = take_first;
  pending = λ s. s;
  accept4_lem = take_first-Accepted;
}

abbrev two_loops : TcpServer
two_loops = record { thread_pool = new 2; conn_map = λ fd. none; asked = [] }

abbrev at_start : Served (TcpServer × ℕ)
at_start = record { state = (two_loops, 0); closed = [] }

handler_read-Serves_example :
    (h : Handled
      (some on_new_connection)
      waiting
      (7 ∷ 8 ∷ [])
      at_start
      (handler_read (some on_new_connection) waiting 3 (7 ∷ 8 ∷ []) at_start))
    × Serves h.now two_loops 0 (serve_all (some on_new_connection) h.now at_start).state.0
handler_read-Serves_example = handler_read-Serves waiting (7 ∷ 8 ∷ []) two_loops 0 []
