-- ===== src/Net/Serving/Tests.antt =====
-- A server with one loop: a connection comes, is established, and its peer closes it.
use knpnl.Prelude.{refl, [], arith}
use knpnl.Event.LoopThreadPool.{LoopThreadPool}
use knpnl.Net.TcpServer.{TcpConnPtr, Request, established, new_connection}
use knpnl.Net.Serving.{
  Serving, start, accept, close_connection, run_request, accepts, runs, peer_closes, Reach, here,
  next,
}
use knpnl.Net.Serving.Tally.{all_of_none}
use knpnl.Net.Serving.Assertions.{Succeeds, Reach-Succeeds}

abbrev one_loop : LoopThreadPool
one_loop = record { thread_nums = 1; index = 0 }

abbrev nobody : TcpConnPtr
nobody = record { object = 0; fd = 0; io_loop = 0 }

abbrev opening : Request
opening = record { loop = 0; duty = established; connection = 0 }

abbrev serving : Serving
serving = run_request (accept (start one_loop nobody) 5) opening []

abbrev peer_left : Serving
peer_left = close_connection serving 0

peer_left-Reach : Reach (start one_loop nobody) peer_left
unfolding start accept new_connection run_request close_connection
peer_left-Reach =
    next
      (next (next here (accepts 5 (λ o l e. absurd (omega arith))))
        (runs [] opening [] refl all_of_none))
      (peer_closes 0 (omega arith) refl)

Reach-Succeeds_example : Succeeds peer_left
Reach-Succeeds_example = Reach-Succeeds one_loop nobody peer_left-Reach
