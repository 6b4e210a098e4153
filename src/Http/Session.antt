-- ===== src/Http/Session.antt =====
-- net/http/HttpServer.cpp on top of net/TcpConnection.cpp: one connection of the HTTP server, in the
-- thread of its loop, with its context, from one event or task to the next. Each happening is that of
-- a connection that the server's map has; one that it no longer has is closing, and `handleClose` does
-- nothing. The removal from the map and `Destroy` are in Net/Serving.
pub mod Bounds
pub mod Once
pub mod Refusal
pub mod Survival
mod Tests
use knpnl.Prelude.{
  ℕ, zero, suc, ◌+◌, ◌-◌, Bool, true, false, Option, none, some, List, [], ◌∷◌, if◌then◌else◌, ◌==◌,
  ℤ, pos, negsuc,
}
use knpnl.Kernel.{Receiver, Sender}
use knpnl.Buffer.{FixedBuffer}
use knpnl.Buffer.ReadFd.{read_fd}
use knpnl.Http.Request.{HttpRequest, HttpCode, Method, new as new_request}
use knpnl.Http.Process.{Turn, again, answer, throw, is_get, process_read}
use knpnl.Http.Response.{HttpResponse, client_error_not_found, new as new_response}
use knpnl.Http.Server.{
  Exchange, Callback, returned, raised, unfinished, on_message_callback, write_complete_callback,
}
use knpnl.Net.TcpConnection.{Outgoing, send_message}
use knpnl.Net.Connection.{Connection, handle_close, sent_in_loop, written, to_int}

-- The context of the connection (its request and response), `mAlive`, and the connection. `served`
-- counts the calls of the `HttpCallback`, `closing_tasks` the closes that `mServer.Close` has queued.
pub record Session (R W : Type 0) : Type 0 where
  pub request : HttpRequest
  pub response : HttpResponse
  pub alive : Bool
  pub served : ℕ
  pub closing_tasks : ℕ
  pub connection : Connection R W

-- How a handler ends: it returns, an assertion fails, or an exception leaves it, which ends the
-- program. (`stuck` says that a loop's fuel ran out.)
pub data Outcome (S : Type 0) : Type 0 where
  done : S → Outcome S
  failed thrown stuck : Outcome S

-- What happens to a connection in its loop: its three events, and the two tasks.
pub data Happening : Type 0 where
  readable writable hung_up completed close_queued : Happening

-- What the callback works on. It calls `Send()` last, if it does.
abbrev pub exchange_of : {R W : Type 0} → Session R W → Exchange
exchange_of s = record {
  request = s.request;
  response = s.response;
  read_buffer = s.connection.read_buffer;
  outgoing = s.connection.outgoing;
  alive = s.alive;
  sends = 0;
}

abbrev pub with_exchange : {R W : Type 0} → Session R W → Exchange → Session R W
with_exchange s x = record s {
  request = x.request;
  response = x.response;
  alive = x.alive;
  connection = record s.connection { read_buffer = x.read_buffer; outgoing = x.outgoing };
}

-- What the handlers of the connection give.
unfoldable pub with_connection :
    {R W : Type 0} → Session R W → Option (Connection R W) → Outcome (Session R W)
with_connection s none = failed
with_connection s (some c) = done (record s { connection = c })

-- The calls of the `HttpCallback` in a run of the parser and of what follows its answer.
abbrev pub calls_of : Turn → ℕ
calls_of (again r b) = 0
calls_of (answer code r b) = if is_get code then 1 else 0
calls_of (throw r b) = 0

module _ {R W : Type 0} where
  -- `connectedCb`: a new `HttpContext`. The method of its request is what was in memory.
  unfoldable pub connected_callback : Method → Session R W → Session R W
  unfolding new_request new_response
  connected_callback garbage s = record s {
    request = new_request garbage;
    response = new_response client_error_not_found;
  }

  -- `handleClose()`
  unfoldable pub close : Session R W → Outcome (Session R W)
  unfolding with_connection
  close s = with_connection s (handle_close s.connection)

  -- The task that `sendInLoop` and `handleWrite` queue: `WriteCompleteCallback`.
  unfoldable pub complete : Session R W → Session R W
  complete s =
      let c = s.connection in
      let left = record s { connection = record c { completes = c.completes - 1 } } in
      if c.completes == 0
      then s
      else if write_complete_callback (exchange_of s)
      then record left { closing_tasks = suc s.closing_tasks }
      else left

  -- The task that `mServer.Close(conn)` queues.
  unfoldable pub run_close : Session R W → Outcome (Session R W)
  unfolding close
  run_close s =
      let closed = close (record s { closing_tasks = s.closing_tasks - 1 }) in
      if s.closing_tasks == 0 then done s else closed

module _ (r : Receiver) (k : Sender) (serve : HttpRequest → HttpResponse → HttpResponse)
    (decimal : ℤ → List ℕ) where
  open r use {S as R}
  open k use {S as W}

  -- `sendInLoop()`, from what `sendMessage` gives on.
  unfoldable pub sent : Session R W → Option (ℤ × Outgoing × W) → Outcome (Session R W)
  unfolding with_connection
  sent s none = stuck
  sent s (some (ret, o, w)) =
      with_connection s
        (sent_in_loop true (record s.connection { outgoing = o; output = w }) (to_int ret))

  unfoldable pub send : Session R W → Outcome (Session R W)
  unfolding sent
  send s = sent s (send_message k s.connection.outgoing s.connection.output)

  unfoldable pub called_back : Session R W → Callback → Outcome (Session R W)
  unfolding send
  called_back s (returned x) =
      let sent = send (with_exchange s x) in if x.sends == 0 then done (with_exchange s x) else sent
  called_back s (raised x) = thrown
  called_back s unfinished = stuck

  -- `onMessageCallback` on what was read.
  unfoldable pub message : Session R W → Outcome (Session R W)
  unfolding called_back
  message s =
      let calls = calls_of (process_read s.request s.connection.read_buffer) in
      called_back (record s { served = s.served + calls })
        (on_message_callback serve decimal (exchange_of s))

  unfoldable pub received : Session R W → ℤ → Outcome (Session R W)
  unfolding close message
  received s (negsuc n) = close s
  received s (pos zero) = close s
  received s (pos (suc n)) = message s

  -- `handleRead()`, from what `recvMessage` gives on.
  unfoldable pub took : Session R W → Option (ℤ × FixedBuffer × R) → Outcome (Session R W)
  unfolding received
  took s none = stuck
  took s (some (ret, b, i)) =
      received (record s { connection = record s.connection { read_buffer = b; input = i } }) ret

  unfoldable pub handle_read : Session R W → Outcome (Session R W)
  unfolding took
  handle_read s = took s (read_fd r s.connection.read_buffer s.connection.input)

  -- `handleWrite()`, from what `sendMessage` gives on.
  unfoldable pub gave : Session R W → Option (ℤ × Outgoing × W) → Outcome (Session R W)
  unfolding with_connection
  gave s none = stuck
  gave s (some (ret, o, w)) =
      with_connection s (written true (record s.connection { outgoing = o; output = w }) ret)

  unfoldable pub handle_write : Session R W → Outcome (Session R W)
  unfolding gave
  handle_write s = gave s (send_message k s.connection.outgoing s.connection.output)

  unfoldable pub happen : Happening → Session R W → Outcome (Session R W)
  unfolding handle_read handle_write close complete run_close
  happen readable s = handle_read s
  happen writable s = handle_write s
  happen hung_up s = close s
  happen completed s = done (complete s)
  happen close_queued s = run_close s

  -- The next happening, if nothing has ended the program.
  unfoldable pub then_happen : Outcome (Session R W) → Happening → Outcome (Session R W)
  unfolding happen
  then_happen (done s) h = happen h s
  then_happen failed h = failed
  then_happen thrown h = thrown
  then_happen stuck h = stuck

  unfoldable pub happen_all : List Happening → Outcome (Session R W) → Outcome (Session R W)
  unfolding then_happen
  happen_all [] o = o
  happen_all (h ∷ hs) o = happen_all hs (then_happen o h)
