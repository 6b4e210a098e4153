-- ===== src/Http/Server.antt =====
-- net/http/HttpServer.cpp: what the server does when a connection has read something, and when it
-- has written everything.
pub mod Answers
mod Tests
use knpnl.Prelude.{ℕ, suc, Bool, true, false, ◌&&◌, not, Option, none, some, List, if◌then◌else◌, ℤ}
use knpnl.Buffer.{FixedBuffer}
use knpnl.Http.Request.{
  HttpRequest, HttpCode, no_request, get_request, bad_request, no_resource, forbidden_request,
  file_request, internal_error, closed_connection, init, new,
}
use knpnl.Http.Process.{Turn, again, answer, throw, process_read}
use knpnl.Http.Response.{
  HttpResponse, StatusCode, success_ok, client_error_bad_request, bytes_from, append_to_buffer,
}
use knpnl.Net.TcpConnection.{Outgoing}

-- The context of a connection (its request and response), its buffers, and `mAlive`; `sends`
-- counts the calls of `Send()`.
pub record Exchange : Type 0 where
  pub request : HttpRequest
  pub response : HttpResponse
  pub read_buffer : FixedBuffer
  pub outgoing : Outgoing
  pub alive : Bool
  pub sends : ℕ

-- How the callback ends: it returns, or passes on an exception of the parser. (`unfinished` says
-- that the parser's fuel ran out.)
pub data Callback : Type 0 where
  returned raised : Exchange → Callback
  unfinished : Callback

-- The server's `HttpCallback`, and the decimal digits of an `int`.
module _ (serve : HttpRequest → HttpResponse → HttpResponse) (decimal : ℤ → List ℕ) where
  -- `resp.appendToBuffer(writeBuffer)`
  abbrev respond : Exchange → Exchange
  respond x = record x {
    outgoing = record x.outgoing { buffer = append_to_buffer decimal x.response x.outgoing.buffer };
  }

  -- `conn->Send()`
  abbrev call_send : Exchange → Exchange
  call_send x = record x { sends = suc x.sends }

  -- `if(resp.hasFile()) conn->setFile(resp.getFile())`: `getLength()` bytes from `getAddr()` on.
  abbrev set_file : Exchange → Exchange
  set_file x = record x {
    outgoing = record x.outgoing {
      file = elim x.response.file_system.file [
        | none ↦ x.outgoing.file
        | some f ↦ bytes_from f x.response.file_system.file_length
      ];
    };
  }

  -- The case BAD_REQUEST.
  unfoldable pub refuse : Exchange → Exchange
  unfolding append_to_buffer
  refuse x = respond (record x {
    response = record x.response { status_code = client_error_bad_request };
    alive = false;
  })

  -- The case GET_REQUEST.
  unfoldable pub grant : Exchange → Exchange
  unfolding append_to_buffer bytes_from init
  grant x =
      let served = serve x.request (record x.response { status_code = success_ok }) in
      let y = set_file (respond (record x { response = served })) in
      record y { alive = served.is_alive && x.request.is_alive; request = init x.request }

  -- The tests of the parser's answer, and `conn->Send()` behind them.
  unfoldable pub on_answer : HttpCode → Exchange → Exchange
  unfolding refuse grant
  on_answer no_request x = x
  on_answer bad_request x = call_send (refuse x)
  on_answer get_request x = call_send (grant x)
  on_answer no_resource x = call_send x
  on_answer forbidden_request x = call_send x
  on_answer file_request x = call_send x
  on_answer internal_error x = call_send x
  on_answer closed_connection x = call_send x

  unfoldable pub parsed : Exchange → Turn → Callback
  unfolding on_answer
  parsed x (again r b) = unfinished
  parsed x (answer code r b) = returned (on_answer code (record x { request = r; read_buffer = b }))
  parsed x (throw r b) = raised (record x { request = r; read_buffer = b })

  -- `onMessageCallback`
  unfoldable pub on_message_callback : Exchange → Callback
  unfolding process_read parsed
  on_message_callback x = parsed x (process_read x.request x.read_buffer)

-- `WriteCompleteCallback`: whether the server is asked to close the connection.
unfoldable pub write_complete_callback : Exchange → Bool
write_complete_callback x = not x.alive
