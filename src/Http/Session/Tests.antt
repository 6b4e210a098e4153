-- ===== src/Http/Session/Tests.antt =====
-- The theorems about a connection of the HTTP server at concrete inputs.
use knpnl.Prelude.{
  ℕ, zero, suc, refl, none, some, List, [], ◌∷◌, ◌++◌, true, false, ◌==◌, ℤ, pos, arith,
}
use knpnl.Kernel.{Status, open_end}
use knpnl.Kernel.Sockets.{socket, roomy}
use knpnl.Buffer.{used}
use knpnl.Event.Poller.{none_event}
use knpnl.Event.Channel.{read_event}
use knpnl.Http.CString.{codes, c_str}
use knpnl.Http.Request.{HttpRequest, new, get, bad_request, line_bad}
use knpnl.Http.Response.{HttpResponse, success_ok}
use knpnl.Http.Server.{Exchange, on_answer, on_message_callback}
use knpnl.Net.TcpConnection.{send_message}
use knpnl.Net.Connection.{connected}
use knpnl.Http.Session.{
  Session, done, exchange_of, Happening, readable, writable, hung_up, completed, close_queued,
  message, happen_all,
}
use knpnl.Http.Session.Bounds.{Sound, Survives}
use knpnl.Http.Session.Survival.{happen_all-Survives}
use knpnl.Http.Session.Once.{ServedOnce, happen_all-ServedOnce}
use knpnl.Http.Session.Refusal.{Replied, message-Replied}

abbrev zeros : ℕ → List ℕ
zeros zero = []
zeros (suc n) = 0 ∷ zeros n

abbrev serve_nothing : HttpRequest → HttpResponse → HttpResponse
serve_nothing request response = response

abbrev two : ℤ → List ℕ
two n = codes "2"

-- A connection that has just been made, and whose peer has sent two requests.
abbrev fresh : Session (List ℕ × Status) (List ℕ)
unfolding new
fresh = record {
  request = new get;
  response = record {
    headers = [];
    is_alive = true;
    content_length = pos 2;
    body = codes "no";
    status_code = success_ok;
    file_system = record { path = []; file_length = 0; file = none };
  };
  alive = true;
  served = 0;
  closing_tasks = 0;
  connection = record {
    state = connected;
    channel = record {
      fd = 4;
      events = read_event;
      received = none_event;
      is_handling = false;
      is_in_loop = true;
    };
    poller = record { has = λ fd. fd == 4; interest = λ fd. some read_event; list_size = 1000 };
    read_buffer = record { mem = zeros 64; read_ptr = 0; write_ptr = 0 };
    outgoing = record {
      buffer = record { mem = zeros 160; read_ptr = 0; write_ptr = 0 };
      file = [];
    };
    input = (
      codes "GET / HTTP/1.1"
          ++ (13 ∷ 10 ∷ 13 ∷ 10 ∷ [])
          ++ codes "GET / HTTP/1.1"
          ++ (13 ∷ 10 ∷ 13 ∷ 10 ∷ []),
      open_end,
    );
    output = [];
    completes = 0;
    closes = 0;
  };
}

abbrev happenings : List Happening
happenings = readable ∷ completed ∷ writable ∷ readable ∷ close_queued ∷ hung_up ∷ []

fresh-Sound : Sound fresh.request.check_index fresh.connection
unfolding used fresh
fresh-Sound = record {
  read_valid = omega arith;
  read_small = omega arith;
  index_in = omega arith;
  write_valid = omega arith;
  registered = refl;
}

happen_all-Survives_example :
    Survives (happen_all socket roomy serve_nothing two happenings (done fresh))
happen_all-Survives_example =
    happen_all-Survives socket roomy serve_nothing two happenings fresh fresh-Sound

happen_all-ServedOnce_example :
    ServedOnce (happen_all socket roomy serve_nothing two happenings (done fresh))
unfolding fresh
happen_all-ServedOnce_example =
    happen_all-ServedOnce socket roomy serve_nothing two happenings fresh refl

-- A line that begins with its end.
abbrev confused : Session (List ℕ × Status) (List ℕ)
confused = record fresh {
  connection = record fresh.connection {
    read_buffer = record { mem = 10 ∷ zeros 63; read_ptr = 0; write_ptr = 1 };
  };
}

abbrev refused : Exchange
refused =
    on_answer serve_nothing two bad_request (record (exchange_of confused) {
      request = record confused.request { line_state = line_bad };
    })

message-Replied_example : Replied false confused.connection.channel 0 (
    happen_all socket roomy serve_nothing two
      (completed ∷ close_queued ∷ [])
      (message socket roomy serve_nothing two confused))
unfolding on_answer on_message_callback fresh send_message c_str
message-Replied_example =
    message-Replied socket roomy serve_nothing two confused refused _ _ refl refl refl refl
      (λ e. cc) refl
