-- ===== src/Net/Connection/Tests.antt =====
-- The theorems about the life of a connection at concrete inputs.
use knpnl.Prelude.{
  ℕ, ◌≡◌, ◌≢◌, refl, none, some, List, [], ◌∷◌, true, false, Bool, if◌then◌else◌, ◌==◌, arith,
}
use knpnl.Kernel.{
  bytes, Status, open_end, broken, closed_end, ended, Receiver, Sender, would_block, refused,
}
use knpnl.Kernel.Sockets.{socket}
use knpnl.Buffer.{FixedBuffer, used, avail}
use knpnl.Buffer.Contents.{contents}
use knpnl.Event.Poller.{none_event}
use knpnl.Event.Channel.{read_event, write_event, disable_all, remove}
use knpnl.Net.TcpConnection.{Outgoing, send_message}
use knpnl.Net.Connection.{
  connected, closing, closed, Connection, Happening, close_queued, destroy_queued, happen_all,
  handle_close, handle_read, close_open, on_channel, destroy, destruct, send_in_loop,
}
use knpnl.Net.Connection.Once.{Once, is_closed}
use knpnl.Net.Connection.Calls.{ReadShutdown, Task, run_tasks, run_task, close}
use knpnl.Net.Connection.Closing.{close-handle_read}
use knpnl.Net.Connection.Lifetime.{happen_all-Once, send_in_loop-destroy}

-- A socket whose peer has closed.
abbrev ended_socket : Receiver
ended_socket = record {
  S = List ℕ;
  recv = λ s len. (bytes [], []);
  pending = λ s. [];
  status = λ s. closed_end;
  recv_lem = λ s len h. ended refl refl refl refl;
}

-- A socket with no room.
abbrev full_socket : Sender
full_socket = record {
  S = List ℕ;
  writev = λ s out. (would_block, s);
  sent = λ s. s;
  writev_lem = λ s out. refused refl refl;
}

abbrev echo : FixedBuffer → Outgoing → (FixedBuffer × Outgoing) × Bool
echo b o = ((b, o), true)

abbrev connection : Connection (List ℕ) (List ℕ)
connection = record {
  state = connected;
  channel = record {
    fd = 4;
    events = read_event;
    received = none_event;
    is_handling = false;
    is_in_loop = true;
  };
  poller = record { has = λ fd. fd == 4; interest = λ fd. some read_event; list_size = 1000 };
  read_buffer = record { mem = 0 ∷ 0 ∷ 0 ∷ []; read_ptr = 0; write_ptr = 0 };
  outgoing = record {
    buffer = record { mem = 9 ∷ 0 ∷ 0 ∷ []; read_ptr = 0; write_ptr = 1 };
    file = [];
  };
  input = [];
  output = [];
  completes = 0;
  closes = 0;
}

abbrev happenings : List (Happening ended_socket full_socket true echo)
happenings = close_queued ∷ close_queued ∷ destroy_queued ∷ []

connection-Once : Once false connection
unfolding is_closed
connection-Once = record {
  at_most = omega arith;
  none_yet = λ h. refl;
  in_loop = refl;
  handling = refl;
}

abbrev after : Connection (List ℕ) (List ℕ)
after = record connection {
  state = closed;
  channel = record connection.channel { events = none_event; is_in_loop = false };
  poller = record connection.poller {
    has = λ j. if 4 == j then false else (j == 4);
    interest = λ j. if 4 == j then none else (if 4 == j then some none_event else some read_event);
  };
  closes = 1;
}

happen_all-Once_example :
    Once false after
    × (after.state ≡ closed → destruct after ≢ none)
    × (after.state ≢ closed → destruct after ≡ none)
unfolding happen_all handle_close close_open on_channel destroy disable_all remove
happen_all-Once_example =
    happen_all-Once ended_socket full_socket true echo happenings connection after connection-Once
      refl

send_in_loop-destroy_example :
    (c' : Connection (List ℕ) (List ℕ)) × (send_in_loop ended_socket full_socket true echo
        (record connection { state = closing })
      ≡ some c')
    × (c'.state ≡ closing)
    × (c'.channel.events ≡ write_event)
    × (c'.poller.interest connection.channel.fd ≡ some write_event)
    × (c'.outgoing ≡ connection.outgoing)
    × (destroy c' ≡ none)
unfolding send_message used
send_in_loop-destroy_example =
    send_in_loop-destroy ended_socket full_socket true echo (record connection { state = closing })
      0 refl (omega arith) refl

-- The end is put behind what waits.
abbrev ends : Status → Status
ends open_end = closed_end
ends closed_end = closed_end
ends broken = broken

ends-closed : (st : Status) → st ≢ broken → ends st ≡ closed_end
ends-closed open_end h = refl
ends-closed closed_end h = refl
ends-closed broken h = absurd (h refl)

abbrev down : ReadShutdown socket
down = record {
  shut = λ (l, st). (l, ends st);
  pending_lem = λ s. refl;
  status_lem = λ (l, st) h. ends-closed st h;
}

abbrev echoing : Connection (List ℕ × Status) (List ℕ)
echoing = record {
  state = connected;
  channel = connection.channel;
  poller = connection.poller;
  read_buffer = record { mem = 1 ∷ 0 ∷ 0 ∷ 0 ∷ []; read_ptr = 0; write_ptr = 1 };
  outgoing = connection.outgoing;
  input = (7 ∷ 8 ∷ [], open_end);
  output = [];
  completes = 0;
  closes = 0;
}

close-handle_read_example :
    (q : List Task × Connection (List ℕ × Status) (List ℕ)) × (shut c' : Connection
      (List ℕ × Status)
      (List ℕ))
    × (close socket full_socket true echo down false ([], echoing) ≡ some q)
    × (run_tasks (run_task socket full_socket true echo down) q ≡ some shut)
    × (handle_read socket full_socket true echo shut ≡ some c')
    × (c'.state ≡ closing)
    × (c'.closes ≡ 1)
    × (contents c'.read_buffer ≡ 1 ∷ 7 ∷ 8 ∷ [])
    × (c'.outgoing ≡ echoing.outgoing)
    × (c'.output ≡ [])
unfolding avail used
close-handle_read_example =
    close-handle_read socket full_socket true echo down false echoing refl refl (omega arith)
      (λ h. cc) (omega arith)
