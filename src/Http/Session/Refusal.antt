-- ===== src/Http/Session/Refusal.antt =====
-- The end of a request of the HTTP server whose reply was sent at once: `mAlive` decides between
-- the next request and the end of the connection.
use knpnl.Prelude.{
  ℕ, suc, ◌+◌, ◌-◌, ◌≡◌, ◌≢◌, refl, List, [], ◌∷◌, some, ℤ, pos, Bool, true, false, ◌==◌, arith,
}
use knpnl.Kernel.{Receiver, Sender}
use knpnl.Event.Poller.{Channel, none_event}
use knpnl.Event.Channel.{disable_all}
use knpnl.Http.Request.{HttpRequest}
use knpnl.Http.Process.{process_read}
use knpnl.Http.Response.{HttpResponse}
use knpnl.Http.Server.{Exchange, returned, on_message_callback, write_complete_callback}
use knpnl.Net.TcpConnection.{Outgoing, send_message}
use knpnl.Net.Connection.{
  connected, closing, on_channel, close_open, handle_close, sent_in_loop, to_int,
}
use knpnl.Http.Session.{
  Session, Outcome, done, failed, thrown, stuck, exchange_of, calls_of, with_exchange,
  with_connection, close, complete, run_close, sent, send, called_back, message, completed,
  close_queued, happen, then_happen, happen_all,
}

module _ {R W : Type 0} where
  -- Where the reply leaves the connection: open and as it was, or closing, with the poller deaf to
  -- it and the server told.
  abbrev pub Replied : Bool → Channel → ℕ → Outcome (Session R W) → Type 0
  Replied true ch closes (done s') =
      (s'.connection.state ≡ connected)
      × (s'.connection.closes ≡ closes)
      × (s'.connection.channel ≡ ch)
  Replied false ch closes (done s') =
      (s'.connection.state ≡ closing)
      × (s'.connection.closes ≡ suc closes)
      × (s'.connection.channel.events ≡ none_event)
  Replied alive ch closes failed = ⊥
  Replied alive ch closes thrown = ⊥
  Replied alive ch closes stuck = ⊥

  close-Replied :
      (s : Session R W)
      → s.connection.state ≡ connected
      → s.connection.poller.has s.connection.channel.fd ≡ true
      → Replied false s.connection.channel s.connection.closes (close s)
  unfolding close with_connection handle_close close_open on_channel disable_all
  close-Replied s e h = ground arith

  run_tasks-Replied :
      (s : Session R W) (alive : Bool)
      → s.alive ≡ alive
      → s.connection.state ≡ connected
      → s.connection.poller.has s.connection.channel.fd ≡ true
      → s.connection.completes ≢ 0
      → s.closing_tasks ≡ 0
      → Replied alive s.connection.channel s.connection.closes (run_close (complete s))
  unfolding run_close complete write_complete_callback
  run_tasks-Replied s true a e h c t = ground arith
  run_tasks-Replied s false a e h c t = ground (
    arith,
    close-Replied
        (record s {
          connection = record s.connection { completes = s.connection.completes - 1 };
          closing_tasks = 0;
        })
        e h,
  )

module _ (r : Receiver) (k : Sender) (serve : HttpRequest → HttpResponse → HttpResponse)
    (decimal : ℤ → List ℕ) where
  open r use {S as R}
  open k use {S as W}

  called_back_sent :
      (s : Session R W) (x : Exchange) (o : Outgoing) (w : W)
      → x.sends ≢ 0
      → send_message k x.outgoing s.connection.output ≡ some (pos 0, o, w)
      → called_back r k serve decimal s (returned x)
        ≡ done (record (with_exchange s x) {
          connection = record s.connection {
            read_buffer = x.read_buffer;
            outgoing = o;
            output = w;
            completes = suc s.connection.completes;
          };
        })
  unfolding called_back send sent with_connection sent_in_loop to_int
  called_back_sent s x o w h e =
      let z : (x.sends == 0) ≡ false = ground arith in rw (z, send, e) refl

  -- The end of a reply: where the callback on an open connection, whose channel the poller has
  -- and for which no close is queued, calls `Send` and the socket takes all at once, the two
  -- tasks that may follow leave the connection as `mAlive` says: open, with its channel as it
  -- was, or closing, with its channel deaf and the server told once.
  pub message-Replied :
      (s : Session R W) (x : Exchange) (o : Outgoing) (w : W)
      → s.connection.state ≡ connected
      → s.connection.poller.has s.connection.channel.fd ≡ true
      → s.closing_tasks ≡ 0
      → on_message_callback serve decimal (exchange_of s) ≡ returned x
      → x.sends ≢ 0
      → send_message k x.outgoing s.connection.output ≡ some (pos 0, o, w)
      → Replied x.alive s.connection.channel s.connection.closes (
          happen_all r k serve decimal
            (completed ∷ close_queued ∷ [])
            (message r k serve decimal s))
  unfolding message happen_all then_happen happen
  message-Replied s x o w state known tasks back sends out =
      let calls = calls_of (process_read s.request s.connection.read_buffer) in
      let counted : Session R W = record s { served = s.served + calls } in
      rw (back, called_back_sent counted x o w sends out)
        (run_tasks-Replied _ x.alive refl state known (omega arith) tasks)
