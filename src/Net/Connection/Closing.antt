-- ===== src/Net/Connection/Closing.antt =====
-- What a `Close` of a connection leads to.
use knpnl.Prelude.{
  suc, ◌<◌, ◌≡◌, ◌≢◌, refl, ◌∙◌, ap, Bool, true, false, some, List, [], ◌∷◌, ◌++◌, length,
  minus_one,
}
use knpnl.Kernel.{Receiver, Sender, broken}
use knpnl.Buffer.{FixedBuffer, avail}
use knpnl.Buffer.Contents.{IsValid, contents}
use knpnl.Buffer.ReadFd.{read_fd}
use knpnl.Buffer.ReadFd.Outcome.{read_fd_drains, read_fd_closed}
use knpnl.Event.Poller.{none_event, update}
use knpnl.Event.Channel.{disable_all}
use knpnl.Net.TcpConnection.{Outgoing}
use knpnl.Net.Connection.{
  connected, closing, Connection, on_channel, close_open, handle_close, received, handle_read,
}
use knpnl.Net.Connection.Calls.{
  ReadShutdown, Task, closing_down, run_tasks, run_task, close_in_loop, close,
}

module _ (r : Receiver) (k : Sender) (set : Bool)
    (on_message : FixedBuffer → Outgoing → (FixedBuffer × Outgoing) × Bool)
    (down : ReadShutdown r) where
  open r use {S as R}
  open k use {S as W}

  close-runs :
      (here : Bool) (c : Connection R W)
      → (q : List Task × Connection R W) × (close r k set on_message down here ([], c) ≡ some q)
        × (run_tasks (run_task r k set on_message down) q
            ≡ some (close_in_loop r k set on_message down c))
  unfolding close run_tasks
  close-runs true c = (([], close_in_loop r k set on_message down c), refl, refl)
  close-runs false c = ((closing_down ∷ [], c), refl, refl)

  -- A connection of which `handleClose` has made an end.
  abbrev closed_down : Connection R W → Connection R W
  closed_down c = record c {
    state = closing;
    channel = record c.channel { events = none_event };
    poller = record c.poller { interest = update c.poller.interest c.channel.fd (some none_event) };
    closes = suc c.closes;
  }

  handle_close-end :
      (c : Connection R W)
      → c.state ≡ connected
      → c.poller.has c.channel.fd ≡ true
      → handle_close c ≡ some (closed_down c)
  unfolding handle_close close_open on_channel disable_all
  handle_close-end c s h = rw (handle_close, s, close_open, on_channel, disable_all, h) refl

  handle_read-end :
      (c : Connection R W) (b : FixedBuffer) (i : R)
      → read_fd r c.read_buffer c.input ≡ some (minus_one, b, i)
      → c.state ≡ connected
      → c.poller.has c.channel.fd ≡ true
      → handle_read r k set on_message c
        ≡ some (closed_down (record c { read_buffer = b; input = i }))
  unfolding handle_read received
  handle_read-end c b i e s h =
      rw (handle_read, e) (handle_close-end (record c { read_buffer = b; input = i }) s h)

  -- `Close` of a connected connection with a valid read buffer, called in the loop's thread, or
  -- in another one whose task is then run, where the socket is not broken and less waits in it
  -- than the buffer has room for, and the poller has the channel: at the next `handleRead`,
  -- whether or not the peer has closed, the connection is closing and the server is told once,
  -- what waited is in the read buffer without a call of the message callback, and what waits to
  -- be written is not sent.
  pub close-handle_read :
      (here : Bool) (c : Connection R W)
      → c.state ≡ connected
      → c.poller.has c.channel.fd ≡ true
      → IsValid c.read_buffer
      → r.status c.input ≢ broken
      → length (r.pending c.input) < avail c.read_buffer
      → (q : List Task × Connection R W) × (shut c' : Connection R W) × (close r k set on_message
            down here
            ([], c)
          ≡ some q)
        × (run_tasks (run_task r k set on_message down) q ≡ some shut)
        × (handle_read r k set on_message shut ≡ some c')
        × (c'.state ≡ closing)
        × (c'.closes ≡ suc c.closes)
        × (contents c'.read_buffer ≡ contents c.read_buffer ++ r.pending c.input)
        × (c'.outgoing ≡ c.outgoing)
        × (c'.output ≡ c.output)
  unfolding close_in_loop
  close-handle_read here c s h v ok room =
      let (q, e, f) = close-runs here c in
      let c1 = close_in_loop r k set on_message down c in
      let ((ret, b, i), run, o) = read_fd_drains r c.read_buffer c1.input v in
      let (m, all) =
        read_fd_closed r c.read_buffer c1.input v (down.status_lem c.input ok)
          (rw (down.pending_lem c.input) room) run in
      (
        q,
        c1,
        closed_down (record c { read_buffer = b; input = i }),
        e,
        f,
        handle_read-end c1 b i (run ∙ ap (λ z. some (z, b, i)) m) s h,
        refl,
        refl,
        all ∙ ap (λ l. contents c.read_buffer ++ l) (down.pending_lem c.input),
        refl,
        refl,
      )
