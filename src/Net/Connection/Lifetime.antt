-- ===== src/Net/Connection/Lifetime.antt =====
-- The close callback and the destructor over the life of a connection.
use knpnl.Prelude.{
  ℕ, zero, suc, ◌^◌, ◌<◌, ◌≡◌, ◌≢◌, refl, Bool, true, false, Option, none, some, List, [], ◌∷◌, ℤ,
  pos, negsuc, arith,
}
use knpnl.Kernel.{Receiver, Sender}
use knpnl.Buffer.{FixedBuffer}
use knpnl.Buffer.ReadFd.{read_fd}
use knpnl.Event.Poller.{update}
use knpnl.Event.Channel.{
  enable_write, write_event, handle_event, Callback, close, error, read, write,
}
use knpnl.Net.TcpConnection.{Outgoing, send_message}
use knpnl.Net.Connection.{
  closed, Connection, on_channel, sent_in_loop, written, destroy, destruct, send_in_loop,
  handle_write, message, received, handle_read, call, on_event, Happening, event, send,
  close_queued, destroy_queued, happen, happen_all, to_int,
}
use knpnl.Net.Connection.Once.{
  Once, Keeps, is_closed, bind-some, same_result, same-Once, handle_close-Keeps, destroy-Keeps,
  sent_in_loop-Keeps, written-Keeps,
}

module _ {R W : Type 0} where
  -- The channel asks for room.
  abbrev waiting : Connection R W → Connection R W
  waiting c = record c {
    channel = record c.channel { events = write_event };
    poller = record c.poller {
      interest = update c.poller.interest c.channel.fd (some write_event);
    };
  }

  waits :
      (c : Connection R W)
      → c.poller.has c.channel.fd ≡ true
      → on_channel enable_write c ≡ some (waiting c)
  unfolding on_channel enable_write
  waits c p = rw (on_channel, enable_write, p) refl

to_int-small : (n : ℕ) → n < 2 ^ 31 → to_int (pos n) ≡ pos n
unfolding to_int
to_int-small n h = ground arith

module _ (busy : Bool) (r : Receiver) (k : Sender) (set : Bool)
    (on_message : FixedBuffer → Outgoing → (FixedBuffer × Outgoing) × Bool) where
  open r use {S as R}
  open k use {S as W}

  send_in_loop-Keeps : Keeps busy {R = R} {W = W} (send_in_loop r k set on_message)
  unfolding send_in_loop
  send_in_loop-Keeps c c' o h =
      let ((ret, out, s), e, g) =
        bind-some (send_message k c.outgoing c.output)
          (λ (ret, out, s). sent_in_loop set (record c { outgoing = out; output = s }) (to_int ret))
          h in
      sent_in_loop-Keeps set (to_int ret) (record c { outgoing = out; output = s }) c'
        (same-Once c _ refl refl refl refl o) g

  handle_write-Keeps : Keeps busy {R = R} {W = W} (handle_write r k set on_message)
  unfolding handle_write
  handle_write-Keeps c c' o h =
      let ((ret, out, s), e, g) =
        bind-some (send_message k c.outgoing c.output)
          (λ (ret, out, s). written set (record c { outgoing = out; output = s }) ret) h in
      written-Keeps set ret (record c { outgoing = out; output = s }) c'
        (same-Once c _ refl refl refl refl o) g

  message-Keeps : Keeps busy {R = R} {W = W} (message r k set on_message)
  unfolding message
  message-Keeps c c' o h = by_answer (on_message c.read_buffer c.outgoing) h
    where
      by_answer :
          (out : (FixedBuffer × Outgoing) × Bool)
          → (elim out.1 [
            | true ↦
                send_in_loop r k set on_message
                  (record c { read_buffer = out.0.0; outgoing = out.0.1 })
            | false ↦ some (record c { read_buffer = out.0.0; outgoing = out.0.1 })
          ])
            ≡ some c'
          → Once busy c'
      by_answer (p, true) h' = send_in_loop-Keeps _ c' (same-Once c _ refl refl refl refl o) h'
      by_answer (p, false) h' = same_result h' (same-Once c _ refl refl refl refl o)

  received-Keeps : (n : ℤ) → Keeps busy {R = R} {W = W} (λ c. received r k set on_message c n)
  unfolding received
  received-Keeps (negsuc n) c c' o h = handle_close-Keeps c c' o h
  received-Keeps (pos zero) c c' o h = handle_close-Keeps c c' o h
  received-Keeps (pos (suc n)) c c' o h = message-Keeps c c' o h

  handle_read-Keeps : Keeps busy {R = R} {W = W} (handle_read r k set on_message)
  unfolding handle_read
  handle_read-Keeps c c' o h =
      let ((ret, b, s), e, g) =
        bind-some (read_fd r c.read_buffer c.input)
          (λ (ret, b, s). received r k set on_message (record c { read_buffer = b; input = s }) ret)
          h in
      received-Keeps ret (record c { read_buffer = b; input = s }) c'
        (same-Once c _ refl refl refl refl o) g

  call-Keeps : (b : Option Callback) → Keeps busy {R = R} {W = W} (call r k set on_message b)
  unfolding call
  call-Keeps (some close) c c' o h = handle_close-Keeps c c' o h
  call-Keeps (some error) c c' o h = same_result h o
  call-Keeps (some read) c c' o h = handle_read-Keeps c c' o h
  call-Keeps (some write) c c' o h = handle_write-Keeps c c' o h
  call-Keeps none c c' o h = same_result h o

module _ {R W : Type 0} where
  -- `isHandling` is set.
  marked : Bool → Connection R W → Connection R W
  marked h c = record c { channel = record c.channel { is_handling = h } }

  marked-Once :
      (before after : Bool) (c : Connection R W) → Once before c → Once after (marked after c)
  unfolding marked
  marked-Once before after c o = record {
    at_most = o.at_most;
    none_yet = o.none_yet;
    in_loop = o.in_loop;
    handling = refl;
  }

  destruct_closed : (c : Connection R W) → Once false c → c.state ≡ closed → destruct c ≢ none
  unfolding destruct is_closed
  destruct_closed c o h = ground (arith, o.in_loop, o.handling)

  destruct_other : (c : Connection R W) → Once false c → c.state ≢ closed → destruct c ≡ none
  unfolding destruct is_closed
  destruct_other c o h = ground (arith, o.in_loop, o.handling)

module _ (r : Receiver) (k : Sender) (set : Bool)
    (on_message : FixedBuffer → Outgoing → (FixedBuffer × Outgoing) × Bool) where
  open r use {S as R}
  open k use {S as W}

  happen-Keeps :
      (a : Happening r k set on_message) → Keeps false {R = R} {W = W} (happen r k set on_message a)
  unfolding happen on_event marked
  happen-Keeps (event e) c c' o h =
      let (d, x, g) =
        bind-some (call r k set on_message (handle_event e) (marked true c))
          (λ d. some (marked false d)) h in
      same_result g (
        marked-Once true false d (
          call-Keeps true r k set on_message (handle_event e) (marked true c) d
            (marked-Once false true c o) x))
  happen-Keeps send c c' o h = send_in_loop-Keeps false r k set on_message c c' o h
  happen-Keeps close_queued c c' o h = handle_close-Keeps c c' o h
  happen-Keeps destroy_queued c c' o h = destroy-Keeps c c' o h

  happen_all-Keeps :
      (hs : List (Happening r k set on_message))
      → Keeps false {R = R} {W = W} (happen_all r k set on_message hs)
  unfolding happen_all
  happen_all-Keeps [] c c' o h = same_result h o
  happen_all-Keeps (a ∷ hs) c c' o h =
      let (d, x, g) =
        bind-some (happen r k set on_message a c) (λ d. happen_all r k set on_message hs d) h in
      happen_all-Keeps hs d c' (happen-Keeps a c d o x) g

  -- Behind any sequence of events, sends, closes and destructions that fails no assertion: the
  -- close callback, by which the server forgets the connection and queues its destruction, was
  -- called at most once, and not while the connection is open, if this held before; and the
  -- assertions of the destructor hold when the connection is closed, and one fails when it is
  -- not. The channel is handling no event when this begins, and is the loop's unless the
  -- connection is closed.
  pub happen_all-Once :
      (hs : List (Happening r k set on_message)) (c c' : Connection R W)
      → Once false c
      → happen_all r k set on_message hs c ≡ some c'
      → Once false c'
        × (c'.state ≡ closed → destruct c' ≢ none)
        × (c'.state ≢ closed → destruct c' ≡ none)
  happen_all-Once hs c c' o h =
      let o' = happen_all-Keeps hs c c' o h in (o', destruct_closed c' o', destruct_other c' o')

  -- A `Send` that has to wait asks epoll for room and for nothing else, in whatever state the
  -- connection is, and `Destroy` then fails its assertion: for a channel that the poller has, and
  -- at least one and fewer than 2^31 bytes left.
  pub send_in_loop-destroy :
      (c : Connection R W) (n : ℕ) {o : Outgoing} {s : W}
      → send_message k c.outgoing c.output ≡ some (pos (suc n), o, s)
      → suc n < 2 ^ 31
      → c.poller.has c.channel.fd ≡ true
      → (c' : Connection R W) × (send_in_loop r k set on_message c ≡ some c')
        × (c'.state ≡ c.state)
        × (c'.channel.events ≡ write_event)
        × (c'.poller.interest c.channel.fd ≡ some write_event)
        × (c'.outgoing ≡ o)
        × (destroy c' ≡ none)
  unfolding send_in_loop sent_in_loop destroy
  send_in_loop-destroy c n {o} {s} e h p = (
    waiting (record c { outgoing = o; output = s }),
    rw (send_in_loop, e)
        (rw (to_int-small (suc n) h) (waits (record c { outgoing = o; output = s }) p)),
    refl,
    refl,
    ground arith,
    refl,
    refl,
  )
