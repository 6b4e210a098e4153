-- ===== src/Http/Session/Bounds.antt =====
-- Whether the handlers of one connection of the HTTP server return, and keep its buffers valid.
use knpnl.Prelude.{
  ℕ, zero, suc, ◌≤◌, ◌<◌, ◌^◌, ◌≡◌, refl, inl, inr, List, Option, none, some, ℤ, pos, negsuc, Bool,
  true, Bool-cases, Option-cases, subst, ◌==◌, arith,
}
use knpnl.Kernel.{Receiver, Sender}
use knpnl.Buffer.{FixedBuffer, capacity, used}
use knpnl.Buffer.Contents.{IsValid}
use knpnl.Event.Poller.{Channel, Poller}
use knpnl.Event.Channel.{enable_write, disable_write, disable_all}
use knpnl.Event.Channel.Interest.{Syncs, calls-Syncs}
use knpnl.Http.Request.{HttpRequest}
use knpnl.Http.Response.{HttpResponse}
use knpnl.Net.TcpConnection.{Outgoing, send_message}
use knpnl.Net.TcpConnection.Send.{SendOutcome, all_sent, waits, broken, send_message-SendOutcome}
use knpnl.Net.Connection.{
  ConnectionState, connecting, connected, closing, closed, Connection, on_channel, close_open,
  handle_close, sent_in_loop, written, to_int,
}
use knpnl.Http.Session.{
  Session, Outcome, done, failed, thrown, stuck, with_connection, close, complete, run_close, sent,
  gave,
}

-- Both buffers are valid, the parser's index is within the unread bytes, and the loop's poller has
-- the channel.
pub record SoundAt (index : ℕ) (input output : FixedBuffer) (known : Bool) : Type 0 where
  pub read_valid : IsValid input
  pub read_small : capacity input < 2 ^ 32
  pub index_in : index ≤ used input
  pub write_valid : IsValid output
  pub registered : known ≡ true

abbrev pub Sound : {R W : Type 0} → ℕ → Connection R W → Type 0
Sound i c = SoundAt i c.read_buffer c.outgoing.buffer (c.poller.has c.channel.fd)

module _ {R W : Type 0} (i : ℕ) where
  abbrev Goes : Option (Connection R W) → Type 0
  Goes none = ⊥
  Goes (some c) = Sound i c

  on_channel-Goes :
      (f : Channel → Poller → Option (Channel × Poller)) (c : Connection R W)
      → Sound i c
      → Syncs (f c.channel c.poller)
      → Goes (on_channel f c)
  unfolding on_channel
  on_channel-Goes f c s h = elim (Option-cases (f c.channel c.poller)) [
    | inl e ↦ absurd (subst Syncs e h)
    | inr (q, e) ↦
        rw (on_channel, e)
          (record {
            read_valid = s.read_valid;
            read_small = s.read_small;
            index_in = s.index_in;
            write_valid = s.write_valid;
            registered = (subst Syncs e h).known;
          })
  ]

  counted-Goes :
      (o : Option (Connection R W))
      → Goes o
      → Goes (elim o [ none ↦ none | some c ↦ some (record c { closes = suc c.closes }) ])
  counted-Goes none s = s
  counted-Goes (some c) s = s

  close_open-Goes : (c : Connection R W) → Sound i c → Goes (close_open c)
  unfolding close_open
  close_open-Goes c s = counted-Goes (on_channel disable_all (record c { state = closing })) (
      on_channel-Goes disable_all (record c { state = closing }) s
        (calls-Syncs c.channel c.poller s.registered).4)

  handle_close-Goes : (c : Connection R W) → Sound i c → Goes (handle_close c)
  unfolding handle_close
  handle_close-Goes c s = by_state c.state refl
    where
      by_state : (t : ConnectionState) → c.state ≡ t → Goes (handle_close c)
      by_state connecting e = rw (handle_close, e) (close_open-Goes c s)
      by_state connected e = rw (handle_close, e) (close_open-Goes c s)
      by_state closing e = rw (handle_close, e) s
      by_state closed e = rw (handle_close, e) s

  sent_in_loop-Goes : (c : Connection R W) (n : ℤ) → Sound i c → Goes (sent_in_loop true c n)
  unfolding sent_in_loop
  sent_in_loop-Goes c (negsuc zero) s = handle_close-Goes c s
  sent_in_loop-Goes c (negsuc (suc n)) s = s
  sent_in_loop-Goes c (pos zero) s = record s {}
  sent_in_loop-Goes c (pos (suc n)) s =
      on_channel-Goes enable_write c s (calls-Syncs c.channel c.poller s.registered).2

  written-Goes : (c : Connection R W) (n : ℤ) → Sound i c → Goes (written true c n)
  unfolding written
  written-Goes c (negsuc zero) s = handle_close-Goes c s
  written-Goes c (negsuc (suc n)) s = s
  written-Goes c (pos zero) s =
      on_channel-Goes disable_write _ (record s {}) (calls-Syncs c.channel c.poller s.registered).3
  written-Goes c (pos (suc n)) s = s

-- How an outcome may be: the state is sound, or an exception has left the handler.
abbrev pub Survives : {R W : Type 0} → Outcome (Session R W) → Type 0
Survives (done s) = Sound s.request.check_index s.connection
Survives thrown = Unit
Survives failed = ⊥
Survives stuck = ⊥

module _ {R W : Type 0} where
  with_connection-Survives :
      (s : Session R W) (c : Option (Connection R W))
      → Goes s.request.check_index c
      → Survives (with_connection s c)
  unfolding with_connection
  with_connection-Survives s none h = h
  with_connection-Survives s (some c) h = h

  pub close-Survives :
      (s : Session R W) → Sound s.request.check_index s.connection → Survives (close s)
  unfolding close
  close-Survives s h =
      with_connection-Survives s _ (handle_close-Goes s.request.check_index s.connection h)

  pub complete-Survives :
      (s : Session R W) → Sound s.request.check_index s.connection → Survives (done (complete s))
  unfolding complete
  complete-Survives s h = ground arith

  pub run_close-Survives :
      (s : Session R W) → Sound s.request.check_index s.connection → Survives (run_close s)
  unfolding run_close
  run_close-Survives s h = elim (Bool-cases (s.closing_tasks == 0)) [
    | inl e ↦ rw e h
    | inr e ↦ rw e (close-Survives _ h)
  ]

module _ (r : Receiver) (k : Sender) (serve : HttpRequest → HttpResponse → HttpResponse)
    (decimal : ℤ → List ℕ) where
  open r use {S as R}
  open k use {S as W}

  SendOutcome-IsValid :
      (o : Outgoing) (w : W) (out : ℤ × Outgoing × W) → SendOutcome k o w out → IsValid out.1.buffer
  SendOutcome-IsValid o w out (all_sent e q v) = v
  SendOutcome-IsValid o w out (waits e q v) = v
  SendOutcome-IsValid o w out (broken l e q f v) = v

  -- What `sendMessage` gives, and a connection with what it leaves.
  abbrev pub Sends : Session R W → Option (ℤ × Outgoing × W) → Type 0
  Sends s none = ⊥
  Sends s (some (ret, o, w)) =
      Sound s.request.check_index (record s.connection { outgoing = o; output = w })

  pub send_message-Sends :
      (s : Session R W)
      → Sound s.request.check_index s.connection
      → Sends s (send_message k s.connection.outgoing s.connection.output)
  send_message-Sends s h =
      let c = s.connection in
      let (out, e, oc) = send_message-SendOutcome k c.outgoing c.output h.write_valid in
      rw e (record {
        read_valid = h.read_valid;
        read_small = h.read_small;
        index_in = h.index_in;
        write_valid = SendOutcome-IsValid c.outgoing c.output out oc;
        registered = h.registered;
      })

  pub sent-Survives :
      (s : Session R W) (o : Option (ℤ × Outgoing × W))
      → Sends s o
      → Survives (sent r k serve decimal s o)
  unfolding sent
  sent-Survives s none h = h
  sent-Survives s (some (ret, o, w)) h =
      with_connection-Survives s _ (sent_in_loop-Goes s.request.check_index _ (to_int ret) h)

  pub gave-Survives :
      (s : Session R W) (o : Option (ℤ × Outgoing × W))
      → Sends s o
      → Survives (gave r k serve decimal s o)
  unfolding gave
  gave-Survives s none h = h
  gave-Survives s (some (ret, o, w)) h =
      with_connection-Survives s _ (written-Goes s.request.check_index _ ret h)
