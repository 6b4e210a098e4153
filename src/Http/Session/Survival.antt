-- ===== src/Http/Session/Survival.antt =====
-- Whatever happens to one connection of the HTTP server in its loop.
use knpnl.Prelude.{ℕ, zero, suc, inl, inr, List, [], ◌∷◌, ℤ, pos, negsuc, Bool-cases, ◌==◌, arith}
use knpnl.Kernel.{Receiver, Sender}
use knpnl.Buffer.Contents.{IsValid}
use knpnl.Buffer.ReadFd.Outcome.{read_fd_drains}
use knpnl.Http.Request.{
  HttpRequest, HttpCode, no_request, get_request, bad_request, no_resource, forbidden_request,
  file_request, internal_error, closed_connection,
}
use knpnl.Http.Process.{Turn, again, answer, throw}
use knpnl.Http.Response.{HttpResponse, client_error_bad_request, success_ok}
use knpnl.Http.Response.Text.{append_to_buffer-IsValid}
use knpnl.Http.Server.{
  Exchange, Callback, returned, raised, unfinished, parsed, on_answer, refuse, grant,
  on_message_callback,
}
use knpnl.Http.Server.Answers.{Ended, on_message_callback-Ended}
use knpnl.Http.Session.{
  Session, Outcome, done, failed, thrown, stuck, exchange_of, with_exchange, send, called_back,
  message, received, took, handle_read, handle_write, Happening, readable, writable, hung_up,
  completed, close_queued, happen, then_happen, happen_all,
}
use knpnl.Http.Session.Bounds.{
  Sound, Survives, close-Survives, complete-Survives, run_close-Survives, send_message-Sends,
  sent-Survives, gave-Survives,
}

module _ (serve : HttpRequest → HttpResponse → HttpResponse) (decimal : ℤ → List ℕ) where
  on_answer-IsValid :
      (code : HttpCode) (x : Exchange)
      → IsValid x.outgoing.buffer
      → IsValid (on_answer serve decimal code x).outgoing.buffer
  unfolding on_answer grant refuse
  on_answer-IsValid no_request x v = v
  on_answer-IsValid get_request x v =
      append_to_buffer-IsValid decimal
        (serve x.request (record x.response { status_code = success_ok })) x.outgoing.buffer v
  on_answer-IsValid bad_request x v =
      append_to_buffer-IsValid decimal
        (record x.response { status_code = client_error_bad_request }) x.outgoing.buffer v
  on_answer-IsValid no_resource x v = v
  on_answer-IsValid forbidden_request x v = v
  on_answer-IsValid file_request x v = v
  on_answer-IsValid internal_error x v = v
  on_answer-IsValid closed_connection x v = v

  abbrev Written : Callback → Type 0
  Written (returned x) = IsValid x.outgoing.buffer
  Written (raised x) = Unit
  Written unfinished = Unit

  parsed-Written :
      (x : Exchange) (t : Turn) → IsValid x.outgoing.buffer → Written (parsed serve decimal x t)
  unfolding parsed
  parsed-Written x (again r b) v = tt
  parsed-Written x (answer code r b) v =
      on_answer-IsValid code (record x { request = r; read_buffer = b }) v
  parsed-Written x (throw r b) v = tt

module _ (r : Receiver) (k : Sender) (serve : HttpRequest → HttpResponse → HttpResponse)
    (decimal : ℤ → List ℕ) where
  open r use {S as R}
  open k use {S as W}

  abbrev IsSound : Session R W → Type 0
  IsSound s = Sound s.request.check_index s.connection

  send-Survives : (s : Session R W) → IsSound s → Survives (send r k serve decimal s)
  unfolding send
  send-Survives s h = sent-Survives r k serve decimal s _ (send_message-Sends r k serve decimal s h)

  called_back-Survives :
      (s : Session R W) (n : ℕ) (cb : Callback)
      → IsSound s
      → Ended (exchange_of s) cb
      → Written serve decimal cb
      → Survives (called_back r k serve decimal (record s { served = n }) cb)
  unfolding called_back
  called_back-Survives s n (returned x) h e v = elim (Bool-cases (x.sends == 0)) [
    | inl z ↦ rw z sound
    | inr z ↦ rw z (send-Survives (with_exchange (record s { served = n }) x) sound)
  ]
    where
      sound : IsSound (with_exchange (record s { served = n }) x)
      sound = record {
        read_valid = e.valid;
        read_small = omega (arith, e.same_size, h.read_small);
        index_in = e.index_in;
        write_valid = v;
        registered = h.registered;
      }
  called_back-Survives s n (raised x) h e v = tt
  called_back-Survives s n unfinished h e v = e

  message-Survives : (s : Session R W) → IsSound s → Survives (message r k serve decimal s)
  unfolding message on_message_callback
  message-Survives s h =
      called_back-Survives s _ (on_message_callback serve decimal (exchange_of s)) h
        (on_message_callback-Ended serve decimal (exchange_of s) h.read_valid h.read_small
          h.index_in)
        (parsed-Written serve decimal (exchange_of s) _ h.write_valid)

  received-Survives :
      (s : Session R W) (ret : ℤ) → IsSound s → Survives (received r k serve decimal s ret)
  unfolding received
  received-Survives s (negsuc n) h = close-Survives s h
  received-Survives s (pos zero) h = close-Survives s h
  received-Survives s (pos (suc n)) h = message-Survives s h

  handle_read-Survives : (s : Session R W) → IsSound s → Survives (handle_read r k serve decimal s)
  unfolding handle_read took
  handle_read-Survives s h =
      let c = s.connection in
      let ((ret, b, i), e, o) = read_fd_drains r c.read_buffer c.input h.read_valid in
      rw e (
        received-Survives (record s { connection = record c { read_buffer = b; input = i } }) ret
          (record {
            read_valid = o.valid;
            read_small = omega (arith, o.same_size, h.read_small);
            index_in = omega (arith, o.grown, h.index_in);
            write_valid = h.write_valid;
            registered = h.registered;
          }))

  handle_write-Survives :
      (s : Session R W) → IsSound s → Survives (handle_write r k serve decimal s)
  unfolding handle_write
  handle_write-Survives s h =
      gave-Survives r k serve decimal s _ (send_message-Sends r k serve decimal s h)

  happen-Survives :
      (h : Happening) (s : Session R W) → IsSound s → Survives (happen r k serve decimal h s)
  unfolding happen
  happen-Survives readable s h = handle_read-Survives s h
  happen-Survives writable s h = handle_write-Survives s h
  happen-Survives hung_up s h = close-Survives s h
  happen-Survives completed s h = complete-Survives s h
  happen-Survives close_queued s h = run_close-Survives s h

  happen_all-Survives' :
      (hs : List Happening) (o : Outcome (Session R W))
      → Survives o
      → Survives (happen_all r k serve decimal hs o)
  unfolding happen_all then_happen
  happen_all-Survives' [] o h = h
  happen_all-Survives' (e ∷ hs) (done s) h = happen_all-Survives' hs _ (happen-Survives e s h)
  happen_all-Survives' (e ∷ hs) thrown h = happen_all-Survives' hs thrown h
  happen_all-Survives' (e ∷ hs) failed h = absurd h
  happen_all-Survives' (e ∷ hs) stuck h = absurd h

  -- Whatever happens to a connection of the HTTP server in its loop, in whatever order (input,
  -- room to write, a hang-up, and the tasks that its handlers queue), each handler ends and no
  -- assertion of its channel or of the poller fails: an exception of the parser leaves the
  -- handler, or both buffers are valid and the parser's index is within the unread bytes, and the
  -- poller has the channel, as at the beginning. The read buffer is smaller than 2^32 bytes; that
  -- these hold is the hypothesis on the first state.
  pub happen_all-Survives :
      (hs : List Happening) (s : Session R W)
      → IsSound s
      → Survives (happen_all r k serve decimal hs (done s))
  happen_all-Survives hs s h = happen_all-Survives' hs (done s) h
