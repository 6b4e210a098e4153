-- ===== src/Http/Session/Once.antt =====
-- How many requests one connection of the HTTP server gets served.
use knpnl.Prelude.{
  ℕ, zero, suc, ◌+◌, ◌≤◌, ◌≡◌, refl, ◌⊎◌, inl, inr, List, [], ◌∷◌, Option, none, some, ℤ, pos,
  negsuc, Bool-cases, ◌==◌, arith,
}
use knpnl.Kernel.{Receiver, Sender}
use knpnl.Buffer.{FixedBuffer}
use knpnl.Http.Request.{
  HttpRequest, HttpCode, no_request, get_request, bad_request, no_resource, forbidden_request,
  file_request, internal_error, closed_connection, check_success, init,
}
use knpnl.Http.Process.{Turn, again, answer, throw}
use knpnl.Http.Process.Grants.{Settled, process_read-Settled}
use knpnl.Http.Process.KeepAlive.{Silent, process_read-Silent}
use knpnl.Http.Response.{HttpResponse}
use knpnl.Http.Server.{Exchange, returned, parsed, on_answer, refuse, grant, on_message_callback}
use knpnl.Net.TcpConnection.{Outgoing}
use knpnl.Net.Connection.{Connection}
use knpnl.Http.Session.{
  Session, Outcome, done, failed, thrown, stuck, exchange_of, with_exchange, with_connection,
  calls_of, close, complete, run_close, sent, send, took, gave, called_back, message, received,
  handle_read, handle_write, Happening, readable, writable, hung_up, completed, close_queued,
  happen, then_happen, happen_all,
}

module _ {R W : Type 0} where
  -- Nothing is served yet, or one request is and the parser is behind it.
  abbrev Counted : Session R W → Type 0
  Counted s = (s.served ≡ 0) ⊎ ((s.served ≡ 1) × (s.request.check_state ≡ check_success))

  abbrev CountedAfter : Outcome (Session R W) → Type 0
  CountedAfter (done s) = Counted s
  CountedAfter _ = Unit

  abbrev pub ServedOnce : Outcome (Session R W) → Type 0
  ServedOnce (done s) = s.served ≤ 1
  ServedOnce _ = Unit

  Counted-ServedOnce : (o : Outcome (Session R W)) → CountedAfter o → ServedOnce o
  Counted-ServedOnce (done s) h = ground arith
  Counted-ServedOnce failed h = tt
  Counted-ServedOnce thrown h = tt
  Counted-ServedOnce stuck h = tt

  with_connection-Counted :
      (s : Session R W) (c : Option (Connection R W))
      → Counted s
      → CountedAfter (with_connection s c)
  unfolding with_connection
  with_connection-Counted s none h = tt
  with_connection-Counted s (some c) h = h

  complete-Counted : (s : Session R W) → Counted s → Counted (complete s)
  unfolding complete
  complete-Counted s h = ground arith

-- The calls that an answer stands for, and the state behind it.
calls_of-Counted :
    (r r' : HttpRequest) (served : ℕ) (code : HttpCode) (b : FixedBuffer)
    → (served ≡ 0) ⊎ ((served ≡ 1) × (r.check_state ≡ check_success))
    → Settled (answer code r' b)
    → (r.check_state ≡ check_success → Silent r (answer code r' b))
    → (served + calls_of (answer code r' b) ≡ 0)
      ⊎ ((served + calls_of (answer code r' b) ≡ 1) × (r'.check_state ≡ check_success))
calls_of-Counted r r' served get_request b (inl h) settled silent = inr (omega arith, settled refl)
calls_of-Counted r r' served get_request b (inr h) settled silent = ground (arith, silent h.1)
calls_of-Counted r r' served no_request b h settled silent = ground (arith, silent)
calls_of-Counted r r' served bad_request b h settled silent = ground (arith, silent)
calls_of-Counted r r' served no_resource b h settled silent = ground (arith, silent)
calls_of-Counted r r' served forbidden_request b h settled silent = ground (arith, silent)
calls_of-Counted r r' served file_request b h settled silent = ground (arith, silent)
calls_of-Counted r r' served internal_error b h settled silent = ground (arith, silent)
calls_of-Counted r r' served closed_connection b h settled silent = ground (arith, silent)

module _ (r : Receiver) (k : Sender) (serve : HttpRequest → HttpResponse → HttpResponse)
    (decimal : ℤ → List ℕ) where
  open r use {S as R}
  open k use {S as W}

  on_answer_state :
      (code : HttpCode) (x : Exchange)
      → (on_answer serve decimal code x).request.check_state ≡ x.request.check_state
  unfolding on_answer grant refuse init
  on_answer_state no_request x = refl
  on_answer_state get_request x = refl
  on_answer_state bad_request x = refl
  on_answer_state no_resource x = refl
  on_answer_state forbidden_request x = refl
  on_answer_state file_request x = refl
  on_answer_state internal_error x = refl
  on_answer_state closed_connection x = refl

  sent-Counted :
      (s : Session R W) (o : Option (ℤ × Outgoing × W))
      → Counted s
      → CountedAfter (sent r k serve decimal s o)
  unfolding sent
  sent-Counted s none h = tt
  sent-Counted s (some o) h = with_connection-Counted s _ h

  gave-Counted :
      (s : Session R W) (o : Option (ℤ × Outgoing × W))
      → Counted s
      → CountedAfter (gave r k serve decimal s o)
  unfolding gave
  gave-Counted s none h = tt
  gave-Counted s (some o) h = with_connection-Counted s _ h

  close-Counted : (s : Session R W) → Counted s → CountedAfter (close s)
  unfolding close
  close-Counted s h = with_connection-Counted s _ h

  run_close-Counted : (s : Session R W) → Counted s → CountedAfter (run_close s)
  unfolding run_close
  run_close-Counted s h = elim (Bool-cases (s.closing_tasks == 0)) [
    | inl e ↦ rw e h
    | inr e ↦ rw e (close-Counted _ h)
  ]

  called_back-Counted :
      (s : Session R W) (x : Exchange)
      → Counted (with_exchange s x)
      → CountedAfter (called_back r k serve decimal s (returned x))
  unfolding called_back send
  called_back-Counted s x h = elim (Bool-cases (x.sends == 0)) [
    | inl e ↦ rw e h
    | inr e ↦ rw e (sent-Counted (with_exchange s x) _ h)
  ]

  parsed-Counted :
      (s : Session R W) (t : Turn)
      → Counted s
      → Settled t
      → (s.request.check_state ≡ check_success → Silent s.request t)
      → CountedAfter (
          called_back r k serve decimal
            (record s { served = s.served + calls_of t })
            (parsed serve decimal (exchange_of s) t))
  unfolding called_back parsed
  parsed-Counted s (again r' b) h settled silent = tt
  parsed-Counted s (throw r' b) h settled silent = tt
  parsed-Counted s (answer code r' b) h settled silent =
      called_back-Counted (record s { served = s.served + calls_of (answer code r' b) }) _
        (ground (
          arith,
          calls_of-Counted s.request r' s.served code b h settled silent,
          on_answer_state code (record (exchange_of s) { request = r'; read_buffer = b }),
        ))

  message-Counted : (s : Session R W) → Counted s → CountedAfter (message r k serve decimal s)
  unfolding message on_message_callback
  message-Counted s h =
      parsed-Counted s _ h (process_read-Settled s.request s.connection.read_buffer)
        (process_read-Silent s.request s.connection.read_buffer)

  received-Counted :
      (s : Session R W) (ret : ℤ) → Counted s → CountedAfter (received r k serve decimal s ret)
  unfolding received
  received-Counted s (negsuc n) h = close-Counted s h
  received-Counted s (pos zero) h = close-Counted s h
  received-Counted s (pos (suc n)) h = message-Counted s h

  took-Counted :
      (s : Session R W) (o : Option (ℤ × FixedBuffer × R))
      → Counted s
      → CountedAfter (took r k serve decimal s o)
  unfolding took
  took-Counted s none h = tt
  took-Counted s (some (ret, b, i)) h =
      received-Counted
        (record s { connection = record s.connection { read_buffer = b; input = i } }) ret h

  happen-Counted :
      (h : Happening) (s : Session R W) → Counted s → CountedAfter (happen r k serve decimal h s)
  unfolding happen handle_read handle_write
  happen-Counted readable s c = took-Counted s _ c
  happen-Counted writable s c = gave-Counted s _ c
  happen-Counted hung_up s c = close-Counted s c
  happen-Counted completed s c = complete-Counted s c
  happen-Counted close_queued s c = run_close-Counted s c

  then_happen-Counted :
      (o : Outcome (Session R W)) (h : Happening)
      → CountedAfter o
      → CountedAfter (then_happen r k serve decimal o h)
  unfolding then_happen
  then_happen-Counted (done s) h c = happen-Counted h s c
  then_happen-Counted failed h c = tt
  then_happen-Counted thrown h c = tt
  then_happen-Counted stuck h c = tt

  happen_all-Counted :
      (hs : List Happening) (o : Outcome (Session R W))
      → CountedAfter o
      → CountedAfter (happen_all r k serve decimal hs o)
  unfolding happen_all
  happen_all-Counted [] o c = c
  happen_all-Counted (h ∷ hs) o c = happen_all-Counted hs _ (then_happen-Counted o h c)

  -- Whatever happens to a connection of the HTTP server in its loop, in whatever order, and
  -- whatever its peer sends: in a state that this leads to, from one where no request has been
  -- served, the `HttpCallback` has been called at most once, so that a connection that is kept
  -- alive never gets a second request served.
  pub happen_all-ServedOnce :
      (hs : List Happening) (s : Session R W)
      → s.served ≡ 0
      → ServedOnce (happen_all r k serve decimal hs (done s))
  happen_all-ServedOnce hs s h = Counted-ServedOnce _ (happen_all-Counted hs (done s) (inl h))
