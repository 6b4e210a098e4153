-- ===== src/Net/Serving/Handlers.antt =====
-- The handlers of net/TcpConnection.cpp, with their channels and pollers, beside the steps of a
-- server that stand for them: what each does to `mState` and to the server.
use knpnl.Prelude.{
  ℕ, suc, ◌+◌, ◌≡◌, refl, sym, ◌∙◌, some, Option, List, length, length-append, arith, [], ◌∷◌, ◌++◌,
}
use knpnl.Net.Connection.{
  ConnectionState, connecting, connected, closing, closed, Connection, on_channel, close_open,
}
use knpnl.Net.Connection
use knpnl.Net.Connection.Once.{close_open-closes}
use knpnl.Net.TcpServer.{Request, Duty, established, handle_close, destroy, update}
use knpnl.Net.Serving.{Serving, close_connection, run_request}

-- The state of the connection `o`, and the removals that its close callback has asked for.
pub record Agrees {R W : Type 0} (s s' : Serving) (o : ℕ) (c c' : Connection R W) : Type 0 where
  pub same_state : s'.state o ≡ c'.state
  pub same_closes : length s'.removals + c.closes ≡ length s.removals + c'.closes

-- An open connection is closed.
open-Agrees :
    {R W : Type 0} (s : Serving) (o : ℕ) (c c' : Connection R W)
    → (c'.state ≡ closing) × (c'.closes ≡ suc c.closes)
    → Agrees s
        (record s { state = update s.state o closing; removals = s.removals ++ (s.object o ∷ []) })
        o
        c
        c'
open-Agrees s o c c' p = record {
  same_state = ground (arith, p.0);
  same_closes = ground (arith, p.1, length-append s.removals (s.object o ∷ []));
}

-- A closed one stays as it is.
still-Agrees :
    {R W : Type 0} (s : Serving) (o : ℕ) (c c' : Connection R W) {t : ConnectionState}
    → s.state o ≡ t
    → c.state ≡ t
    → some c ≡ some c'
    → Agrees s s o c c'
still-Agrees s o c c' e f h = record { same_state = ground arith; same_closes = ground arith }

closed-Agrees :
    {R W : Type 0} (s : Serving) (o : ℕ) (c c' : Connection R W)
    → s.state o ≡ c.state
    → Connection.handle_close c ≡ some c'
    → Agrees s (close_connection s o) o c c'
unfolding close_connection Connection.handle_close
closed-Agrees s o c c' e h = by_state c.state refl
  where
    by_state : (t : ConnectionState) → c.state ≡ t → Agrees s (close_connection s o) o c c'
    by_state connecting f =
        rw (close_connection, e ∙ f)
          (open-Agrees s o c c'
            (close_open-closes c c' (sym (rw (Connection.handle_close, f) refl) ∙ h)).0)
    by_state connected f =
        rw (close_connection, e ∙ f)
          (open-Agrees s o c c'
            (close_open-closes c c' (sym (rw (Connection.handle_close, f) refl) ∙ h)).0)
    by_state closing f =
        let q : Connection.handle_close c ≡ some c = ground arith in
        rw (close_connection, e ∙ f) (still-Agrees s o c c' (e ∙ f) f (sym q ∙ h))
    by_state closed f =
        let q : Connection.handle_close c ≡ some c = ground arith in
        rw (close_connection, e ∙ f) (still-Agrees s o c c' (e ∙ f) f (sym q ∙ h))

-- The request for a duty of the connection `o`.
abbrev pub duty_of : Serving → Duty → ℕ → Request
duty_of s d o = record { loop = (s.object o).io_loop; duty = d; connection = o }

-- The handler that a duty stands for.
abbrev pub handler : {R W : Type 0} → Duty → Connection R W → Option (Connection R W)
handler established = Connection.established
handler handle_close = Connection.handle_close
handler destroy = Connection.destroy

-- Where `Established`, `handleClose` or `Destroy` of a connection, with its channel and its
-- loop's poller, fails no assertion, the server's step for this request leaves the connection in
-- the same state, and it queues as many removals as the handler has called the close callback.
pub run_request-Agrees :
    {R W : Type 0} (s : Serving) (o : ℕ) (d : Duty) (asked : List Request) (c c' : Connection R W)
    → s.state o ≡ c.state
    → handler d c ≡ some c'
    → Agrees s (run_request s (duty_of s d o) asked) o c c'
unfolding run_request Connection.established Connection.destroy on_channel
run_request-Agrees s o established asked c c' e h =
    let p : (c'.state ≡ connected) × (c'.closes ≡ c.closes) = ground arith in
    record { same_state = ground (arith, p.0); same_closes = ground (arith, p.1) }
run_request-Agrees s o handle_close asked c c' e h =
    let a = closed-Agrees (record s { server = record s.server { asked = asked } }) o c c' e h in
    record { same_state = a.same_state; same_closes = a.same_closes }
run_request-Agrees s o destroy asked c c' e h =
    let p : (c'.state ≡ closed) × (c'.closes ≡ c.closes) = ground arith in
    record { same_state = ground (arith, p.0); same_closes = ground (arith, p.1) }
