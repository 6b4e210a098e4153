-- ===== src/Http/Process/Grants.antt =====
-- HttpRequest::processRead: the state that a whole request leaves the parser in.
use knpnl.Prelude.{ℕ, zero, suc, ◌+◌, ◌*◌, ◌≡◌, true, Bool-cases, ◌==◌, inl, inr, arith, List}
use knpnl.Buffer.{FixedBuffer, used}
use knpnl.Http.Request.{
  HttpRequest, CheckState, check_request, check_header, check_body, check_success, parse_line,
  parse_header, parse_content,
}
use knpnl.Http.Process.{
  Turn, again, answer, throw, is_get, text, set_text, on_request, on_header, on_body, on_line,
  on_parsed, turn, proceed, run, process_read,
}

-- A request that is handed over is marked as read to its end.
abbrev pub Settled : Turn → Type 0
Settled (again r b) = Unit
Settled (answer code r b) = is_get code ≡ true → r.check_state ≡ check_success
Settled (throw r b) = Unit

on_request-Settled : (r : HttpRequest) (b : FixedBuffer) → Settled (on_request r b)
unfolding on_request
on_request-Settled r b = ground arith

parse_header_get :
    (r : HttpRequest) (t : List ℕ)
    → is_get (parse_header r t).0 ≡ true
    → (parse_header r t).1.check_state ≡ check_success
unfolding parse_header
parse_header_get r t h = ground arith

on_header-Settled : (r : HttpRequest) (b : FixedBuffer) → Settled (on_header r b)
unfolding on_header
on_header-Settled r b = ground (arith, parse_header_get r (text b))

on_body-Settled : (r : HttpRequest) (b : FixedBuffer) → Settled (on_body r b)
unfolding on_body parse_content
on_body-Settled r b = ground arith

on_line-Settled : (c : CheckState) (r : HttpRequest) (b : FixedBuffer) → Settled (on_line c r b)
unfolding on_line
on_line-Settled check_request r b = on_request-Settled r b
on_line-Settled check_header r b = on_header-Settled r b
on_line-Settled check_body r b = on_body-Settled r b
on_line-Settled check_success r b = tt

turn-Settled : (r : HttpRequest) (b : FixedBuffer) → Settled (turn r b)
unfolding turn on_parsed
turn-Settled r b =
    let (state, t, i) = parse_line (text b) (used b) r.check_index in
    ground (
      arith,
      on_line-Settled r.check_state (record r { line_state = state; check_index = i })
          (set_text b t),
    )

proceed-Settled :
    (o : Turn) (rest : HttpRequest → FixedBuffer → Turn)
    → Settled o
    → ((r : HttpRequest) (b : FixedBuffer) → Settled (rest r b))
    → Settled (proceed o rest)
unfolding proceed
proceed-Settled (again r b) rest h f = f r b
proceed-Settled (answer code r b) rest h f = h
proceed-Settled (throw r b) rest h f = h

run-Settled : (fuel : ℕ) (r : HttpRequest) (b : FixedBuffer) → Settled (run fuel r b)
unfolding run
run-Settled zero r b = tt
run-Settled (suc fuel) r b = elim (Bool-cases (used b == 0)) [
  | inl e ↦ rw e (ground arith)
  | inr e ↦ rw e (proceed-Settled (turn r b) (run fuel) (turn-Settled r b) (run-Settled fuel))
]

-- Whenever `processRead` hands a request over, it leaves the parser in CHECK_STATE_SUCCESS.
pub process_read-Settled : (r : HttpRequest) (b : FixedBuffer) → Settled (process_read r b)
unfolding process_read
process_read-Settled r b = run-Settled (2 * used b + 1) r b
