-- ===== src/Http/Process.antt =====
-- net/http/HttpRequest.cpp, `HttpRequest::processRead`: the loop over the lines of a buffer.
pub mod Ends
pub mod Grants
pub mod KeepAlive
pub mod Rounds
pub mod Whole
use knpnl.Prelude.{
  ℕ, zero, suc, ◌+◌, ◌*◌, Bool, true, false, ◌&&◌, not, List, ◌++◌, take, drop, ◌==◌, if◌then◌else◌,
}
use knpnl.Buffer.{FixedBuffer, used, read_ptr_move}
use knpnl.Http.Request.{
  HttpRequest, HttpCode, no_request, get_request, bad_request, no_resource, forbidden_request,
  file_request, internal_error, closed_connection, LineState, line_ok, line_open, line_bad,
  CheckState, check_request, check_header, check_body, check_success, parse_line, parse_request,
  known_method, finish_request, parse_header, parse_content, answered, threw,
}

-- The block from the read pointer on, `buf->readPtr()`.
abbrev pub text : FixedBuffer → List ℕ
text b = drop b.read_ptr b.mem

-- What the parsers have written through that pointer.
abbrev pub set_text : FixedBuffer → List ℕ → FixedBuffer
set_text b t = record b { mem = take b.read_ptr b.mem ++ t }

-- How a round of the loop ends: in the next round, with a `return`, or with an exception.
pub data Turn : Type 0 where
  again : HttpRequest → FixedBuffer → Turn
  answer : HttpCode → HttpRequest → FixedBuffer → Turn
  throw : HttpRequest → FixedBuffer → Turn

abbrev is_bad : HttpCode → Bool
is_bad bad_request = true
is_bad _ = false

abbrev pub is_get : HttpCode → Bool
is_get get_request = true
is_get _ = false

-- `buf->readPtrMove(mCheckIndex); mCheckIndex = 0;`
abbrev skip_line : HttpRequest → FixedBuffer → HttpRequest × FixedBuffer
skip_line r b = (record r { check_index = 0 }, (read_ptr_move b r.check_index).0)

-- The case CHECK_STATE_REQUEST.
pub on_request : HttpRequest → FixedBuffer → Turn
on_request r b =
    let (code, r', t) = parse_request r (text b) in
    let (r'', b') = skip_line r' (set_text b t) in
    if is_bad code then answer bad_request r' (set_text b t) else again r'' b'

-- The case CHECK_STATE_HEADER.
pub on_header : HttpRequest → FixedBuffer → Turn
on_header r b =
    let (code, r') = parse_header r (text b) in
    let (r'', b') = skip_line r' b in
    if is_bad code
    then answer code r' b
    else if is_get code
    then answer get_request r'' b'
    else again r'' b'

-- The case CHECK_STATE_BODY.
on_body : HttpRequest → FixedBuffer → Turn
on_body r b = elim (parse_content r (text b)) [
  | answered code r' ↦ if is_bad code then answer bad_request r' b else answer code r' b
  | threw ↦ throw r b
]

-- The `switch`. No case is there for CHECK_STATE_SUCCESS.
pub on_line : CheckState → HttpRequest → FixedBuffer → Turn
unfolding on_request on_header on_body
on_line check_request r b = on_request r b
on_line check_header r b = on_header r b
on_line check_body r b = on_body r b
on_line check_success r b = again r b

abbrev is_open : LineState → Bool
is_open line_open = true
is_open _ = false

abbrev is_bad_line : LineState → Bool
is_bad_line line_bad = true
is_bad_line _ = false

abbrev in_body : CheckState → Bool
in_body check_body = true
in_body _ = false

-- The rest of a round, behind the call of `parseLine`.
on_parsed : LineState → CheckState → HttpRequest → FixedBuffer → Turn
unfolding on_line
on_parsed state check r b =
    if is_open state && not (in_body check)
    then answer no_request r b
    else if is_bad_line state
    then answer bad_request r b
    else on_line check r b

-- One round, begun at a buffer with unread bytes.
pub turn : HttpRequest → FixedBuffer → Turn
unfolding on_parsed
turn r b =
    let (state, t, i) = parse_line (text b) (used b) r.check_index in
    on_parsed state r.check_state (record r { line_state = state; check_index = i }) (set_text b t)

-- What follows a round, if the loop goes on.
proceed : Turn → (HttpRequest → FixedBuffer → Turn) → Turn
proceed (again r b) rest = rest r b
proceed (answer code r b) rest = answer code r b
proceed (throw r b) rest = throw r b

-- The loop; `again` as a result says that the fuel ran out.
pub run : ℕ → HttpRequest → FixedBuffer → Turn
unfolding proceed
run zero r b = again r b
run (suc fuel) r b = if used b == 0 then answer no_request r b else proceed (turn r b) (run fuel)

-- Each round takes bytes out of the buffer or moves `mCheckIndex` on.
unfoldable pub process_read : HttpRequest → FixedBuffer → Turn
unfolding run turn parse_line parse_request known_method finish_request parse_header parse_content
    read_ptr_move used
process_read r b = run (2 * used b + 1) r b
