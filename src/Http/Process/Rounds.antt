-- ===== src/Http/Process/Rounds.antt =====
-- The rounds of HttpRequest::processRead: where each case of its loop leads.
use knpnl.Prelude.{ℕ, suc, ◌+◌, ◌≡◌, ◌≢◌, refl, false, List, ◌∷◌, ◌==◌, pos, arith}
use knpnl.Buffer.{FixedBuffer, used, read_ptr_move}
use knpnl.Http.Request.{
  HttpRequest, HttpCode, line_ok, parse_line, check_success, no_request, get_request, parse_request,
  parse_header,
}
use knpnl.Http.Process.{
  again, answer, text, set_text, on_request, on_header, on_line, on_parsed, turn, run,
}

pub turn-on_line :
    (r : HttpRequest) (b : FixedBuffer) (t : List ℕ) (i : ℕ)
    → parse_line (text b) (used b) r.check_index ≡ (line_ok, t, i)
    → turn r b
      ≡ on_line r.check_state (record r { line_state = line_ok; check_index = i }) (set_text b t)
unfolding turn on_parsed
turn-on_line r b t i e = rw e refl

pub on_request-again :
    (r : HttpRequest) (b : FixedBuffer) (r' : HttpRequest) (t : List ℕ)
    → parse_request r (text b) ≡ (no_request, r', t)
    → on_request r b
      ≡ again (record r' { check_index = 0 }) (read_ptr_move (set_text b t) r'.check_index).0
unfolding on_request
on_request-again r b r' t e = rw e refl

pub moved :
    (b : FixedBuffer) (k : ℕ) → (read_ptr_move b k).0 ≡ record b { read_ptr = b.read_ptr + k }
unfolding read_ptr_move
moved b k = ground arith

-- The blank line behind the headers, of a request without content.
pub blank-header :
    (r : HttpRequest) (t : List ℕ)
    → let r0 = record r { content_length = pos 0 } in
      parse_header r0 (0 ∷ t) ≡ (get_request, record r0 { check_state = check_success })
unfolding parse_header
blank-header r t = refl

pub on_header-answer :
    (r : HttpRequest) (b : FixedBuffer) (r' : HttpRequest)
    → parse_header r (text b) ≡ (get_request, r')
    → on_header r b
      ≡ answer get_request (record r' { check_index = 0 }) (read_ptr_move b r'.check_index).0
unfolding on_header
on_header-answer r b r' e = rw e refl

pub run-again :
    (fuel : ℕ) (r : HttpRequest) (b : FixedBuffer) (r' : HttpRequest) (b' : FixedBuffer)
    → used b ≢ 0
    → turn r b ≡ again r' b'
    → run (suc fuel) r b ≡ run fuel r' b'
unfolding run
run-again fuel r b r' b' ne e = let o : (used b == 0) ≡ false = ground arith in rw (o, e) refl

pub run-answer :
    (fuel : ℕ) (r : HttpRequest) (b : FixedBuffer) (c : HttpCode) (r' : HttpRequest)
    (b' : FixedBuffer)
    → used b ≢ 0
    → turn r b ≡ answer c r' b'
    → run (suc fuel) r b ≡ answer c r' b'
unfolding run
run-answer fuel r b c r' b' ne e = let o : (used b == 0) ≡ false = ground arith in rw (o, e) refl
