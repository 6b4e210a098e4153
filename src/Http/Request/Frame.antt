-- ===== src/Http/Request/Frame.antt =====
-- What the parsers of a line leave alone.
use knpnl.Prelude.{ℕ, ◌≡◌, List, length, length-set, arith}
use knpnl.Http.Request.{
  HttpRequest, parse_request, parse_header, finish_request, Content, answered, threw, parse_content,
}

finish_request-check_index :
    (r : HttpRequest) (t : List ℕ) (u v : ℕ)
    → (finish_request r t u v).1.check_index ≡ r.check_index
unfolding finish_request
finish_request-check_index r t u v = ground arith

-- `parseRequest` overwrites separators only, and does not move `mCheckIndex`.
pub parse_request_frame :
    (r : HttpRequest) (t : List ℕ)
    → (length (parse_request r t).2 ≡ length t)
      × ((parse_request r t).1.check_index ≡ r.check_index)
unfolding parse_request
parse_request_frame r t = grind (arith, finish_request-check_index, length-set)

pub parse_header_frame :
    (r : HttpRequest) (t : List ℕ) → (parse_header r t).1.check_index ≡ r.check_index
unfolding parse_header
parse_header_frame r t = ground arith

-- The request that `parseContent` leaves behind.
abbrev pub content_request : HttpRequest → Content → HttpRequest
content_request r (answered c r') = r'
content_request r threw = r

pub parse_content_frame :
    (r : HttpRequest) (t : List ℕ)
    → (content_request r (parse_content r t)).check_index ≡ r.check_index
unfolding parse_content
parse_content_frame r t = ground arith
