-- ===== src/Unittest/Requests.antt =====
-- unittest/HttpRequest_unittest.cpp: a request that comes in pieces.
use knpnl.Prelude.{ℕ, ◌≡◌, refl, Bool, true, false, ◌&&◌, List, [], ◌∷◌, ◌++◌, ◌==◌, ℤ, pos, negsuc}
use knpnl.Buffer.{FixedBuffer, append}
use knpnl.Http.CString.{
  codes, c_str, bytes_eq, find_blank, span_blank, case_eq, case_eq_prefix, from_slash, atol,
}
use knpnl.Http.Request.{
  HttpRequest, new, Method, get, post, head, put, delete, trace, options, connect, path, HttpCode,
  no_request, get_request, bad_request, no_resource, forbidden_request, file_request,
  internal_error, closed_connection, LineState, line_ok, line_open, line_bad, CheckState,
  check_request, check_header, check_body, check_success,
}
use knpnl.Http.Process.{again, answer, throw, process_read}
use knpnl.Unittest.{fresh_buffer}

abbrev crlf : List ℕ
crlf = 13 ∷ 10 ∷ []

-- `httprequest1` to `httprequest5`
abbrev http_request1 : List ℕ
http_request1 = codes "GET /index.html HTTP/1."

abbrev http_request2 : List ℕ
http_request2 = codes "1" ++ crlf

abbrev http_request3 : List ℕ
http_request3 = codes "Host: 127.0.0.1"

abbrev http_request4 : List ℕ
http_request4 =
    crlf
    ++ codes "Accept-Encoding: gzip, deflate"
    ++ crlf
    ++ codes "Connection: keep-isAlive"
    ++ crlf

abbrev http_request5 : List ℕ
http_request5 = crlf

-- `httprequest11` to `httprequest16`; the last is appended with the NUL behind it.
abbrev http_request11 : List ℕ
http_request11 = codes "POST /index.html HTTP/1."

abbrev http_request14 : List ℕ
http_request14 =
    crlf
    ++ codes "Accept-Encoding: gzip, deflate"
    ++ crlf
    ++ codes "Content-length: 17"
    ++ crlf
    ++ codes "Connection: keep-isAlive"
    ++ crlf

abbrev http_request16 : List ℕ
http_request16 = codes "Hello Http World" ++ 0 ∷ []

-- `==` on the enumerations.
abbrev code_number : HttpCode → ℕ
code_number no_request = 0
code_number get_request = 1
code_number bad_request = 2
code_number no_resource = 3
code_number forbidden_request = 4
code_number file_request = 5
code_number internal_error = 6
code_number closed_connection = 7

abbrev line_number : LineState → ℕ
line_number line_ok = 0
line_number line_bad = 1
line_number line_open = 2

abbrev check_number : CheckState → ℕ
check_number check_request = 0
check_number check_header = 1
check_number check_body = 2
check_number check_success = 3

abbrev method_number : Method → ℕ
method_number get = 0
method_number post = 1
method_number head = 2
method_number put = 3
method_number delete = 4
method_number trace = 5
method_number options = 6
method_number connect = 7
method_number path = 8

abbrev int_eq : ℤ → ℕ → Bool
int_eq (pos n) m = n == m
int_eq (negsuc n) m = false

-- The request, the buffer, and whether all expectations so far held.
abbrev State : Type 0
State = HttpRequest × FixedBuffer × Bool

-- `buf.append(…); ret = req.processRead(&buf);` with a test of what comes out.
abbrev step : State → List ℕ → (HttpCode → HttpRequest → Bool) → State
unfolding append process_read
step (r, b, ok) s test = elim (process_read r (append b s).0) [
  | again r' b' ↦ (r', b', false)
  | answer code r' b' ↦ (r', b', ok && test code r')
  | throw r' b' ↦ (r', b', false)
]

-- The three expectations behind most of the calls.
abbrev expects : HttpCode → LineState → CheckState → HttpCode → HttpRequest → Bool
expects ret line check code r =
    code_number code == code_number ret
    && (line_number r.line_state == line_number line
        && check_number r.check_state == check_number check)

-- The expectations behind the last call, but for the body.
abbrev finished : Method → ℕ → HttpCode → HttpRequest → Bool
unfolding bytes_eq
finished m length code r =
    code_number code == code_number get_request
    && (method_number r.method == method_number m
        && (bytes_eq r.url (codes "/index.html")
            && (bytes_eq r.version (codes "HTTP/1.1")
                && (bytes_eq r.host (codes "127.0.0.1")
                    && (int_eq r.content_length length && r.is_alive)))))

-- `RequestWithoutBody`; `garbage` is what `method` holds before.
request_without_body : Method → Bool
unfolding step finished new fresh_buffer
request_without_body garbage =
    let a =
      step (new garbage, fresh_buffer, true) http_request1
        (expects no_request line_open check_request) in
    let b = step a http_request2 (expects no_request line_ok check_header) in
    let c = step b http_request3 (expects no_request line_open check_header) in
    let d = step c http_request4 (expects no_request line_ok check_header) in
    (step d http_request5 (finished get 0)).2

request_without_body_passes : request_without_body post ≡ true
unfolding request_without_body case_eq case_eq_prefix c_str find_blank span_blank from_slash atol
request_without_body_passes = refl

-- `RequestWithBody`, with the body that is expected.
request_with_body : Method → List ℕ → Bool
unfolding step finished new fresh_buffer
request_with_body garbage body =
    let a =
      step (new garbage, fresh_buffer, true) http_request11
        (expects no_request line_open check_request) in
    let b = step a http_request2 (expects no_request line_ok check_header) in
    let c = step b http_request3 (expects no_request line_open check_header) in
    let d = step c http_request14 (expects no_request line_ok check_header) in
    let e = step d http_request5 (λ code r. true) in
    (step e http_request16 (λ code r. finished post 17 code r && bytes_eq r.body body)).2

-- The body that is stored has 17 bytes, the NUL included.
request_with_body_stores : request_with_body get http_request16 ≡ true
unfolding request_with_body case_eq case_eq_prefix c_str find_blank span_blank from_slash atol
request_with_body_stores = refl

-- The test expects the 16 bytes before it.
request_with_body_expects : request_with_body get (codes "Hello Http World") ≡ false
unfolding request_with_body case_eq case_eq_prefix c_str find_blank span_blank from_slash atol
request_with_body_expects = refl
