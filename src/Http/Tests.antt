-- ===== src/Http/Tests.antt =====
-- The theorems about the request parser at concrete inputs.
use knpnl.Prelude.{ℕ, ◌≡◌, refl, List, [], ◌∷◌, ◌++◌, replicate, pos, true}
use knpnl.Buffer.{FixedBuffer}
use knpnl.Http.CString.{codes, atol}
use knpnl.Http.Request.{HttpRequest, new, post, check_success, no_request}
use knpnl.Prelude.{false, zero, suc, ◌<◌, negsuc, arith}
use knpnl.Buffer.{used}
use knpnl.Buffer.Contents.{IsValid}
use knpnl.Http.Request.{
  get_request, init, parse_request, parse_line, parse_header, byte_at, bad_request,
}
use knpnl.Http.Request.Line.{parse_line_resumes}
use knpnl.Http.Request.RequestLine.{method_of, for_path, parse_request_path, parse_request_other}
use knpnl.Http.Request.ContentLength.{parse_header-content_length, length_line}
use knpnl.Http.Process.Ends.{Finished, process_read-Finished}
use knpnl.Http.Process.KeepAlive.{Ignored, init-Ignored}
use knpnl.LogStream.{convert}
use knpnl.LogStream.RoundTrip.{atol-convert}
use knpnl.Http.Process.{process_read, answer, text}
use knpnl.Http.Process.Whole.{process_read-whole, waiting, asked}

abbrev crlf : List ℕ
crlf = 13 ∷ 10 ∷ []

abbrev line_in : List ℕ
line_in = codes "GET /a HTTP/1.1" ++ crlf

abbrev small_buffer : FixedBuffer
small_buffer = record { mem = line_in ++ replicate 8 0; read_ptr = 0; write_ptr = 17 }

small-IsValid : IsValid small_buffer
small-IsValid = omega arith

process_read-Finished_example : Finished small_buffer (process_read (new post) small_buffer)
process_read-Finished_example =
    process_read-Finished (new post) small_buffer small-IsValid (omega arith)
      (unfold new used in omega arith)

abbrev finished_request : HttpRequest
finished_request = record (new post) { check_state = check_success; url = codes "/old" }

init-Ignored_example :
    Ignored (init finished_request) (process_read (init finished_request) small_buffer)
init-Ignored_example = init-Ignored finished_request small_buffer refl small-IsValid (omega arith)

parse_request_path_example : parse_request (new post) (codes "POST /a HTTP/1.1" ++ 0 ∷ 0 ∷ []) ≡ (
  no_request,
  for_path (new post) false (codes "/a"),
  codes "POST" ++ 0 ∷ (codes "/a" ++ 0 ∷ (codes "HTTP/1.1" ++ 0 ∷ 0 ∷ [])),
)
parse_request_path_example = parse_request_path (new post) false (codes "a") (0 ∷ []) (omega arith)

parse_request_other_example :
    (parse_request (new post) (codes "GET http://h/a HTTP/1.1" ++ 0 ∷ 0 ∷ [])).0 ≡ bad_request
parse_request_other_example =
    parse_request_other (new post) true 104 (codes "ttp://h/a") (0 ∷ []) (omega arith) (omega arith)

agree : (k : ℕ) → k < 5 → byte_at line_in k ≡ byte_at (codes "GET /") k
agree zero h = refl
agree (suc zero) h = refl
agree (suc (suc zero)) h = refl
agree (suc (suc (suc zero))) h = refl
agree (suc (suc (suc (suc zero)))) h = refl
agree (suc (suc (suc (suc (suc k))))) h = absurd (omega arith)

parse_line_resumes_example :
    let (st, t, i) = parse_line (codes "GET /") 5 0 in
    (t ≡ codes "GET /") × (parse_line line_in 17 i ≡ parse_line line_in 17 0)
unfolding parse_line
parse_line_resumes_example =
    parse_line_resumes (codes "GET /") line_in 5 17 0 (omega arith) (omega arith) (omega arith)
      agree refl

parse_header-content_length_example :
    parse_header (new post) (length_line (pos 17) [])
    ≡ (no_request, record (new post) { content_length = pos 17 })
parse_header-content_length_example =
    parse_header-content_length (new post) (pos 17) [] (omega arith)

atol-convert_example : atol (convert (negsuc 41) ++ 0 ∷ []) ≡ negsuc 41
atol-convert_example = atol-convert (negsuc 41) [] (omega arith)

process_read-whole_example :
    (r' : HttpRequest) × (b' : FixedBuffer) × (process_read
        (waiting (new post))
        (asked true (codes "a") [])
      ≡ answer get_request r' b')
    × (r'.method ≡ method_of true)
    × (r'.url ≡ codes "/a")
    × (r'.version ≡ codes "HTTP/1.1")
    × (r'.check_state ≡ check_success)
    × (used b' ≡ 0)
    × (text b' ≡ [])
process_read-whole_example =
    process_read-whole (new post) true (codes "a") [] (omega arith) (omega arith) (omega arith)
