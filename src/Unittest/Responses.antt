-- ===== src/Unittest/Responses.antt =====
-- unittest/HttpResponse_unittest.cpp
use knpnl.Prelude.{ℕ, ◌≡◌, refl, Bool, true, List, ◌++◌, slice, pos}
use knpnl.Buffer.{used}
use knpnl.Http.CString.{codes, c_str, bytes_eq}
use knpnl.Http.Response.{
  HttpResponse, success_ok, client_error_not_found, new, crlf, append_to_buffer,
}
use knpnl.Http.Response.Headers.{
  set_header, set_content_type, set_status_code, set_content_length, set_body,
}
use knpnl.LogStream.{convert}
use knpnl.Unittest.{fresh_buffer}

-- `httpResponse0`
abbrev http_response : List ℕ
http_response =
    codes "HTTP/1.1 200 OK"
    ++ crlf
    ++ codes "Connection:keep-isAlive"
    ++ crlf
    ++ codes "Content-Length:10"
    ++ crlf
    ++ codes "Accept-Ranges:bytes"
    ++ crlf
    ++ codes "Cache-Control:no-cache"
    ++ crlf
    ++ codes "Content-Type:text/html"
    ++ crlf
    ++ codes "Date:Mon, 25 Apr 2022 08:35:51 GMT"
    ++ crlf
    ++ crlf
    ++ codes "1234567890"

-- The response that the test builds.
response : HttpResponse
unfolding new set_header set_content_type set_status_code set_content_length set_body
response =
    let a = set_status_code success_ok (new client_error_not_found) in
    let b =
      set_header (codes "Cache-Control") (codes "no-cache")
        (set_header (codes "Accept-Ranges") (codes "bytes") a) in
    let c =
      set_content_type (codes "text/html")
        (set_content_length (pos 10) (record b { is_alive = true })) in
    set_body (codes "1234567890")
      (set_header (codes "Date") (codes "Mon, 25 Apr 2022 08:35:51 GMT") c)

-- `RequestWithBody`: the text in the buffer is the expected one.
response_test : Bool
unfolding append_to_buffer convert bytes_eq used response fresh_buffer
response_test =
    let buf = append_to_buffer convert response fresh_buffer in
    bytes_eq (slice buf.mem buf.read_ptr (used buf)) http_response

response_test_passes : response_test ≡ true
unfolding response_test c_str
response_test_passes = refl
