-- ===== src/Http/Request.antt =====
-- net/http/HttpRequest.h and HttpRequest.cpp: the two state machines that read a request out of a
-- buffer. The text that the machines get is the block from the read pointer on, and they write
-- NULs into it.
pub mod Line
pub mod Frame
pub mod RequestLine
pub mod ContentLength
pub mod Ending
use mathlib.Core.Option
use knpnl.Prelude.{
  ℕ, zero, suc, ◌+◌, ◌-◌, ◌*◌, ◌^◌, Bool, true, false, ◌&&◌, ◌||◌, not, List, [], ◌∷◌, ◌++◌, Option,
  none, some, take, drop, get_or, set, ltb, leb, ◌==◌, if◌then◌else◌, ℤ, pos, negsuc, add_u32,
  length,
}
use knpnl.Buffer.{FixedBuffer, used, read_ptr_move}
use knpnl.Http.CString.{
  codes, c_str, find_blank, span_blank, case_eq, case_eq_prefix, from_slash, atol,
}

-- `METHOD`; the parser sets `get` and `post` only.
pub data Method : Type 0 where
  get post head put delete trace options connect path : Method

-- `HTTP_CODE`
pub data HttpCode : Type 0 where
  no_request get_request bad_request no_resource forbidden_request file_request internal_error
        closed_connection :
      HttpCode

pub data LineState : Type 0 where
  line_ok line_open line_bad : LineState

pub data CheckState : Type 0 where
  check_request check_header check_body check_success : CheckState

pub record HttpRequest : Type 0 where
  pub url : List ℕ
  pub version : List ℕ
  pub host : List ℕ
  pub is_alive : Bool
  pub method : Method
  pub content_length : ℤ
  pub body : List ℕ
  pub check_index : ℕ
  pub check_state : CheckState
  pub line_state : LineState

-- The constructor. `method` is left as it was in memory.
unfoldable pub new : Method → HttpRequest
new garbage = record {
  url = [];
  version = [];
  host = [];
  is_alive = false;
  method = garbage;
  content_length = pos 0;
  body = [];
  check_index = 0;
  check_state = check_request;
  line_state = line_open;
}

-- `Init()`: both assignments are to `mCheckIndex`; the value of CHECK_STATE_REQUEST is 0.
unfoldable pub init : HttpRequest → HttpRequest
init r = record r { check_index = 0; line_state = line_open }

-- `rd_buf[i]`
abbrev pub byte_at : List ℕ → ℕ → ℕ
byte_at t i = get_or t i 0

abbrev pub cr : ℕ
cr = 13

abbrev pub lf : ℕ
lf = 10

-- At a '\r'.
at_cr : List ℕ → ℕ → ℕ → LineState × List ℕ × ℕ
at_cr t sz i =
    if add_u32 i 1 == sz
    then (line_open, t, i)
    else if byte_at t (add_u32 i 1) == lf
    then (line_ok, set (set t i 0) (add_u32 i 1) 0, add_u32 i 2)
    else (line_bad, t, i)

-- At a '\n' that no '\r' before it has taken.
at_lf : List ℕ → ℕ → LineState × List ℕ × ℕ
at_lf t i =
    if ltb 1 i && byte_at t (i - 1) == cr
    then (line_ok, set (set t i 0) (i - 1) 0, add_u32 i 1)
    else (line_bad, t, i)

-- The loop of `parseLine`, by the number of rounds that are left: the state of the line, the
-- text, and `mCheckIndex`.
scan : ℕ → List ℕ → ℕ → ℕ → LineState × List ℕ × ℕ
unfolding at_cr at_lf
scan zero t sz i = (line_open, t, i)
scan (suc n) t sz i =
    let rest = scan n t sz (add_u32 i 1) in
    if byte_at t i == cr then at_cr t sz i else if byte_at t i == lf then at_lf t i else rest

unfoldable pub parse_line : List ℕ → ℕ → ℕ → LineState × List ℕ × ℕ
unfolding scan
parse_line t sz i = scan (sz - i) t sz i

-- The method that a request line names, if the parser knows it.
unfoldable pub known_method : List ℕ → Option Method
known_method s =
    if case_eq s (codes "GET")
    then some get
    else if case_eq s (codes "POST")
    then some post
    else none

-- `parseRequest` from the test of the version on: `t` is the text, `u` and `v` the indices of the
-- URL and of the version.
unfoldable pub finish_request : HttpRequest → List ℕ → ℕ → ℕ → HttpCode × HttpRequest
finish_request r t u v =
    let named =
      if case_eq_prefix (drop u t) (codes "http://") 7
      then record r { url = Option.get_or (Option.map c_str (from_slash (drop u t))) [] }
      else r in
    if not (case_eq (drop v t) (codes "HTTP/1.1"))
    then (bad_request, r)
    else if not (byte_at t u == 47)
    then (bad_request, named)
    else (
      no_request,
      record named {
        url = c_str (drop u t);
        version = c_str (drop v t);
        check_state = check_header;
      },
    )

-- The text behind the URL at `u`, by where its first blank is.
with_version : HttpRequest → List ℕ → ℕ → Option ℕ → HttpCode × HttpRequest × List ℕ
with_version r t u none = (bad_request, r, t)
with_version r t u (some j) =
    let t2 = set t (u + j) 0 in
    let v = u + j + 1 + span_blank (drop (u + j + 1) t2) in
    ((finish_request r t2 u v).0, (finish_request r t2 u v).1, t2)

with_method : HttpRequest → List ℕ → ℕ → Option Method → HttpCode × HttpRequest × List ℕ
unfolding with_version
with_method r t u none = (bad_request, r, t)
with_method r t u (some m) = with_version (record r { method = m }) t u (find_blank (drop u t))

with_blank : HttpRequest → List ℕ → Option ℕ → HttpCode × HttpRequest × List ℕ
unfolding with_method
with_blank r t none = (bad_request, r, t)
with_blank r t (some i) =
    let t1 = set t i 0 in with_method r t1 (i + 1 + span_blank (drop (i + 1) t1)) (known_method t1)

-- `parseRequest`: the answer, the fields, and the text with its separators overwritten.
unfoldable pub parse_request : HttpRequest → List ℕ → HttpCode × HttpRequest × List ℕ
unfolding with_blank
parse_request r t = with_blank r t (find_blank t)

-- What a header line means behind its name and the blanks after it.
abbrev value_of : List ℕ → ℕ → List ℕ
value_of t n = drop (n + span_blank (drop n t)) t

-- `parseHeader`
unfoldable pub parse_header : HttpRequest → List ℕ → HttpCode × HttpRequest
parse_header r t =
    if byte_at t 0 == 0
    then (elim r.content_length [
      | pos zero ↦ (get_request, record r { check_state = check_success })
      | _ ↦ (no_request, record r { check_state = check_body })
    ])
    else if case_eq_prefix t (codes "Connection:") 11
    then (no_request, record r { is_alive = case_eq (value_of t 11) (codes "keep-isAlive") })
    else if case_eq_prefix t (codes "Content-length:") 15
    then (no_request, record r { content_length = atol (value_of t 15) })
    else if case_eq_prefix t (codes "Host:") 5
    then (no_request, record r { host = c_str (value_of t 5) })
    else (no_request, r)

-- What `parseContent` does: an answer, or the `std::length_error` that `string::assign` throws
-- for a negative length.
pub data Content : Type 0 where
  answered : HttpCode → HttpRequest → Content
  threw : Content

-- `parseContent`
unfoldable pub parse_content : HttpRequest → List ℕ → Content
parse_content r t = elim r.content_length [
  | pos n ↦
      if leb n r.check_index
      then answered get_request (record r { body = take n t; check_state = check_success })
      else answered no_request r
  | negsuc n ↦ threw
]
