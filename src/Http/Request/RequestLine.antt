-- ===== src/Http/Request/RequestLine.antt =====
-- `parseRequest` on the request lines that a client writes.
use mathlib.Core.Path.{ap₂}
use knpnl.Prelude.{
  ℕ, suc, ◌+◌, ◌≡◌, ◌≢◌, refl, sym, ap, ◌∙◌, Bool, true, false, List, [], ◌∷◌, ◌++◌, some, drop,
  set, length, arith,
}
use Prim.Native.Nat.add
use knpnl.Http.CString.{codes, c_str, find_blank, span_blank, case_eq, case_eq_prefix}
use knpnl.Http.Request.{with_version}
use knpnl.Http.Request.{
  HttpRequest, no_request, bad_request, Method, get, post, check_header, parse_request,
  known_method, finish_request, byte_at,
}

-- Bytes that neither end a word nor a string: no NUL, blank or tab.
abbrev pub IsWord : List ℕ → Type 0
IsWord [] = Unit {0}
IsWord (c ∷ s) = (c ≢ 0) × (c ≢ 32) × (c ≢ 9) × IsWord s

find_blank-word : (w s : List ℕ) → IsWord w → find_blank (w ++ 32 ∷ s) ≡ some (length w)
unfolding find_blank
find_blank-word [] s h = refl
find_blank-word (c ∷ w) s h = ground (arith, find_blank-word w s)

set-word : (w s : List ℕ) → set (w ++ 32 ∷ s) (length w) 0 ≡ w ++ 0 ∷ s
set-word [] s = refl
set-word (c ∷ w) s = ap (◌∷◌ c) (set-word w s)

drop-word : (w s : List ℕ) → drop (length w + 1) (w ++ 0 ∷ s) ≡ s
drop-word [] s = refl
drop-word (c ∷ w) s =
    let e : suc (length w) + 1 ≡ suc (length w + 1) = omega arith in rw e (drop-word w s)

c_str-word : (w s : List ℕ) → IsWord w → c_str (w ++ 0 ∷ s) ≡ w
unfolding c_str
c_str-word [] s h = refl
c_str-word (c ∷ w) s h = ground (arith, c_str-word w s)

-- "GET" or "POST".
abbrev pub method_name : Bool → List ℕ
method_name true = codes "GET"
method_name false = codes "POST"

abbrev pub method_of : Bool → Method
method_of true = get
method_of false = post

-- The line that `parseLine` has ended by a NUL: method, URL and version with one blank between.
abbrev pub request_line : Bool → List ℕ → List ℕ → List ℕ
request_line is_get u rest = method_name is_get ++ 32 ∷ (u ++ 32 ∷ (codes "HTTP/1.1" ++ 0 ∷ rest))

-- The same with its blanks overwritten.
abbrev pub cut_line : Bool → List ℕ → List ℕ → List ℕ
cut_line is_get u rest = method_name is_get ++ 0 ∷ (u ++ 0 ∷ (codes "HTTP/1.1" ++ 0 ∷ rest))

-- A URL that begins with a slash is taken.
finish_path :
    (r : HttpRequest) (t : List ℕ) (u v : ℕ) (s version : List ℕ)
    → drop u t ≡ 47 ∷ s
    → byte_at t u ≡ 47
    → drop v t ≡ version
    → case_eq version (codes "HTTP/1.1") ≡ true
    → finish_request r t u v ≡ (
      no_request,
      record r { url = c_str (47 ∷ s); version = c_str version; check_state = check_header },
    )
unfolding finish_request case_eq_prefix
finish_path r t u v s version a b c d = rw (a, b, c, d) refl

-- Any other is refused, a URL with a scheme and a host too.
finish_other :
    (r : HttpRequest) (t : List ℕ) (u v : ℕ)
    → byte_at t u ≢ 47
    → (finish_request r t u v).0 ≡ bad_request
unfolding finish_request
finish_other r t u v a = ground arith

span-word : (c : ℕ) (s : List ℕ) → c ≢ 32 → c ≢ 9 → span_blank (c ∷ s) ≡ 0
unfolding span_blank
span-word c s h k = ground arith

drop-prefix : (p s : List ℕ) → drop (length p) (p ++ s) ≡ s
drop-prefix [] s = refl
drop-prefix (x ∷ p) s = drop-prefix p s

set-prefix : (p w s : List ℕ) → set (p ++ (w ++ 32 ∷ s)) (length p + length w) 0 ≡ p ++ (w ++ 0 ∷ s)
set-prefix [] w s = rw add.zero (set-word w s)
set-prefix (x ∷ p) w s = rw add.suc (ap (◌∷◌ x) (set-prefix p w s))

drop-words : (p w s : List ℕ) → drop (length p + length w + 1) (p ++ (w ++ 0 ∷ s)) ≡ s
drop-words [] w s = rw add.zero (drop-word w s)
drop-words (x ∷ p) w s =
    let e : suc (length p) + length w + 1 ≡ suc (length p + length w + 1) = omega arith in
    rw e (drop-words p w s)

-- The version, and the NUL that ends the line.
abbrev pub version_tail : List ℕ → List ℕ
version_tail rest = codes "HTTP/1.1" ++ 0 ∷ rest

-- `parseRequest` behind the method, which stands in `p` with the NUL after it.
with_version-line :
    (r : HttpRequest) (p w rest : List ℕ)
    → IsWord w
    → let t = p ++ (w ++ 32 ∷ version_tail rest) in
      let t2 = p ++ (w ++ 0 ∷ version_tail rest) in
      let out = finish_request r t2 (length p) (length p + length w + 1) in
      with_version r t (length p) (find_blank (drop (length p) t)) ≡ (out.0, out.1, t2)
unfolding with_version
with_version-line r p w rest h =
    let e : length p + length w + 1 + 0 ≡ length p + length w + 1 = omega arith in
    rw
      (
        drop-prefix p (w ++ 32 ∷ version_tail rest),
        find_blank-word w (version_tail rest) h,
        set-prefix p w (version_tail rest),
      )
      (rw (drop-words p w (version_tail rest)) (unfold span_blank in rw e refl))

-- The text up to the URL.
abbrev pub before_url : Bool → List ℕ
before_url n = method_name n ++ 0 ∷ []

first_byte :
    (n : Bool) (c : ℕ) (s : List ℕ) → byte_at (before_url n ++ c ∷ s) (length (before_url n)) ≡ c
first_byte true c s = refl
first_byte false c s = refl

-- `parseRequest` on such a line comes down to its last part.
request_line-parsed :
    (r : HttpRequest) (n : Bool) (c : ℕ) (w rest : List ℕ)
    → IsWord (c ∷ w)
    → let u = length (before_url n) in
      let t2 = before_url n ++ ((c ∷ w) ++ 0 ∷ version_tail rest) in
      let out = finish_request (record r { method = method_of n }) t2 u (u + length (c ∷ w) + 1) in
      parse_request r (request_line n (c ∷ w) rest) ≡ (out.0, out.1, t2)
unfolding parse_request known_method case_eq find_blank
request_line-parsed r true c w rest h =
    rw (span-word c (w ++ 32 ∷ version_tail rest) h.1 h.2)
      (with_version-line (record r { method = get }) (before_url true) (c ∷ w) rest h)
request_line-parsed r false c w rest h =
    rw (span-word c (w ++ 32 ∷ version_tail rest) h.1 h.2)
      (with_version-line (record r { method = post }) (before_url false) (c ∷ w) rest h)

-- What a request for a path leaves in the fields.
abbrev pub for_path : HttpRequest → Bool → List ℕ → HttpRequest
for_path r n u = record r {
  url = u;
  version = codes "HTTP/1.1";
  method = method_of n;
  check_state = check_header;
}

c_str-version : (rest : List ℕ) → c_str (version_tail rest) ≡ codes "HTTP/1.1"
unfolding c_str
c_str-version rest = refl

path-IsWord : (w : List ℕ) → IsWord w → IsWord (47 ∷ w)
path-IsWord w h = (omega arith, omega arith, omega arith, h)

finish_request-path :
    (r : HttpRequest) (n : Bool) (w rest : List ℕ)
    → IsWord w
    → let u = length (before_url n) in
      finish_request
        (record r { method = method_of n })
        (before_url n ++ ((47 ∷ w) ++ 0 ∷ version_tail rest))
        u
        (u + length (47 ∷ w) + 1)
      ≡ (no_request, for_path r n (47 ∷ w))
finish_request-path r n w rest h =
    finish_path (record r { method = method_of n }) _ _ _ (w ++ 0 ∷ version_tail rest)
      (version_tail rest) (drop-prefix (before_url n) ((47 ∷ w) ++ 0 ∷ version_tail rest))
      (first_byte n 47 _) (drop-words (before_url n) (47 ∷ w) (version_tail rest))
      (unfold case_eq in refl)
    ∙ ap₂
        (λ a b. (
          no_request,
          record r { url = a; version = b; method = method_of n; check_state = check_header },
        ))
        (c_str-word (47 ∷ w) (version_tail rest) (path-IsWord w h)) (c_str-version rest)

-- A GET or POST line for the path that `/` and a word make is taken: `parseRequest` answers
-- NO_REQUEST, stores method, URL and version, goes on to the headers, and changes only the two
-- blanks of the text.
pub parse_request_path :
    (r : HttpRequest) (n : Bool) (w rest : List ℕ)
    → IsWord w
    → parse_request r (request_line n (47 ∷ w) rest)
      ≡ (no_request, for_path r n (47 ∷ w), before_url n ++ ((47 ∷ w) ++ 0 ∷ version_tail rest))
parse_request_path r n w rest h =
    request_line-parsed r n 47 w rest (path-IsWord w h)
    ∙ ap (λ o. (o.0, o.1, before_url n ++ ((47 ∷ w) ++ 0 ∷ version_tail rest)))
        (finish_request-path r n w rest h)

-- A GET or POST line for a URL that is a word and does not begin with `/`, one with a scheme and
-- a host too, is answered BAD_REQUEST.
pub parse_request_other :
    (r : HttpRequest) (n : Bool) (c : ℕ) (w rest : List ℕ)
    → IsWord (c ∷ w)
    → c ≢ 47
    → (parse_request r (request_line n (c ∷ w) rest)).0 ≡ bad_request
parse_request_other r n c w rest h ne =
    ap (λ o. o.0) (request_line-parsed r n c w rest h)
    ∙ finish_other _ _ (length (before_url n)) _ (λ e. ne (sym (first_byte n c _) ∙ e))
