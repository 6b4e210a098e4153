-- ===== src/Http/Request/ContentLength.antt =====
-- The header that announces a body.
use knpnl.Prelude.{ℕ, ◌≡◌, suc, refl, ap, List, ◌∷◌, ◌++◌, ℤ}
use knpnl.Http.CString.{codes, case_eq_prefix, span_blank}
use knpnl.Http.Request.{HttpRequest, no_request, parse_header}
use knpnl.LogStream.{convert}
use knpnl.LogStream.RoundTrip.{InLong, atol-convert, span_blank-convert}

-- The line `Content-length: v`, which `parseLine` has ended by a NUL.
abbrev pub length_line : ℤ → List ℕ → List ℕ
length_line v rest = codes "Content-length: " ++ (convert v ++ 0 ∷ rest)

span_blank-line : (v : ℤ) (rest : List ℕ) → span_blank (32 ∷ (convert v ++ 0 ∷ rest)) ≡ 1
unfolding span_blank
span_blank-line v rest = ap suc (span_blank-convert v rest)

-- A `Content-length` line whose number is a `long`, written as this program writes numbers, sets
-- `contentLength` to that number, a negative one too, and nothing else.
pub parse_header-content_length :
    (r : HttpRequest) (v : ℤ) (rest : List ℕ)
    → InLong v
    → parse_header r (length_line v rest) ≡ (no_request, record r { content_length = v })
unfolding parse_header case_eq_prefix
parse_header-content_length r v rest h = rw (span_blank-line v rest, atol-convert v rest h) refl
