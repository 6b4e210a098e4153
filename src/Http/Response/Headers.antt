-- ===== src/Http/Response/Headers.antt =====
-- net/http/HttpResponse.h: the setters, and the map of the headers.
use knpnl.Prelude.{ℕ, Bool, true, false, ◌&&◌, ◌||◌, List, [], ◌∷◌, if◌then◌else◌, ◌==◌, ltb, ℤ}
use knpnl.Http.CString.{codes}
use knpnl.Http.Response.{HttpResponse, StatusCode}

-- `operator<` of `std::string`.
unfoldable pub string_ltb : List ℕ → List ℕ → Bool
string_ltb s [] = false
string_ltb [] (y ∷ ys) = true
string_ltb (x ∷ xs) (y ∷ ys) = ltb x y || (x == y && string_ltb xs ys)

-- `Headers[key] = val`, on the entries in the order of the map.
unfoldable pub put : List ℕ → List ℕ → List (List ℕ × List ℕ) → List (List ℕ × List ℕ)
unfolding string_ltb
put key val [] = (key, val) ∷ []
put key val ((k, v) ∷ hs) =
    let rest = put key val hs in
    if string_ltb key k
    then (key, val) ∷ (k, v) ∷ hs
    else if string_ltb k key
    then (k, v) ∷ rest
    else (key, val) ∷ hs

unfoldable pub set_header : List ℕ → List ℕ → HttpResponse → HttpResponse
unfolding put
set_header key val r = record r { headers = put key val r.headers }

unfoldable pub set_content_type : List ℕ → HttpResponse → HttpResponse
unfolding put
set_content_type t r = record r { headers = put (codes "Content-Type") t r.headers }

unfoldable pub set_status_code : StatusCode → HttpResponse → HttpResponse
set_status_code code r = record r { status_code = code }

unfoldable pub set_content_length : ℤ → HttpResponse → HttpResponse
set_content_length len r = record r { content_length = len }

unfoldable pub set_body : List ℕ → HttpResponse → HttpResponse
set_body body r = record r { body = body }
