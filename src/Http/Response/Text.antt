-- ===== src/Http/Response/Text.antt =====
-- The text of a response in the write buffer.
use knpnl.Prelude.{
  ℕ, ◌≤◌, ◌≡◌, refl, Bool, sym, ap, ◌∙◌, List, [], ◌∷◌, ◌++◌, length, ℤ, arith, true, false, subst,
  pos, take, if◌then◌else◌, length-append, leb, Bool-cases, inl, inr,
}
use mathlib.Core.List.{append_assoc, append-nil}
use knpnl.Buffer.{FixedBuffer, append, avail}
use knpnl.Buffer.Contents.{IsValid, contents, Took, append_refines, avail-add-used}
use knpnl.Http.CString.{codes, c_str}
use knpnl.Http.Response.{
  HttpResponse, header_lines, body_lines, crlf, number, status_message, pieces, append_each,
  append_to_buffer,
}

-- The strings one behind the other.
unfoldable pub joined : List (List ℕ) → List ℕ
joined [] = []
joined (s ∷ ss) = s ++ joined ss

joined-append : (ss ts : List (List ℕ)) → joined (ss ++ ts) ≡ joined ss ++ joined ts
unfolding joined
joined-append [] ts = refl
joined-append (s ∷ ss) ts =
    ap (λ l. s ++ l) (joined-append ss ts) ∙ sym (append_assoc s (joined ss) (joined ts))

-- Of what `snprintf` writes into `char buf[128]`, the bytes up to a NUL, and 127 at most.
abbrev pub printed : List ℕ → List ℕ
printed s = take 127 (c_str s)

-- A line for each header, in the order of the map.
unfoldable pub header_text : List (List ℕ × List ℕ) → List ℕ
header_text [] = []
header_text ((key, val) ∷ hs) =
    printed (c_str key ++ (58 ∷ (c_str val ++ (13 ∷ 10 ∷ [])))) ++ header_text hs

joined-header_lines : (hs : List (List ℕ × List ℕ)) → joined (header_lines hs) ≡ header_text hs
unfolding joined header_text
joined-header_lines [] = refl
joined-header_lines ((key, val) ∷ hs) =
    ap (λ l. printed l ++ joined (header_lines hs))
      (append_assoc (c_str key) (58 ∷ c_str val) (13 ∷ 10 ∷ []))
    ∙ ap (λ l. printed (c_str key ++ (58 ∷ (c_str val ++ (13 ∷ 10 ∷ [])))) ++ l)
        (joined-header_lines hs)

-- What becomes of the connection.
abbrev pub connection_of : Bool → List ℕ
connection_of true = codes "Connection:keep-isAlive"
connection_of false = codes "Connection:closed"

joined-body_lines : (b : List ℕ) → joined (body_lines b) ≡ b
unfolding joined
joined-body_lines [] = refl
joined-body_lines (x ∷ b) = append-nil (x ∷ b)

joined-tail :
    (hs : List (List ℕ × List ℕ)) (b : List ℕ)
    → joined (header_lines hs ++ (crlf ∷ body_lines b)) ≡ header_text hs ++ (13 ∷ 10 ∷ b)
unfolding joined
joined-tail hs b =
    joined-append (header_lines hs) (crlf ∷ body_lines b)
    ∙ ap (λ l. l ++ (13 ∷ 10 ∷ joined (body_lines b))) (joined-header_lines hs)
    ∙ ap (λ l. header_text hs ++ (13 ∷ 10 ∷ l)) (joined-body_lines b)

connection_line :
    (a : Bool) (rest : List ℕ)
    → (if a then codes "Connection:keep-isAlive" ++ crlf else codes "Connection:closed" ++ crlf)
        ++ rest
      ≡ connection_of a ++ (13 ∷ 10 ∷ rest)
connection_line true rest = refl
connection_line false rest = refl

append-IsValid : (b : FixedBuffer) (s : List ℕ) → IsValid b → IsValid (append b s).0
append-IsValid b s v = elim (Bool-cases (leb (length s) (avail b))) [
  | inl h ↦ ((append_refines s v).0 (ground arith)).1.valid
  | inr h ↦ ground (arith, (append_refines s v).1 (ground arith))
]

module _ (decimal : ℤ → List ℕ) where
  append_each-Took :
      (ss : List (List ℕ)) (b : FixedBuffer)
      → IsValid b
      → length (joined ss) ≤ avail b
      → Took b (joined ss) (append_each decimal b ss)
  unfolding append_each joined
  append_each-Took [] b v h = record {
    valid = v;
    same_size = refl;
    bytes = sym (append-nil (contents b));
    grown = omega arith;
  }
  append_each-Took (s ∷ ss) b v h =
      let sum = length-append s (joined ss) in
      let both = append_refines s v in
      let (n, t) = both.0 (omega arith) in
      let rest =
        append_each-Took ss (append b s).0 t.valid
          (omega (arith, t.grown, t.same_size, avail-add-used v, avail-add-used t.valid)) in
      record {
        valid = rest.valid;
        same_size = rest.same_size ∙ t.same_size;
        bytes =
            rest.bytes
            ∙ (ap (λ l. l ++ joined ss) t.bytes ∙ append_assoc (contents b) s (joined ss));
        grown = omega (arith, rest.grown, t.grown);
      }

  -- What a client gets.
  unfoldable pub response_text : HttpResponse → List ℕ
  response_text r =
      printed (
        codes "HTTP/1.1 "
        ++ (decimal (pos (number r.status_code))
            ++ (32 ∷ (status_message r.status_code ++ (13 ∷ 10 ∷ [])))))
      ++ (connection_of r.is_alive
          ++ (13
              ∷ 10
              ∷ (printed (codes "Content-Length:" ++ (decimal r.content_length ++ (13 ∷ 10 ∷ [])))
                  ++ (header_text r.headers ++ (13 ∷ 10 ∷ r.body)))))

  joined-pieces : (r : HttpResponse) → joined (pieces decimal r) ≡ response_text r
  unfolding joined pieces response_text
  joined-pieces r =
      let status = decimal (pos (number r.status_code)) in
      let message = status_message r.status_code in
      rw (append_assoc status (32 ∷ message) crlf, joined-tail r.headers r.body)
        (ap (λ l. printed (codes "HTTP/1.1 " ++ (status ++ (32 ∷ (message ++ crlf)))) ++ l)
          (connection_line r.is_alive _))

  -- A response that fits into a valid write buffer is there whole, behind the bytes that wait:
  -- the status line, `Connection:keep-isAlive` or `Connection:closed` by `isAlive`, the length, a
  -- line for each header in the order of the map, the blank line and the body. Of the status
  -- line, the length and each header there are the bytes up to a NUL, and 127 at most.
  pub append_to_buffer-Took :
      (r : HttpResponse) (b : FixedBuffer)
      → IsValid b
      → length (response_text r) ≤ avail b
      → Took b (response_text r) (append_to_buffer decimal r b)
  unfolding append_to_buffer
  append_to_buffer-Took r b v h =
      let t = joined-pieces r in
      subst (λ l. Took b l (append_each decimal b (pieces decimal r))) t
        (append_each-Took (pieces decimal r) b v (omega (arith, ap length t)))

  append_each-IsValid :
      (ss : List (List ℕ)) (b : FixedBuffer) → IsValid b → IsValid (append_each decimal b ss)
  unfolding append_each
  append_each-IsValid [] b v = v
  append_each-IsValid (s ∷ ss) b v = append_each-IsValid ss (append b s).0 (append-IsValid b s v)

  -- Whether the response fits or not, the write buffer stays valid.
  pub append_to_buffer-IsValid :
      (r : HttpResponse) (b : FixedBuffer) → IsValid b → IsValid (append_to_buffer decimal r b)
  unfolding append_to_buffer
  append_to_buffer-IsValid r b v = append_each-IsValid (pieces decimal r) b v
