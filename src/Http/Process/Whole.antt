-- ===== src/Http/Process/Whole.antt =====
-- HttpRequest::processRead on a request that a client writes.
use mathlib.Core.List.{append_assoc}
use knpnl.Prelude.{
  ℕ, zero, suc, ◌+◌, ◌*◌, ◌^◌, ◌≤◌, ◌<◌, ◌≡◌, refl, sym, ap, ◌∙◌, Bool, true, false, List, [], ◌∷◌,
  ◌++◌, length, length-append, drop, drop-drop, take, pos, arith,
}
use knpnl.Buffer.{FixedBuffer, used}
use knpnl.Http.CString.{codes}
use knpnl.Http.Request.{
  HttpRequest, line_ok, parse_line, check_request, check_success, no_request, get_request,
  parse_request, parse_header,
}
use knpnl.Http.Request.Ending.{IsClean, parse_line_whole}
use knpnl.Http.Request.RequestLine.{
  IsWord, request_line, before_url, version_tail, for_path, parse_request_path, method_name,
  method_of,
}
use knpnl.Http.Process.Rounds.{
  turn-on_line, on_request-again, moved, blank-header, on_header-answer, run-again, run-answer,
}
use knpnl.Http.Process.{again, answer, text, set_text, on_line, turn, run, process_read}

-- A request line without its end, and the same with its blanks overwritten.
abbrev pub line_of : Bool → List ℕ → List ℕ
line_of n w = method_name n ++ 32 ∷ ((47 ∷ w) ++ 32 ∷ codes "HTTP/1.1")

abbrev cut_of : Bool → List ℕ → List ℕ
cut_of n w = before_url n ++ ((47 ∷ w) ++ 0 ∷ codes "HTTP/1.1")

line-request_line :
    (n : Bool) (w rest : List ℕ) → line_of n w ++ 0 ∷ 0 ∷ rest ≡ request_line n (47 ∷ w) (0 ∷ rest)
line-request_line true w rest =
    ap (λ l. codes "GET" ++ 32 ∷ 47 ∷ l) (append_assoc w (32 ∷ codes "HTTP/1.1") (0 ∷ 0 ∷ rest))
line-request_line false w rest =
    ap (λ l. codes "POST" ++ 32 ∷ 47 ∷ l) (append_assoc w (32 ∷ codes "HTTP/1.1") (0 ∷ 0 ∷ rest))

cut-version_tail :
    (n : Bool) (w rest : List ℕ)
    → before_url n ++ ((47 ∷ w) ++ 0 ∷ version_tail (0 ∷ rest)) ≡ cut_of n w ++ 0 ∷ 0 ∷ rest
cut-version_tail true w rest =
    sym (ap (λ l. codes "GET" ++ 0 ∷ 47 ∷ l) (append_assoc w (0 ∷ codes "HTTP/1.1") (0 ∷ 0 ∷ rest)))
cut-version_tail false w rest =
    sym
      (ap (λ l. codes "POST" ++ 0 ∷ 47 ∷ l) (append_assoc w (0 ∷ codes "HTTP/1.1") (0 ∷ 0 ∷ rest)))

length-cut : (n : Bool) (w : List ℕ) → length (cut_of n w) ≡ length (line_of n w)
length-cut true w =
    omega (arith, length-append w (0 ∷ codes "HTTP/1.1"), length-append w (32 ∷ codes "HTTP/1.1"))
length-cut false w =
    omega (arith, length-append w (0 ∷ codes "HTTP/1.1"), length-append w (32 ∷ codes "HTTP/1.1"))

drop-ends : (q rest : List ℕ) → drop (length q + 2) (q ++ 0 ∷ 0 ∷ rest) ≡ rest
drop-ends [] rest = refl
drop-ends (x ∷ q) rest =
    let e : suc (length q) + 2 ≡ suc (length q + 2) = omega arith in rw e (drop-ends q rest)

append-IsClean : (p s : List ℕ) → IsClean p → IsClean s → IsClean (p ++ s)
append-IsClean [] s a b = b
append-IsClean (x ∷ p) s (c, d, e) b = (c, d, append-IsClean p s e b)

version-IsClean : IsClean (32 ∷ codes "HTTP/1.1")
version-IsClean = ground arith

line-IsClean : (n : Bool) (w : List ℕ) → IsClean w → IsClean (line_of n w)
line-IsClean true w h =
    let t = append-IsClean w (32 ∷ codes "HTTP/1.1") h version-IsClean in ground arith
line-IsClean false w h =
    let t = append-IsClean w (32 ∷ codes "HTTP/1.1") h version-IsClean in ground arith

-- A parser that waits for a request line.
abbrev pub waiting : HttpRequest → HttpRequest
waiting r = record r { check_index = 0; check_state = check_request; content_length = pos 0 }

-- The line, its end and a blank line, at the front of a buffer.
abbrev pub asked : Bool → List ℕ → List ℕ → FixedBuffer
asked n w junk = record {
  mem = line_of n w ++ 13 ∷ 10 ∷ 13 ∷ 10 ∷ junk;
  read_ptr = 0;
  write_ptr = length (line_of n w) + 4;
}

-- Behind the line.
abbrev lined : Bool → List ℕ → List ℕ → FixedBuffer
lined n w junk = record {
  mem = cut_of n w ++ 0 ∷ 0 ∷ 13 ∷ 10 ∷ junk;
  read_ptr = length (line_of n w) + 2;
  write_ptr = length (line_of n w) + 4;
}

abbrev headed : HttpRequest → Bool → List ℕ → HttpRequest
headed r n w = record (for_path (record (waiting r) { line_state = line_ok }) n (47 ∷ w)) {
  check_index = 0;
}

parsed-line :
    (r : HttpRequest) (n : Bool) (w rest : List ℕ)
    → IsWord w
    → parse_request r (line_of n w ++ 0 ∷ 0 ∷ rest)
      ≡ (no_request, for_path r n (47 ∷ w), cut_of n w ++ 0 ∷ 0 ∷ rest)
parsed-line r n w rest h =
    ap (parse_request r) (line-request_line n w rest)
    ∙ parse_request_path r n w (0 ∷ rest) h
    ∙ ap (λ t. (no_request, for_path r n (47 ∷ w), t)) (cut-version_tail n w rest)

drop-kept : (k : ℕ) (xs t : List ℕ) → k ≤ length xs → drop k (take k xs ++ t) ≡ t
drop-kept zero xs t h = refl
drop-kept (suc k) [] t h = absurd (omega arith)
drop-kept (suc k) (x ∷ xs) t h = drop-kept k xs t (omega arith)

module _ (r : HttpRequest) (n : Bool) (w junk : List ℕ) (word : IsWord w) (clean : IsClean w)
    (small : length (line_of n w) + 4 < 2 ^ 32) where
  used-asked : used (asked n w junk) ≡ length (line_of n w) + 4
  unfolding used
  used-asked = omega arith

  used-lined : used (lined n w junk) ≡ 2
  unfolding used
  used-lined = omega arith

  first-turn : turn (waiting r) (asked n w junk) ≡ again (headed r n w) (lined n w junk)
  unfolding on_line
  first-turn =
      let len = length (line_of n w) in
      let rest = 13 ∷ 10 ∷ junk in
      let found =
        parse_line_whole (line_of n w) rest (used (asked n w junk)) (line-IsClean n w clean)
          (omega (arith, used-asked)) (omega (arith, used-asked)) in
      let t = line_of n w ++ 0 ∷ 0 ∷ rest in
      turn-on_line (waiting r) (asked n w junk) t (len + 2) found
      ∙ on_request-again (record (waiting r) { line_state = line_ok; check_index = len + 2 })
          (set_text (asked n w junk) t) _ _
          (parsed-line (record (waiting r) { line_state = line_ok; check_index = len + 2 }) n w rest
            word)
      ∙ ap (again (headed r n w))
          (moved _ (len + 2) ∙ ap (λ k. record (lined n w junk) { read_ptr = k }) (omega arith))

  text-lined : text (lined n w junk) ≡ 13 ∷ 10 ∷ junk
  text-lined = rw (sym (length-cut n w)) (drop-ends (cut_of n w) (13 ∷ 10 ∷ junk))

  found-blank :
      parse_line (text (lined n w junk)) (used (lined n w junk)) 0 ≡ (line_ok, 0 ∷ 0 ∷ junk, 2)
  found-blank =
      rw (text-lined, used-lined) (parse_line_whole [] junk 2 tt (omega arith) (omega arith))

  blanked : FixedBuffer
  blanked = set_text (lined n w junk) (0 ∷ 0 ∷ junk)

  text-blanked : text blanked ≡ 0 ∷ 0 ∷ junk
  unfolding blanked
  text-blanked =
      drop-kept (length (line_of n w) + 2) (cut_of n w ++ 0 ∷ 0 ∷ 13 ∷ 10 ∷ junk) (0 ∷ 0 ∷ junk)
        (omega (arith, length-cut n w, length-append (cut_of n w) (0 ∷ 0 ∷ 13 ∷ 10 ∷ junk)))

  second-turn :
      turn (headed r n w) (lined n w junk)
      ≡ answer get_request
          (record (headed r n w) { check_state = check_success })
          (record blanked { read_ptr = length (line_of n w) + 4 })
  unfolding on_line blanked
  second-turn =
      turn-on_line (headed r n w) (lined n w junk) (0 ∷ 0 ∷ junk) 2 found-blank
      ∙ on_header-answer (record (headed r n w) { check_index = 2 }) blanked _
          (ap (parse_header _) text-blanked
            ∙ blank-header (record (headed r n w) { check_index = 2 }) (0 ∷ junk))
      ∙ ap (answer get_request (record (headed r n w) { check_state = check_success }))
          (moved _ 2 ∙ ap (λ k. record blanked { read_ptr = k }) (omega arith))

  used-blanked : used (record blanked { read_ptr = length (line_of n w) + 4 }) ≡ 0
  unfolding blanked used
  used-blanked = omega arith

  text-handed : text (record blanked { read_ptr = length (line_of n w) + 4 }) ≡ junk
  unfolding blanked
  text-handed =
      let e : length (line_of n w) + 4 ≡ length (line_of n w) + 2 + 2 = omega arith in
      ap (λ k. drop k blanked.mem) e
      ∙ sym (drop-drop 2 (length (line_of n w) + 2) blanked.mem)
      ∙ ap (drop 2) text-blanked

  whole_run :
      process_read (waiting r) (asked n w junk)
      ≡ answer get_request
          (record (headed r n w) { check_state = check_success })
          (record blanked { read_ptr = length (line_of n w) + 4 })
  unfolding process_read
  whole_run =
      let f : 2 * used (asked n w junk) + 1 ≡ suc (suc (2 * length (line_of n w) + 7)) =
        omega (arith, used-asked) in
      ap (λ k. run k (waiting r) (asked n w junk)) f
      ∙ run-again (suc (2 * length (line_of n w) + 7)) (waiting r) (asked n w junk) (headed r n w)
          (lined n w junk) (omega (arith, used-asked)) first-turn
      ∙ run-answer (2 * length (line_of n w) + 7) (headed r n w) (lined n w junk) get_request _ _
          (omega (arith, used-lined)) second-turn

-- A request as a client writes it, a GET or POST line for the path that `/` and a word make and a
-- blank line, that stands whole at the front of a buffer smaller than 2^32 bytes, is handed over
-- by one call of `processRead` with GET_REQUEST: method, URL and version are those that were
-- written, the state is CHECK_STATE_SUCCESS, and the request's bytes are used up. The parser
-- waits for a request line, its content length is 0, and the word has no '\r' or '\n'.
pub process_read-whole :
    (r : HttpRequest) (n : Bool) (w junk : List ℕ)
    → IsWord w
    → IsClean w
    → length (line_of n w) + 4 < 2 ^ 32
    → (r' : HttpRequest) × (b' : FixedBuffer) × (process_read (waiting r) (asked n w junk)
        ≡ answer get_request r' b')
      × (r'.method ≡ method_of n)
      × (r'.url ≡ 47 ∷ w)
      × (r'.version ≡ codes "HTTP/1.1")
      × (r'.check_state ≡ check_success)
      × (used b' ≡ 0)
      × (text b' ≡ junk)
process_read-whole r n w junk word clean small = (
  _,
  _,
  whole_run r n w junk word clean small,
  refl,
  refl,
  refl,
  refl,
  used-blanked r n w junk word clean small,
  text-handed r n w junk word clean small,
)
