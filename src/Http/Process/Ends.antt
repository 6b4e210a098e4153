-- ===== src/Http/Process/Ends.antt =====
-- HttpRequest::processRead on any buffer: how its loop ends, and its bounds.
use knpnl.Prelude.{
  ℕ, zero, suc, ◌+◌, ◌-◌, ◌*◌, ◌^◌, ◌≤◌, ◌<◌, ◌≡◌, refl, List, take, length, length-append,
  length-take, length-drop, arith, ◌==◌, Bool-cases, inl, inr,
}
use knpnl.Buffer.{FixedBuffer, capacity, used, read_ptr_move}
use knpnl.Buffer.Contents.{IsValid, avail-add-used, read_ptr_move_consumes}
use knpnl.Http.Request.{
  HttpRequest, CheckState, check_request, check_header, check_body, check_success, LineState,
  line_ok, line_open, line_bad, parse_line, parse_request,
}
use knpnl.Http.Request.Line.{Scanned, parse_line-Scanned}
use knpnl.Http.Request.Frame.{parse_request_frame, parse_header_frame, parse_content_frame}
use knpnl.Http.Process.{on_parsed, proceed}
use knpnl.Http.Process.{
  Turn, again, answer, throw, text, set_text, on_request, on_header, on_body, on_line, turn, run,
  process_read,
}

-- The buffer keeps its invariant and its size, and the index stays within the unread bytes.
pub record Kept (b : FixedBuffer) (r' : HttpRequest) (b' : FixedBuffer) : Type 0 where
  pub valid : IsValid b'
  pub same_size : capacity b' ≡ capacity b
  pub index_in : r'.check_index ≤ used b'

-- What is left to read, counted so that each round makes it less.
abbrev work : ℕ → FixedBuffer → ℕ
work i b = 2 * used b - i

-- After a round that began at the index `i`.
abbrev After : ℕ → FixedBuffer → Turn → Type 0
After i b (again r' b') = Kept b r' b' × (work r'.check_index b' < work i b)
After i b (answer c r' b') = Kept b r' b'
After i b (throw r' b') = Kept b r' b'

length-set_text :
    (b : FixedBuffer) (t : List ℕ)
    → IsValid b
    → length t ≡ length (text b)
    → capacity (set_text b t) ≡ capacity b
length-set_text b t v e = omega (
  arith,
  length-append (take b.read_ptr b.mem) t,
  length-take b.read_ptr b.mem,
  length-drop b.read_ptr b.mem,
)

pub set_text-IsValid :
    (b : FixedBuffer) (t : List ℕ) → IsValid b → length t ≡ length (text b) → IsValid (set_text b t)
set_text-IsValid b t v e = omega (arith, length-set_text b t v e)

pub used-set_text : (b : FixedBuffer) (t : List ℕ) → used (set_text b t) ≡ used b
unfolding used
used-set_text b t = refl

capacity-read_ptr_move : (b : FixedBuffer) (n : ℕ) → capacity (read_ptr_move b n).0 ≡ capacity b
unfolding read_ptr_move
capacity-read_ptr_move b n = ground arith

module _ (r : HttpRequest) (b : FixedBuffer) (i : ℕ) (v : IsValid b) (h : r.check_index ≤ used b)
    (lt : i < r.check_index) where
  on_request-After : After i b (on_request r b)
  unfolding on_request
  on_request-After = ground (
    arith,
    parse_request_frame r (text b),
    length-set_text b (parse_request r (text b)).2 v,
    set_text-IsValid b (parse_request r (text b)).2 v,
    used-set_text b (parse_request r (text b)).2,
    read_ptr_move_consumes {b = set_text b (parse_request r (text b)).2} r.check_index,
    capacity-read_ptr_move (set_text b (parse_request r (text b)).2) r.check_index,
  )

  on_header-After : After i b (on_header r b)
  unfolding on_header
  on_header-After = ground (
    arith,
    parse_header_frame r (text b),
    read_ptr_move_consumes {b = b} r.check_index v,
    capacity-read_ptr_move b r.check_index,
  )

  on_body-After : After i b (on_body r b)
  unfolding on_body
  on_body-After = ground (arith, parse_content_frame r (text b))

  on_line-After : (c : CheckState) → After i b (on_line c r b)
  unfolding on_line
  on_line-After check_request = on_request-After
  on_line-After check_header = on_header-After
  on_line-After check_body = on_body-After
  on_line-After check_success = (record { valid = v; same_size = refl; index_in = h }, omega arith)

-- A body is handed over as soon as it is there, also when its last line is open.
on_body-Kept :
    (r : HttpRequest) (b : FixedBuffer) (i : ℕ)
    → IsValid b
    → r.check_index ≤ used b
    → After i b (on_body r b)
unfolding on_body
on_body-Kept r b i v h = ground (arith, parse_content_frame r (text b))

on_parsed-After :
    (st : LineState) (c : CheckState) (r : HttpRequest) (b : FixedBuffer) (i : ℕ)
    → IsValid b
    → r.check_index ≤ used b
    → (st ≡ line_ok → i < r.check_index)
    → After i b (on_parsed st c r b)
unfolding on_parsed on_line
on_parsed-After line_ok c r b i v h lt = on_line-After r b i v h (lt refl) c
on_parsed-After line_bad c r b i v h lt = record { valid = v; same_size = refl; index_in = h }
on_parsed-After line_open check_body r b i v h lt = on_body-Kept r b i v h
on_parsed-After line_open check_request r b i v h lt = record {
  valid = v;
  same_size = refl;
  index_in = h;
}
on_parsed-After line_open check_header r b i v h lt = record {
  valid = v;
  same_size = refl;
  index_in = h;
}
on_parsed-After line_open check_success r b i v h lt = record {
  valid = v;
  same_size = refl;
  index_in = h;
}

-- The bounds of a round hold in the buffer that it began with.
After-mono :
    (i : ℕ) (b b' : FixedBuffer) (o : Turn)
    → capacity b' ≡ capacity b
    → used b' ≡ used b
    → After i b' o
    → After i b o
After-mono i b b' (again r o) e f a = omega arith
After-mono i b b' (answer c r o) e f a = omega arith
After-mono i b b' (throw r o) e f a = omega arith

turn-After :
    (r : HttpRequest) (b : FixedBuffer)
    → IsValid b
    → capacity b < 2 ^ 32
    → r.check_index ≤ used b
    → After r.check_index b (turn r b)
unfolding turn
turn-After r b v small h =
    let s : Scanned (text b) (used b) r.check_index (parse_line (text b) (used b) r.check_index) =
      parse_line-Scanned (text b) (used b) r.check_index h (omega (arith, avail-add-used v)) in
    let t = (parse_line (text b) (used b) r.check_index).1 in
    let b' = set_text b t in
    After-mono r.check_index b b' _ (length-set_text b t v s.same_length) (used-set_text b t) (
      on_parsed-After _ r.check_state _ b' r.check_index (set_text-IsValid b t v s.same_length)
        (omega (arith, s.within, used-set_text b t)) s.progress)

-- How `processRead` may come out.
abbrev pub Finished : FixedBuffer → Turn → Type 0
Finished b (again r' b') = ⊥
Finished b (answer c r' b') = Kept b r' b'
Finished b (throw r' b') = Kept b r' b'

Finished-mono :
    (b b' : FixedBuffer) (o : Turn) → capacity b' ≡ capacity b → Finished b' o → Finished b o
Finished-mono b b' (again r o) e k = k
Finished-mono b b' (answer c r o) e k = omega arith
Finished-mono b b' (throw r o) e k = omega arith

proceed-Finished :
    (i : ℕ) (b : FixedBuffer) (o : Turn) (rest : HttpRequest → FixedBuffer → Turn)
    → After i b o
    → ((r' : HttpRequest) (b' : FixedBuffer)
        → Kept b r' b'
        → work r'.check_index b' < work i b
        → Finished b' (rest r' b'))
    → Finished b (proceed o rest)
unfolding proceed
proceed-Finished i b (again r' b') rest (k, w) f =
    Finished-mono b b' (rest r' b') k.same_size (f r' b' k w)
proceed-Finished i b (answer c r' b') rest k f = k
proceed-Finished i b (throw r' b') rest k f = k

run-Finished :
    (fuel : ℕ) (r : HttpRequest) (b : FixedBuffer)
    → IsValid b
    → capacity b < 2 ^ 32
    → r.check_index ≤ used b
    → work r.check_index b < fuel
    → Finished b (run fuel r b)
unfolding run
run-Finished zero r b v small h w = absurd (omega arith)
run-Finished (suc fuel) r b v small h w = elim (Bool-cases (used b == 0)) [
  | inl e ↦ rw e (record { valid = v; same_size = refl; index_in = h })
  | inr e ↦ rw e (
      proceed-Finished r.check_index b (turn r b) (run fuel) (turn-After r b v small h)
        λ r' b' k lt.
          run-Finished fuel r' b' k.valid (omega (arith, k.same_size)) k.index_in (omega arith))
]

-- `processRead` ends on every buffer, with an answer or with an exception; it keeps the buffer's
-- invariant and size, and leaves `mCheckIndex` within the unread bytes. The buffer is valid and
-- smaller than 2^32 bytes, and `mCheckIndex` is within its unread bytes when the call begins.
pub process_read-Finished :
    (r : HttpRequest) (b : FixedBuffer)
    → IsValid b
    → capacity b < 2 ^ 32
    → r.check_index ≤ used b
    → Finished b (process_read r b)
unfolding process_read
process_read-Finished r b v small h = run-Finished (2 * used b + 1) r b v small h (omega arith)
