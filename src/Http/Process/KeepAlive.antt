-- ===== src/Http/Process/KeepAlive.antt =====
-- HttpRequest::Init and a second request on one connection.
use knpnl.Prelude.{
  ℕ, zero, suc, ◌*◌, ◌+◌, ◌^◌, ◌<◌, ◌≡◌, refl, ◌∙◌, ◌⊎◌, inl, inr, Bool-cases, ◌==◌, arith,
}
use knpnl.Buffer.{FixedBuffer, capacity, used}
use knpnl.Buffer.Contents.{IsValid}
use knpnl.Http.Request.{
  HttpRequest, no_request, bad_request, CheckState, check_success, check_request, check_header,
  check_body, LineState, line_ok, line_open, line_bad, init,
}
use knpnl.Http.Process.{
  Turn, again, answer, throw, on_line, on_parsed, turn, proceed, run, process_read,
}
use knpnl.Http.Process.Ends.{Finished, process_read-Finished}

-- The fields that a request line and headers would set are those of `r`, and so is the state.
pub record SameRequest (r r' : HttpRequest) : Type 0 where
  pub same_state : r'.check_state ≡ r.check_state
  pub same_url : r'.url ≡ r.url
  pub same_method : r'.method ≡ r.method
  pub same_length : r'.content_length ≡ r.content_length
  pub same_body : r'.body ≡ r.body

abbrev pub Silent : HttpRequest → Turn → Type 0
Silent r (again r' b') = SameRequest r r'
Silent r (answer c r' b') = SameRequest r r' × ((c ≡ no_request) ⊎ (c ≡ bad_request))
Silent r (throw r' b') = ⊥

SameRequest-trans : {p q r : HttpRequest} → SameRequest p q → SameRequest q r → SameRequest p r
SameRequest-trans h k = ground arith

Silent-mono : {r r' : HttpRequest} (o : Turn) → SameRequest r r' → Silent r' o → Silent r o
Silent-mono (again q b) h k = SameRequest-trans h k
Silent-mono (answer c q b) h k = (SameRequest-trans h k.0, k.1)
Silent-mono (throw q b) h k = k

on_parsed-Silent :
    (st : LineState) (c : CheckState) (r r' : HttpRequest) (b : FixedBuffer)
    → c ≡ check_success
    → SameRequest r r'
    → Silent r (on_parsed st c r' b)
unfolding on_parsed on_line
on_parsed-Silent line_ok check_success r r' b e h = h
on_parsed-Silent line_open check_success r r' b e h = (h, inl refl)
on_parsed-Silent line_bad check_success r r' b e h = (h, inr refl)
on_parsed-Silent st check_request r r' b e h = cc
on_parsed-Silent st check_header r r' b e h = cc
on_parsed-Silent st check_body r r' b e h = cc

turn-Silent :
    (r : HttpRequest) (b : FixedBuffer) → r.check_state ≡ check_success → Silent r (turn r b)
unfolding turn
turn-Silent r b e = on_parsed-Silent _ r.check_state r _ _ e (ground arith)

proceed-Silent :
    (r : HttpRequest) (o : Turn) (rest : HttpRequest → FixedBuffer → Turn)
    → Silent r o
    → ((r' : HttpRequest) (b' : FixedBuffer) → SameRequest r r' → Silent r' (rest r' b'))
    → Silent r (proceed o rest)
unfolding proceed
proceed-Silent r (again r' b') rest h f = Silent-mono (rest r' b') h (f r' b' h)
proceed-Silent r (answer c r' b') rest h f = h
proceed-Silent r (throw r' b') rest h f = h

run-Silent :
    (fuel : ℕ) (r : HttpRequest) (b : FixedBuffer)
    → r.check_state ≡ check_success
    → Silent r (run fuel r b)
unfolding run
run-Silent zero r b e = ground arith
run-Silent (suc fuel) r b e = elim (Bool-cases (used b == 0)) [
  | inl z ↦ rw z (ground arith)
  | inr z ↦ rw z (
      proceed-Silent r (turn r b) (run fuel) (turn-Silent r b e)
        λ r' b' h. run-Silent fuel r' b' (h.same_state ∙ e))
]

-- From CHECK_STATE_SUCCESS on, `processRead` changes no field of the request and hands none over.
pub process_read-Silent :
    (r : HttpRequest) (b : FixedBuffer)
    → r.check_state ≡ check_success
    → Silent r (process_read r b)
unfolding process_read
process_read-Silent r b e = run-Silent (2 * used b + 1) r b e

-- A call that ends with an answer other than GET_REQUEST and sets no field of `r`.
abbrev pub Ignored : HttpRequest → Turn → Type 0
Ignored r (again r' b') = ⊥
Ignored r (answer c r' b') = SameRequest r r' × ((c ≡ no_request) ⊎ (c ≡ bad_request))
Ignored r (throw r' b') = ⊥

Silent-Ignored :
    (r : HttpRequest) (b : FixedBuffer) (o : Turn) → Silent r o → Finished b o → Ignored r o
Silent-Ignored r b (again r' b') s f = f
Silent-Ignored r b (answer c r' b') s f = s
Silent-Ignored r b (throw r' b') s f = s

-- After a request that was read to its end, `Init` leaves the parser where it cannot read another
-- one: whatever valid buffer (smaller than 2^32 bytes) there is, the next `processRead` answers
-- NO_REQUEST or BAD_REQUEST, never GET_REQUEST, and leaves the URL, the method, the content
-- length, the body and the state as they were.
pub init-Ignored :
    (r : HttpRequest) (b : FixedBuffer)
    → r.check_state ≡ check_success
    → IsValid b
    → capacity b < 2 ^ 32
    → Ignored (init r) (process_read (init r) b)
unfolding process_read init
init-Ignored r b e v small =
    Silent-Ignored (init r) b (process_read (init r) b) (process_read-Silent (init r) b e)
      (process_read-Finished (init r) b v small (omega arith))
