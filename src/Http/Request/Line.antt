-- ===== src/Http/Request/Line.antt =====
-- `parseLine`: what it finds, and that a line may come in pieces.
use knpnl.Prelude.{
  ℕ, zero, suc, ◌+◌, ◌-◌, ◌^◌, ◌≤◌, ◌<◌, ◌≡◌, ◌≢◌, refl, sym, ap, ◌∙◌, List, set, ◌==◌, add_u32,
  length, length-set, arith, inl, inr, Bool-cases, ◌⊎◌,
}
use knpnl.Http.Request.{
  LineState, line_ok, line_open, byte_at, cr, lf, scan, parse_line, at_cr, at_lf,
}

-- What the loop keeps, from index `i` with `n` rounds left: the index stays within the bytes that
-- were received and the text keeps its length; a complete line takes a byte at least.
pub record Scanned (t : List ℕ) (sz i : ℕ) (out : LineState × List ℕ × ℕ) : Type 0 where
  pub forward : i ≤ out.2
  pub within : out.2 ≤ sz
  pub same_length : length out.1 ≡ length t
  pub progress : out.0 ≡ line_ok → i < out.2

at_cr-Scanned : (t : List ℕ) (sz i : ℕ) → i < sz → sz < 2 ^ 32 → Scanned t sz i (at_cr t sz i)
unfolding at_cr
at_cr-Scanned t sz i h small =
    ground (arith, length-set (set t i 0) (add_u32 i 1) 0, length-set t i 0)

at_lf-Scanned : (t : List ℕ) (sz i : ℕ) → i < sz → sz < 2 ^ 32 → Scanned t sz i (at_lf t i)
unfolding at_lf
at_lf-Scanned t sz i h small = ground (arith, length-set (set t i 0) (i - 1) 0, length-set t i 0)

scan-Scanned :
    (n : ℕ) (t : List ℕ) (sz i : ℕ) → n + i ≡ sz → sz < 2 ^ 32 → Scanned t sz i (scan n t sz i)
unfolding scan
scan-Scanned zero t sz i e small = ground arith
scan-Scanned (suc n) t sz i e small =
    ground (arith, at_cr-Scanned t sz i, at_lf-Scanned t sz i, scan-Scanned n t sz (add_u32 i 1))

pub parse_line-Scanned :
    (t : List ℕ) (sz i : ℕ) → i ≤ sz → sz < 2 ^ 32 → Scanned t sz i (parse_line t sz i)
unfolding parse_line
parse_line-Scanned t sz i h small = scan-Scanned (sz - i) t sz i (omega arith) small

-- A byte that ends no line is passed over.
pub parse_line_step :
    (t : List ℕ) (sz i : ℕ)
    → i < sz
    → sz < 2 ^ 32
    → byte_at t i ≢ cr
    → byte_at t i ≢ lf
    → parse_line t sz i ≡ parse_line t sz (i + 1)
unfolding parse_line scan
parse_line_step t sz i h small c l =
    let e : sz - i ≡ suc (sz - (i + 1)) = omega arith in
    let f : add_u32 i 1 ≡ i + 1 = omega arith in
    rw e (ground (arith, ap (scan (sz - (i + 1)) t sz) f))

scan_open : (n : ℕ) (t : List ℕ) (sz i : ℕ) → (scan n t sz i).0 ≡ line_open → (scan n t sz i).1 ≡ t
unfolding scan at_cr at_lf
scan_open zero t sz i o = refl
scan_open (suc n) t sz i o = ground (arith, scan_open n t sz (add_u32 i 1))

-- The line is cut at index `i`: a '\r' that may wait for its '\n' is looked at again.
scan_cut :
    (n : ℕ) (t : List ℕ) (sz i : ℕ)
    → (scan (suc n) t sz i).0 ≡ line_open
    → ((scan (suc n) t sz i).2 ≡ i)
      ⊎ ((byte_at t i ≢ cr)
          × (byte_at t i ≢ lf)
          × (scan (suc n) t sz i ≡ scan n t sz (add_u32 i 1)))
unfolding scan at_cr at_lf
scan_cut n t sz i o = elim (Bool-cases (byte_at t i == cr)) [
  | inl c ↦ inl (ground arith)
  | inr c ↦ elim (Bool-cases (byte_at t i == lf)) [
    | inl l ↦ absurd (ground arith)
    | inr l ↦ inr (ground arith, ground arith, ground arith)
  ]
]

scan_resumes :
    (n : ℕ) (t t2 : List ℕ) (sz sz2 i : ℕ)
    → n + i ≡ sz
    → sz ≤ sz2
    → sz2 < 2 ^ 32
    → ((k : ℕ) → k < sz → byte_at t2 k ≡ byte_at t k)
    → (scan n t sz i).0 ≡ line_open
    → parse_line t2 sz2 (scan n t sz i).2 ≡ parse_line t2 sz2 i
scan_resumes zero t t2 sz sz2 i e le small same o = unfold scan in refl
scan_resumes (suc n) t t2 sz sz2 i e le small same o = elim (scan_cut n t sz i o) [
  | inl stop ↦ ap (parse_line t2 sz2) stop
  | inr (c, l, next) ↦
      let f : add_u32 i 1 ≡ i + 1 = omega arith in
      let agree : byte_at t2 i ≡ byte_at t i = same i (omega arith) in
      ap (λ out. parse_line t2 sz2 out.2) next
      ∙ scan_resumes n t t2 sz sz2 (add_u32 i 1) (omega arith) le small same
          (ap (λ out. out.0) (sym next) ∙ o)
      ∙ ap (parse_line t2 sz2) f
      ∙ sym (
          parse_line_step t2 sz2 i (omega arith) small (λ h. c (sym agree ∙ h))
            (λ h. l (sym agree ∙ h)))
]

-- A line may come in pieces: where `parseLine` finds the bytes so far ended before the line, the
-- text is as it was, and going on from `mCheckIndex` when more bytes are there (fewer than 2^32,
-- the first ones unchanged) gives what reading the line from where the first call began would
-- give.
pub parse_line_resumes :
    (t t2 : List ℕ) (sz sz2 i : ℕ)
    → i ≤ sz
    → sz ≤ sz2
    → sz2 < 2 ^ 32
    → ((k : ℕ) → k < sz → byte_at t2 k ≡ byte_at t k)
    → (parse_line t sz i).0 ≡ line_open
    → ((parse_line t sz i).1 ≡ t) × (parse_line t2 sz2 (parse_line t sz i).2 ≡ parse_line t2 sz2 i)
unfolding parse_line
parse_line_resumes t t2 sz sz2 i h le small same o =
    (scan_open (sz - i) t sz i o, scan_resumes (sz - i) t t2 sz sz2 i (omega arith) le small same o)
