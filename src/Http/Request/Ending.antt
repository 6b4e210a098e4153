-- ===== src/Http/Request/Ending.antt =====
-- HttpRequest::parseLine on a line that is there whole.
use mathlib.Core.List.{append_assoc}
use knpnl.Prelude.{
  ℕ, suc, ◌+◌, ◌-◌, ◌^◌, ◌≤◌, ◌<◌, ◌≡◌, ◌≢◌, refl, sym, ap, ◌∙◌, false, List, [], ◌∷◌, ◌++◌, length,
  length-append, set, ◌==◌, add_u32, arith,
}
use knpnl.Http.Request.{line_ok, byte_at, parse_line, scan, at_cr}
use knpnl.Http.Request.Line.{parse_line_step}

-- Bytes that neither end a line nor begin its end.
abbrev pub IsClean : List ℕ → Type 0
IsClean [] = Unit {0}
IsClean (c ∷ s) = (c ≢ 13) × (c ≢ 10) × IsClean s

byte_at-prefix : (q : List ℕ) (c : ℕ) (s : List ℕ) → byte_at (q ++ c ∷ s) (length q) ≡ c
byte_at-prefix [] c s = refl
byte_at-prefix (x ∷ q) c s = byte_at-prefix q c s

byte_at-next : (q : List ℕ) (c d : ℕ) (s : List ℕ) → byte_at (q ++ c ∷ d ∷ s) (length q + 1) ≡ d
byte_at-next [] c d s = refl
byte_at-next (x ∷ q) c d s =
    let e : suc (length q) + 1 ≡ suc (length q + 1) = omega arith in rw e (byte_at-next q c d s)

set-ends :
    (q : List ℕ) (c d : ℕ) (s : List ℕ)
    → set (set (q ++ c ∷ d ∷ s) (length q) 0) (length q + 1) 0 ≡ q ++ 0 ∷ 0 ∷ s
set-ends [] c d s = refl
set-ends (x ∷ q) c d s =
    let e : suc (length q) + 1 ≡ suc (length q + 1) = omega arith in
    rw e (ap (◌∷◌ x) (set-ends q c d s))

-- At the end of a line.
at_cr-end :
    (q rest : List ℕ) (sz : ℕ)
    → length q + 2 ≤ sz
    → sz < 2 ^ 32
    → at_cr (q ++ 13 ∷ 10 ∷ rest) sz (length q) ≡ (line_ok, q ++ 0 ∷ 0 ∷ rest, length q + 2)
unfolding at_cr
at_cr-end q rest sz h small =
    let f : add_u32 (length q) 1 ≡ length q + 1 = omega arith in
    let g : add_u32 (length q) 2 ≡ length q + 2 = omega arith in
    let o : (length q + 1 == sz) ≡ false = ground arith in
    rw (f, g, o, byte_at-next q 13 10 rest, set-ends q 13 10 rest) refl

parse_line-cr :
    (q rest : List ℕ) (sz : ℕ)
    → length q + 2 ≤ sz
    → sz < 2 ^ 32
    → parse_line (q ++ 13 ∷ 10 ∷ rest) sz (length q) ≡ (line_ok, q ++ 0 ∷ 0 ∷ rest, length q + 2)
unfolding parse_line scan
parse_line-cr q rest sz h small =
    let e : sz - length q ≡ suc (sz - length q - 1) = omega arith in
    rw (e, byte_at-prefix q 13 (10 ∷ rest)) (at_cr-end q rest sz h small)

-- From the end of `q` on, over the clean bytes `p`.
parse_line-clean :
    (p q rest : List ℕ) (sz : ℕ)
    → IsClean p
    → length q + length p + 2 ≤ sz
    → sz < 2 ^ 32
    → parse_line (q ++ (p ++ 13 ∷ 10 ∷ rest)) sz (length q)
      ≡ (line_ok, q ++ (p ++ 0 ∷ 0 ∷ rest), length q + length p + 2)
parse_line-clean [] q rest sz c h small =
    let e : length q + 0 + 2 ≡ length q + 2 = omega arith in
    rw e (parse_line-cr q rest sz (omega arith) small)
parse_line-clean (x ∷ p) q rest sz (a, b, c) h small =
    let one : length (q ++ (x ∷ [])) ≡ length q + 1 = length-append q (x ∷ []) in
    let n : length (q ++ (x ∷ [])) + length p + 2 ≡ length q + suc (length p) + 2 = omega arith in
    let later = parse_line-clean p (q ++ (x ∷ [])) rest sz c (omega arith) small in
    parse_line_step (q ++ (x ∷ (p ++ 13 ∷ 10 ∷ rest))) sz (length q) (omega arith) small
      (λ e. a (sym (byte_at-prefix q x _) ∙ e)) (λ e. b (sym (byte_at-prefix q x _) ∙ e))
    ∙ (rw
        (
          n,
          one,
          append_assoc q (x ∷ []) (p ++ 13 ∷ 10 ∷ rest),
          append_assoc q (x ∷ []) (p ++ 0 ∷ 0 ∷ rest),
        )
        at later)

-- A line of clean bytes that is there with its end is found, and its end is overwritten.
pub parse_line_whole :
    (p rest : List ℕ) (sz : ℕ)
    → IsClean p
    → length p + 2 ≤ sz
    → sz < 2 ^ 32
    → parse_line (p ++ 13 ∷ 10 ∷ rest) sz 0 ≡ (line_ok, p ++ 0 ∷ 0 ∷ rest, length p + 2)
parse_line_whole p rest sz c h small =
    let e : 0 + length p + 2 ≡ length p + 2 = omega arith in
    rw e at (parse_line-clean p [] rest sz c (omega arith) small)
