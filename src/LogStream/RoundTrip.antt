-- ===== src/LogStream/RoundTrip.antt =====
-- Decimal numbers: what `convert` writes, `atol` reads back.
use mathlib.Core.List.{reverse, reverse-cons, reverse-append, append-nil, append_assoc}
use Prim.Native.Nat.{min}
use knpnl.Prelude.{
  ℕ, zero, suc, ◌+◌, ◌-◌, ◌*◌, ◌/◌, ◌%◌, ◌^◌, ◌<◌, ◌≡◌, refl, sym, ap, ◌∙◌, true, List, [], ◌∷◌,
  ◌++◌, ◌==◌, if◌then◌else◌, ℤ, pos, negsuc, Bool-cases, inl, inr, arith,
}
use knpnl.Http.CString.{is_digit, digits_value, span_blank, atol, negated}
use knpnl.LogStream.{digit_char, convert_loop, convert}

digit_char-eq : (d : ℕ) → d < 10 → digit_char d ≡ 48 + d
digit_char-eq zero h = refl
digit_char-eq (suc zero) h = refl
digit_char-eq (suc (suc zero)) h = refl
digit_char-eq (suc (suc (suc zero))) h = refl
digit_char-eq (suc (suc (suc (suc zero)))) h = refl
digit_char-eq (suc (suc (suc (suc (suc zero))))) h = refl
digit_char-eq (suc (suc (suc (suc (suc (suc zero)))))) h = refl
digit_char-eq (suc (suc (suc (suc (suc (suc (suc zero))))))) h = refl
digit_char-eq (suc (suc (suc (suc (suc (suc (suc (suc zero)))))))) h = refl
digit_char-eq (suc (suc (suc (suc (suc (suc (suc (suc (suc zero))))))))) h = refl
digit_char-eq (suc (suc (suc (suc (suc (suc (suc (suc (suc (suc d)))))))))) h = absurd (omega arith)

reverse-cons-append : (d : ℕ) (xs s : List ℕ) → reverse (d ∷ xs) ++ s ≡ reverse xs ++ (d ∷ s)
reverse-cons-append d xs s = rw reverse-cons (append_assoc (reverse xs) (d ∷ []) s)

digits_value-cons :
    (acc d : ℕ) (s : List ℕ)
    → d < 10
    → digits_value acc (digit_char d ∷ s) ≡ digits_value (acc * 10 + d) s
unfolding digits_value
digits_value-cons acc d s h =
    let e : 48 + d - 48 ≡ d = omega arith in
    rw (digit_char-eq d h) (ground (arith, ap (λ k. digits_value (acc * 10 + k) s) e))

-- The loop, read from the end.
convert_loop-step :
    (f i : ℕ) (s : List ℕ)
    → reverse (convert_loop (suc f) i) ++ s ≡ (
        if i / 10 == 0
        then digit_char (i % 10) ∷ s
        else reverse (convert_loop f (i / 10)) ++ (digit_char (i % 10) ∷ s))
unfolding convert_loop
convert_loop-step f i s = elim (Bool-cases (i / 10 == 0)) [
  | inl e ↦ rw e refl
  | inr e ↦ rw e (reverse-cons-append (digit_char (i % 10)) (convert_loop f (i / 10)) s)
]

digits_value-convert_loop :
    (f i : ℕ) (s : List ℕ)
    → i < f
    → digits_value 0 (reverse (convert_loop f i) ++ s) ≡ digits_value i s
digits_value-convert_loop zero i s h = absurd (omega arith)
digits_value-convert_loop (suc f) i s h = elim (Bool-cases (i / 10 == 0)) [
  | inl e ↦
      rw (convert_loop-step f i s, e)
        (digits_value-cons 0 (i % 10) s (omega arith) ∙ ap (λ k. digits_value k s) (ground arith))
  | inr e ↦
      rw (convert_loop-step f i s, e)
        (digits_value-convert_loop f (i / 10) (digit_char (i % 10) ∷ s) (ground arith)
          ∙ digits_value-cons (i / 10) (i % 10) s (omega arith)
          ∙ ap (λ k. digits_value k s) (omega arith))
]

is_digit-char : (d : ℕ) → d < 10 → is_digit (digit_char d) ≡ true
is_digit-char d h = rw (digit_char-eq d h) (ground arith)

convert_loop-last : (i : ℕ) (s : List ℕ) → reverse (convert_loop 1 i) ++ s ≡ digit_char (i % 10) ∷ s
unfolding convert_loop
convert_loop-last i s = ground arith

-- The bytes begin with a digit.
convert_loop-head :
    (f i : ℕ) (s : List ℕ)
    → (c : ℕ) × (xs : List ℕ) × (is_digit c ≡ true)
      × (reverse (convert_loop (suc f) i) ++ s ≡ c ∷ xs)
convert_loop-head zero i s =
    (digit_char (i % 10), s, is_digit-char (i % 10) (omega arith), convert_loop-last i s)
convert_loop-head (suc f) i s = elim (Bool-cases (i / 10 == 0)) [
  | inl e ↦ (
    digit_char (i % 10),
    s,
    is_digit-char (i % 10) (omega arith),
    rw (convert_loop-step (suc f) i s, e) refl,
  )
  | inr e ↦
      let (c, xs, d, q) = convert_loop-head f (i / 10) (digit_char (i % 10) ∷ s) in
      (c, xs, d, rw (convert_loop-step (suc f) i s, e) q)
]

atol-digits :
    (c : ℕ) (xs : List ℕ)
    → is_digit c ≡ true
    → atol (c ∷ xs) ≡ pos (min (digits_value 0 (c ∷ xs)) (2 ^ 63 - 1))
unfolding atol
atol-digits c xs d = ground arith

atol-minus : (xs : List ℕ) → atol (45 ∷ xs) ≡ negated (digits_value 0 xs)
unfolding atol
atol-minus xs = refl

digits_value-stop : (n : ℕ) (rest : List ℕ) → digits_value n (0 ∷ rest) ≡ n
unfolding digits_value
digits_value-stop n rest = refl

negated-suc : (n : ℕ) → n < 2 ^ 63 → negated (suc n) ≡ negsuc n
negated-suc n h = ground arith

span_blank-digit : (c : ℕ) (xs : List ℕ) → is_digit c ≡ true → span_blank (c ∷ xs) ≡ 0
unfolding span_blank
span_blank-digit c xs d = ground arith

-- The values of a `long`.
abbrev pub InLong : ℤ → Type 0
InLong (pos n) = n < 2 ^ 63
InLong (negsuc n) = n < 2 ^ 63

-- Each `long` that `convert` has written is what `atol` reads, up to the NUL behind it.
pub atol-convert : (v : ℤ) (rest : List ℕ) → InLong v → atol (convert v ++ 0 ∷ rest) ≡ v
unfolding convert
atol-convert (pos n) rest h =
    let (c, xs, d, q) = convert_loop-head n n (0 ∷ rest) in
    let value =
      digits_value-convert_loop (suc n) n (0 ∷ rest) (omega arith) ∙ digits_value-stop n rest in
    rw (append-nil, q)
      (atol-digits c xs d ∙ ap pos (omega (arith, ap (digits_value 0) (sym q), value)))
atol-convert (negsuc n) rest h =
    let value =
      digits_value-convert_loop (suc (suc n)) (suc n) (0 ∷ rest) (omega arith)
      ∙ digits_value-stop (suc n) rest in
    rw reverse-append (atol-minus _ ∙ ap negated value ∙ negated-suc n h)

-- No blank stands before the number.
pub span_blank-convert : (v : ℤ) (rest : List ℕ) → span_blank (convert v ++ 0 ∷ rest) ≡ 0
unfolding convert
span_blank-convert (pos n) rest =
    let (c, xs, d, q) = convert_loop-head n n (0 ∷ rest) in
    rw (append-nil, q) (span_blank-digit c xs d)
span_blank-convert (negsuc n) rest = rw reverse-append (unfold span_blank in refl)
