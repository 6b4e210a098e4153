-- ===== src/Prelude/Memory.antt =====
-- A block of bytes: what `memcpy` writes and what a read of `n` bytes from an index gives.
use Prim.Native.Nat.{ℕ, zero, suc, ◌+◌, ◌-◌, ◌%◌, ◌^◌, ◌≤◌}
use Prim.Native.Nat.add
use mathlib.Core.Path.{◌≡◌, refl, ap}
use mathlib.Core.List.{List, [], ◌∷◌, ◌++◌}
use native.Mathlib.Omega.{arith}
use knpnl.Prelude.Lists.{length, take, drop, length-take, length-drop, drop_nil}

-- `size_t` subtraction wraps.
abbrev pub sub_size : ℕ → ℕ → ℕ
sub_size a b = (a + 2 ^ 64 - b) % 2 ^ 64

-- `unsigned int` addition wraps.
abbrev pub add_u32 : ℕ → ℕ → ℕ
add_u32 a b = (a + b) % 2 ^ 32

module _ {ℓ} {A : Type ℓ} where
  abbrev pub slice : List A → ℕ → ℕ → List A
  slice mem i n = take n (drop i mem)

  -- The bytes `s` written from index `i` on. What would fall behind the block is dropped.
  unfoldable pub write_at : List A → ℕ → List A → List A
  write_at [] i s = []
  write_at (m ∷ ms) (suc i) s = m ∷ write_at ms i s
  write_at (m ∷ ms) zero [] = m ∷ ms
  write_at (m ∷ ms) zero (x ∷ s) = x ∷ write_at ms zero s

  pub length-write_at : (mem : List A) (i : ℕ) (s : List A) → length (write_at mem i s) ≡ length mem
  unfolding write_at
  length-write_at [] i s = refl
  length-write_at (m ∷ ms) (suc i) s = ap suc (length-write_at ms i s)
  length-write_at (m ∷ ms) zero [] = refl
  length-write_at (m ∷ ms) zero (x ∷ s) = ap suc (length-write_at ms zero s)

  pub length-slice : (mem : List A) (i n : ℕ) → i + n ≤ length mem → length (slice mem i n) ≡ n
  length-slice mem i n h = omega (arith, length-take n (drop i mem), length-drop i mem)

  take-write_at-zero :
      (mem s : List A) → length s ≤ length mem → take (length s) (write_at mem zero s) ≡ s
  unfolding write_at
  take-write_at-zero [] [] h = refl
  take-write_at-zero [] (x ∷ s) h = absurd (omega arith)
  take-write_at-zero (m ∷ ms) [] h = refl
  take-write_at-zero (m ∷ ms) (x ∷ s) h = ap (◌∷◌ x) (take-write_at-zero ms s (omega arith))

  drop-write_at :
      (mem : List A) (i n : ℕ) (s : List A)
      → drop i (write_at mem (i + n) s) ≡ write_at (drop i mem) n s
  unfolding write_at
  drop-write_at [] i n s = rw (drop_nil i) refl
  drop-write_at (m ∷ ms) zero n s = rw add.zero refl
  drop-write_at (m ∷ ms) (suc i) n s = rw add.suc (drop-write_at ms i n s)

  take-write_at :
      (mem : List A) (n : ℕ) (s : List A)
      → n + length s ≤ length mem
      → take (n + length s) (write_at mem n s) ≡ take n mem ++ s
  unfolding write_at
  take-write_at mem zero s h = rw add.zero (take-write_at-zero mem s (omega arith))
  take-write_at [] (suc n) s h = absurd (omega arith)
  take-write_at (m ∷ ms) (suc n) s h = rw add.suc (ap (◌∷◌ m) (take-write_at ms n s (omega arith)))

  -- Bytes written just behind a slice extend it.
  pub slice-write_at :
      (mem : List A) (i n : ℕ) (s : List A)
      → i + n + length s ≤ length mem
      → slice (write_at mem (i + n) s) i (n + length s) ≡ slice mem i n ++ s
  slice-write_at mem i n s h =
      rw (drop-write_at mem i n s)
        (take-write_at (drop i mem) n s (omega (arith, length-drop i mem)))

  -- Bytes written at the start of the block are read back there.
  pub slice-write_at_zero :
      (mem s : List A) → length s ≤ length mem → slice (write_at mem 0 s) 0 (length s) ≡ s
  slice-write_at_zero mem s h = take-write_at-zero mem s h

  -- The two lemmas, with the index and the lengths up to an equation.
  pub slice_grown :
      (mem : List A) (i n p k : ℕ) (s : List A)
      → p ≡ i + n
      → k ≡ n + length s
      → p + length s ≤ length mem
      → slice (write_at mem p s) i k ≡ slice mem i n ++ s
  slice_grown mem i n p k s e f h = rw (e, f) (slice-write_at mem i n s (omega arith))

  pub slice_moved :
      (mem s : List A) (k : ℕ)
      → k ≡ length s
      → length s ≤ length mem
      → slice (write_at mem 0 s) 0 k ≡ s
  slice_moved mem s k e h = rw e (slice-write_at_zero mem s h)
