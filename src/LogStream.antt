-- ===== src/LogStream.antt =====
-- base/LogStream.h and LogStream.cpp: numbers and texts written into the buffer of a log line.
pub mod RoundTrip
use mathlib.Core.List.{reverse}
use knpnl.Prelude.{
  ℕ, zero, suc, ◌+◌, ◌-◌, ◌*◌, ◌/◌, ◌%◌, ◌^◌, Bool, true, false, List, [], ◌∷◌, ◌++◌, ltb, leb,
  ◌==◌, if◌then◌else◌, ℤ, pos, negsuc, length, take, get_or, write_at, Option, none, some,
}
use knpnl.Buffer.{FixedBuffer, append, avail, add}
use knpnl.Http.CString.{codes}

-- `kMaxNumericSize`
abbrev pub max_numeric_size : ℕ
max_numeric_size = 32

-- `digits`; `zero` is nine bytes further on.
abbrev digits : List ℕ
digits = codes "9876543210123456789"

-- `zero[lsd]` for the remainder of a number that is not negative.
abbrev pub digit_char : ℕ → ℕ
digit_char lsd = get_or digits (9 + lsd) 0

-- The `do` loop of `convert` for a value that is not negative: the digits, the last one first.
-- A round divides by ten, so there are at most `value + 1`.
convert_loop : ℕ → ℕ → List ℕ
convert_loop zero i = []
convert_loop (suc fuel) i =
    let rest = convert_loop fuel (i / 10) in
    digit_char (i % 10) ∷ (if i / 10 == 0 then [] else rest)

abbrev magnitude : ℤ → ℕ
magnitude (pos n) = n
magnitude (negsuc n) = suc n

abbrev is_negative : ℤ → Bool
is_negative (pos n) = false
is_negative (negsuc n) = true

-- `convert`: the bytes that it writes. C++ division rounds to zero, so the remainders of a
-- negative number are those of its magnitude, negated, and `zero[-d]` is the digit `d` too.
unfoldable pub convert : ℤ → List ℕ
unfolding convert_loop
convert v =
    reverse
      (convert_loop (suc (magnitude v)) (magnitude v) ++ (if is_negative v then 45 ∷ [] else []))

digits_hex : List ℕ
digits_hex = codes "0123456789ABCDEF"

hex_loop : ℕ → ℕ → List ℕ
unfolding digits_hex
hex_loop zero i = []
hex_loop (suc fuel) i =
    let rest = hex_loop fuel (i / 16) in
    get_or digits_hex (i % 16) 0 ∷ (if i / 16 == 0 then [] else rest)

-- `convertHex`
unfoldable pub convert_hex : ℕ → List ℕ
unfolding hex_loop
convert_hex v = reverse (hex_loop (suc v) v)

-- `s` and its final NUL written behind the write pointer; only `s` is counted as used.
put_terminated : FixedBuffer → List ℕ → FixedBuffer
put_terminated b s = record b {
  mem = write_at b.mem b.write_ptr (s ++ 0 ∷ []);
  write_ptr = b.write_ptr + length s;
}

-- `formatInteger`: the digits go straight behind the write pointer, whatever room is there, when
-- 32 bytes are free in all.
pub format_integer : FixedBuffer → ℤ → FixedBuffer
format_integer b v = if leb max_numeric_size (avail b) then put_terminated b (convert v) else b

-- `operator<<(const void*)`
pub write_pointer : FixedBuffer → ℕ → FixedBuffer
write_pointer b p =
    if leb max_numeric_size (avail b) then put_terminated b (codes "0x" ++ convert_hex p) else b

-- `operator<<(double)`, and that for `float`, from what `%.12g` prints: `snprintf` writes at most 31
-- bytes and a NUL, and its result is the length of all that it would have printed.
pub write_double : FixedBuffer → List ℕ → FixedBuffer
write_double b text =
    if leb max_numeric_size (avail b)
    then (add
        (record b { mem = write_at b.mem b.write_ptr (take (max_numeric_size - 1) text ++ 0 ∷ []) })
        (length text)).0
    else b

-- `operator<<(bool)`, `operator<<(char)`, `operator<<(const char*)` (`none` is the null pointer)
-- and `operator<<(const string&)`.
pub write_bool : FixedBuffer → Bool → FixedBuffer
write_bool b v = (append b (if v then codes "1" else codes "0")).0

pub write_char : FixedBuffer → ℕ → FixedBuffer
write_char b c = (append b (c ∷ [])).0

pub write_c_string : FixedBuffer → Option (List ℕ) → FixedBuffer
write_c_string b none = (append b (codes "(null)")).0
write_c_string b (some s) = (append b s).0

pub write_string : FixedBuffer → List ℕ → FixedBuffer
write_string b s = (append b s).0

-- The destructor: the line is ended and handed to the output.
pub flush : FixedBuffer → FixedBuffer
flush b = (append b (10 ∷ [])).0
