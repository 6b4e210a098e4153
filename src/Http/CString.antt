-- ===== src/Http/CString.antt =====
-- The functions of <string.h> and <stdlib.h> that the request parser calls. A string runs up to
-- its first NUL.
use Prim.Native.Nat.{min}
use Prim.Native.Char.{code}
use Prim.Native.String.{String}
use knpnl.Prelude.{
  ℕ, suc, ◌+◌, ◌-◌, ◌*◌, ◌^◌, Bool, true, false, ◌&&◌, ◌||◌, List, [], ◌∷◌, map, Option, none, some,
  take, leb, ◌==◌, if◌then◌else◌, ℤ, pos, negsuc,
}
use mathlib.Core.Option

-- The bytes of a literal.
abbrev pub codes : String → List ℕ
codes String.[] = []
codes (String.◌∷◌ c s) = code c ∷ codes s

unfoldable pub c_str : List ℕ → List ℕ
c_str [] = []
c_str (c ∷ s) = if c == 0 then [] else c ∷ c_str s

abbrev pub is_blank : ℕ → Bool
is_blank c = c == 32 || c == 9

-- `strpbrk(s, " \t") - s`
unfoldable pub find_blank : List ℕ → Option ℕ
find_blank [] = none
find_blank (c ∷ s) =
    if c == 0 then none else if is_blank c then some 0 else Option.map suc (find_blank s)

-- `strspn(s, " \t")`
unfoldable pub span_blank : List ℕ → ℕ
span_blank [] = 0
span_blank (c ∷ s) = if is_blank c then suc (span_blank s) else 0

abbrev pub to_lower : ℕ → ℕ
to_lower c = if leb 65 c && leb c 90 then c + 32 else c

unfoldable pub bytes_eq : List ℕ → List ℕ → Bool
bytes_eq [] [] = true
bytes_eq (x ∷ xs) (y ∷ ys) = x == y && bytes_eq xs ys
bytes_eq _ _ = false

-- `strcasecmp(s, literal) == 0`
unfoldable pub case_eq : List ℕ → List ℕ → Bool
unfolding c_str bytes_eq
case_eq s literal = bytes_eq (map to_lower (c_str s)) (map to_lower literal)

-- `strncasecmp(s, literal, n) == 0`
unfoldable pub case_eq_prefix : List ℕ → List ℕ → ℕ → Bool
unfolding c_str bytes_eq
case_eq_prefix s literal n =
    bytes_eq (map to_lower (take n (c_str s))) (map to_lower (take n literal))

-- `strchr(s, '/')`, the string from the first slash on.
unfoldable pub from_slash : List ℕ → Option (List ℕ)
from_slash [] = none
from_slash (c ∷ s) = if c == 0 then none else if c == 47 then some (c ∷ s) else from_slash s

abbrev pub is_digit : ℕ → Bool
is_digit c = leb 48 c && leb c 57

-- The digits at the start of `s`, read behind `acc`.
unfoldable pub digits_value : ℕ → List ℕ → ℕ
digits_value acc [] = acc
digits_value acc (c ∷ s) =
    let rest = digits_value (acc * 10 + (c - 48)) s in if is_digit c then rest else acc

abbrev pub is_space : ℕ → Bool
is_space c = c == 32 || (leb 9 c && leb c 13)

unfoldable pub skip_space : List ℕ → List ℕ
skip_space [] = []
skip_space (c ∷ s) = if is_space c then skip_space s else c ∷ s

-- -n, no lower than the least `long`.
abbrev pub negated : ℕ → ℤ
negated n = if n == 0 then pos 0 else negsuc (min (n - 1) (2 ^ 63 - 1))

abbrev pub signed_value : List ℕ → ℤ
signed_value [] = pos 0
signed_value (c ∷ s) =
    if c == 45
    then negated (digits_value 0 s)
    else if c == 43
    then pos (min (digits_value 0 s) (2 ^ 63 - 1))
    else pos (min (digits_value 0 (c ∷ s)) (2 ^ 63 - 1))

-- `atol(s)`, which stays within the range of a `long`.
unfoldable pub atol : List ℕ → ℤ
unfolding skip_space digits_value
atol s = signed_value (skip_space s)
