-- ===== src/Timestamp.antt =====
-- base/Timestamp.h and Timestamp.cpp: a time, as its `microSecondsSinceEpoch_`, an unsigned number of
-- 64 bits, and how it is printed.
mod Tests
use knpnl.Prelude.{
  ℕ, ◌+◌, ◌-◌, ◌*◌, ◌/◌, ◌%◌, ◌^◌, Bool, List, ◌∷◌, ◌++◌, length, replicate, ltb, ◌==◌, sub_size,
  if◌then◌else◌, ℤ, pos, negsuc,
}
use knpnl.LogStream.{convert}
use knpnl.Event.TimerQueue.{micro_seconds_per_second}

-- The constructor: an `int64_t` becomes a `uint64_t`.
unfoldable pub new : ℤ → ℕ
new (pos n) = n % 2 ^ 64
new (negsuc n) = 2 ^ 64 - 1 - n % 2 ^ 64

-- `now()`, from what `gettimeofday` gives.
unfoldable pub now : ℕ → ℕ → ℕ
unfolding new
now seconds usec = new (pos (seconds * micro_seconds_per_second + usec))

-- `timeDifference`, before the division by `kMicroSecondsPerSecond`.
unfoldable pub time_difference : ℕ → ℕ → ℕ
time_difference end start = sub_size end start

unfoldable pub equal : ℕ → ℕ → Bool
equal a b = a == b

unfoldable pub less : ℕ → ℕ → Bool
less a b = ltb a b

-- `%0wd` and `%wd` of `printf`, for a number that is not negative.
unfoldable pub padded : ℕ → ℕ → ℕ → List ℕ
unfolding convert
padded pad w n = let s = convert (pos n) in replicate (w - length s) pad ++ s

abbrev zero_padded : ℕ → ℕ → List ℕ
unfolding padded
zero_padded w n = padded 48 w n

-- `toString()`
unfoldable pub to_string : ℕ → List ℕ
unfolding zero_padded
to_string t =
    convert (pos (t / micro_seconds_per_second))
    ++ (46 ∷ zero_padded 6 (t % micro_seconds_per_second))

-- What `gmtime_r` gives, as in `struct tm`.
pub record BrokenDown : Type 0 where
  pub tm_year : ℕ
  pub tm_mon : ℕ
  pub tm_mday : ℕ
  pub tm_hour : ℕ
  pub tm_min : ℕ
  pub tm_sec : ℕ

-- `toFormattedString(showMicroseconds)`
unfoldable pub to_formatted_string : (ℕ → BrokenDown) → Bool → ℕ → List ℕ
unfolding zero_padded
to_formatted_string gmtime show_microseconds t =
    let tm = gmtime (t / micro_seconds_per_second) in
    let text =
      padded 32 4 (tm.tm_year + 1900)
      ++ zero_padded 2 (tm.tm_mon + 1)
      ++ zero_padded 2 tm.tm_mday
      ++ (32 ∷ zero_padded 2 tm.tm_hour)
      ++ (58 ∷ zero_padded 2 tm.tm_min)
      ++ (58 ∷ zero_padded 2 tm.tm_sec) in
    if show_microseconds then text ++ (46 ∷ zero_padded 6 (t % micro_seconds_per_second)) else text
