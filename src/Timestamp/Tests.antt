-- ===== src/Timestamp/Tests.antt =====
-- Times that are printed.
use knpnl.Prelude.{ℕ, ◌≡◌, refl, true}
use knpnl.Http.CString.{codes}
use knpnl.Timestamp.{BrokenDown, to_string, to_formatted_string, now}

to_string_now : to_string (now 1652 7) ≡ codes "1652.000007"
unfolding to_string now
to_string_now = refl

-- The 9th of May 2022.
abbrev day : ℕ → BrokenDown
day seconds = record {
  tm_year = 122;
  tm_mon = 4;
  tm_mday = 9;
  tm_hour = 8;
  tm_min = 35;
  tm_sec = 1;
}

to_formatted_string-day : to_formatted_string day true 500021 ≡ codes "20220509 08:35:01.500021"
unfolding to_formatted_string
to_formatted_string-day = refl
