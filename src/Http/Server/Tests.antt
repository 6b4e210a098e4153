-- ===== src/Http/Server/Tests.antt =====
-- The theorems about responses and the server's callback at concrete inputs.
use knpnl.Prelude.{ℕ, zero, suc, ◌≡◌, ◌≢◌, Option, none, some, List, [], ◌∷◌, true, arith, pos, ℤ}
use knpnl.Buffer.{FixedBuffer, used, avail}
use knpnl.Buffer.Contents.{IsValid, Took}
use knpnl.Http.CString.{codes, c_str}
use knpnl.Http.Response.{
  HttpResponse, client_error_not_found, client_error_bad_request, is_file, Stat, open_file,
  has_file, append_to_buffer,
}
use knpnl.Http.Response.Text.{response_text, header_text, append_to_buffer-Took}
use knpnl.Http.Response.Files.{open_file_stale}

abbrev zeros : ℕ → List ℕ
zeros zero = []
zeros (suc n) = 0 ∷ zeros n

abbrev write_buffer : FixedBuffer
write_buffer = record { mem = 71 ∷ zeros 160; read_ptr = 0; write_ptr = 1 }

write_buffer-IsValid : IsValid write_buffer
write_buffer-IsValid = omega arith

-- What is in memory where an earlier file is mapped.
abbrev old_file : ℕ → ℕ
old_file zero = 1
old_file (suc i) = 2

abbrev not_found : HttpResponse
not_found = record {
  headers = (codes "A", codes "b") ∷ [];
  is_alive = true;
  content_length = pos 2;
  body = codes "no";
  status_code = client_error_not_found;
  file_system = record { path = []; file_length = 3; file = some old_file };
}

-- The numbers that occur in the example.
abbrev decimal : ℤ → List ℕ
decimal n = codes "2"

append_to_buffer-Took_example :
    Took write_buffer
      (response_text decimal not_found)
      (append_to_buffer decimal not_found write_buffer)
unfolding response_text header_text avail used c_str
append_to_buffer-Took_example =
    append_to_buffer-Took decimal not_found write_buffer write_buffer-IsValid (omega arith)

abbrev no_stat : List ℕ → Option Stat
no_stat p = none

abbrev no_map : List ℕ → Option (ℕ → ℕ)
no_map p = none

open_file_stale_example :
    ((open_file no_stat no_map not_found (codes "/x")).1.status_code ≡ client_error_bad_request)
    × ((open_file no_stat no_map not_found (codes "/x")).0 ≢ is_file
        → ((open_file no_stat no_map not_found (codes "/x")).1.content_length ≡ pos 2)
          × ((open_file no_stat no_map not_found (codes "/x")).1.file_system.file ≡ some old_file)
          × (has_file (open_file no_stat no_map not_found (codes "/x")).1 ≡ true))
open_file_stale_example = open_file_stale no_stat no_map not_found (codes "/x")
