-- ===== src/Http/Response/Files.antt =====
-- What `openFile` leaves in a response.
use knpnl.Prelude.{ℕ, ◌≡◌, ◌≢◌, Option, List, arith}
use knpnl.Http.Response.{
  HttpResponse, Stat, is_file, client_error_bad_request, has_file, open_path, open_file,
}

module _ (stat : List ℕ → Option Stat) (map_file : List ℕ → Option (ℕ → ℕ)) where
  -- Behind `openFile` the status is 400 whatever happened; and where it did not open a file, the
  -- mapping and the content length of an earlier file stay, and `hasFile` answers as before.
  pub open_file_stale :
      (r : HttpResponse) (p : List ℕ)
      → ((open_file stat map_file r p).1.status_code ≡ client_error_bad_request)
        × ((open_file stat map_file r p).0 ≢ is_file
            → ((open_file stat map_file r p).1.content_length ≡ r.content_length)
              × ((open_file stat map_file r p).1.file_system.file ≡ r.file_system.file)
              × (has_file (open_file stat map_file r p).1 ≡ has_file r))
  unfolding open_file open_path
  open_file_stale r p = ground arith
