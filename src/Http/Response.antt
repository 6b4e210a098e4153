-- ===== src/Http/Response.antt =====
-- net/http/HttpResponse.h and HttpResponse.cpp, with base/FileSystem.h and FileSystem.cpp: the
-- answer to a request, its text, and the file that follows it. What the file system says, and what
-- `%d` prints, are parameters.
pub mod Text
pub mod Files
pub mod Headers
use knpnl.Prelude.{
  ℕ, zero, suc, Bool, true, false, not, Option, none, some, List, [], ◌∷◌, ◌++◌, take,
  if◌then◌else◌, ℤ, pos,
}
use knpnl.Buffer.{FixedBuffer, append}
use knpnl.Http.CString.{codes, c_str}
use knpnl.Net.Connection.{to_int}

-- `STATUS_CODE`
pub data StatusCode : Type 0 where
  success_ok client_error_bad_request client_error_forbidden client_error_not_found
        server_error_internal_err :
      StatusCode

-- The number of a status code, and `kStatusMessage`.
abbrev pub number : StatusCode → ℕ
number success_ok = 200
number client_error_bad_request = 400
number client_error_forbidden = 403
number client_error_not_found = 404
number server_error_internal_err = 500

abbrev pub status_message : StatusCode → List ℕ
status_message success_ok = codes "OK"
status_message client_error_bad_request =
    codes "Your request has bad syntax or is inherently impossible to staisfy."
status_message client_error_forbidden =
    codes "You do not have permission to get file form this server."
status_message client_error_not_found = codes "The requested file was not found on this server."
status_message server_error_internal_err =
    codes "There was an unusual problem serving the request file."

-- `FILE_STATE`
pub data FileState : Type 0 where
  is_file is_dir no_file cannot_access : FileState

-- What `stat` says of a path.
pub record Stat : Type 0 where
  pub others_read : Bool
  pub directory : Bool
  pub size : ℕ

-- `file` is `mFile`, `none` for a null pointer: the bytes in memory from the address of its mapping
-- on, by their offsets. Behind the end of the mapping they are whatever is there. `file_length` is
-- `mFileLength`, which need not be the length of that mapping.
pub record FileSystem : Type 0 where
  pub path : List ℕ
  pub file_length : ℕ
  pub file : Option (ℕ → ℕ)

-- That many bytes from an address on.
unfoldable pub bytes_from : (ℕ → ℕ) → ℕ → List ℕ
bytes_from addr zero = []
bytes_from addr (suc len) = addr 0 ∷ bytes_from (λ i. addr (suc i)) len

-- The headers are in the order of the map. `file_system` is `mFile`.
pub record HttpResponse : Type 0 where
  pub headers : List (List ℕ × List ℕ)
  pub is_alive : Bool
  pub content_length : ℤ
  pub body : List ℕ
  pub status_code : StatusCode
  pub file_system : FileSystem

-- The constructors; the one without an argument takes `client_error_not_found`.
unfoldable pub new : StatusCode → HttpResponse
new status = record {
  headers = [];
  is_alive = true;
  content_length = pos 0;
  body = [];
  status_code = status;
  file_system = record { path = []; file_length = 0; file = none };
}

-- `hasFile()`
abbrev pub has_file : HttpResponse → Bool
has_file r = elim r.file_system.file [ none ↦ false | some f ↦ true ]

-- What `stat` says of a path, if it succeeds, and what is in memory from the address on that `open`
-- and `mmap` give for it.
module _ (stat : List ℕ → Option Stat) (map_file : List ℕ → Option (ℕ → ℕ)) where
  -- `FileSystem::Open(path)`
  unfoldable pub open_path : FileSystem → List ℕ → FileState × FileSystem
  open_path fs p =
      let named = record fs { path = p } in
      elim (stat p) [
        | none ↦ (no_file, named)
        | some st ↦
            let sized = record named { file_length = st.size } in
            if not st.others_read
            then (cannot_access, named)
            else if st.directory
            then (is_dir, named)
            else (elim (map_file p) [
              | none ↦ (cannot_access, sized)
              | some f ↦ (is_file, record sized { file = some f })
            ])
      ]

  -- The tests of `openFile` behind the call of `Open`.
  abbrev noted : FileState → HttpResponse → HttpResponse
  noted is_file r = record r { content_length = to_int (pos r.file_system.file_length) }
  noted cannot_access r = record r { status_code = client_error_forbidden }
  noted no_file r = record r { status_code = client_error_not_found }
  noted is_dir r = r

  -- `openFile(path)`: the assignment at its end is made in every case.
  unfoldable pub open_file : HttpResponse → List ℕ → FileState × HttpResponse
  unfolding open_path
  open_file r p =
      let (ret, fs) = open_path r.file_system p in
      let r' = noted ret (record r { file_system = fs }) in
      (ret, record r' { status_code = client_error_bad_request })

-- `char buf[128]`, filled by `snprintf` and read up to its NUL.
abbrev pub line : List ℕ → List ℕ
line s = take 127 (c_str s)

abbrev pub crlf : List ℕ
crlf = 13 ∷ 10 ∷ []

abbrev pub header_lines : List (List ℕ × List ℕ) → List (List ℕ)
header_lines [] = []
header_lines ((key, val) ∷ hs) = line (c_str key ++ (58 ∷ c_str val) ++ crlf) ∷ header_lines hs

abbrev pub body_lines : List ℕ → List (List ℕ)
body_lines [] = []
body_lines (x ∷ b) = (x ∷ b) ∷ []

-- The decimal digits of an `int`.
module _ (decimal : ℤ → List ℕ) where
  -- The strings that `appendToBuffer` appends, one call after the other.
  unfoldable pub pieces : HttpResponse → List (List ℕ)
  pieces r =
      line (
        codes "HTTP/1.1 "
        ++ decimal (pos (number r.status_code))
        ++ (32 ∷ status_message r.status_code)
        ++ crlf)
      ∷ (if r.is_alive
          then codes "Connection:keep-isAlive" ++ crlf
          else codes "Connection:closed" ++ crlf)
      ∷ line (codes "Content-Length:" ++ decimal r.content_length ++ crlf)
      ∷ (header_lines r.headers ++ (crlf ∷ body_lines r.body))

  -- Calls of `append`, whose results are not looked at.
  unfoldable pub append_each : FixedBuffer → List (List ℕ) → FixedBuffer
  unfolding append
  append_each b [] = b
  append_each b (s ∷ ss) = append_each (append b s).0 ss

  -- `appendToBuffer(Buffer)`
  unfoldable pub append_to_buffer : HttpResponse → FixedBuffer → FixedBuffer
  unfolding pieces append_each
  append_to_buffer r b = append_each b (pieces r)
