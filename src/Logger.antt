-- ===== src/Logger.antt =====
-- base/Logger.h and Logger.cpp: the level of the log, and the head of a log line.
mod FileName
use knpnl.Prelude.{
  ℕ, Bool, true, false, Option, none, some, List, [], ◌∷◌, if◌then◌else◌, ◌==◌, leb, ℤ, pos,
}
use knpnl.Buffer.{FixedBuffer}
use knpnl.Http.CString.{codes}
use knpnl.LogStream.{write_c_string, format_integer}

pub data LogLevel : Type 0 where
  trace debug info warn error : LogLevel

-- The number of a level.
abbrev number : LogLevel → ℕ
number trace = 0
number debug = 1
number info = 2
number warn = 3
number error = 4

-- `LogLevelName`
abbrev log_level_name : LogLevel → List ℕ
log_level_name trace = codes "TRACE"
log_level_name debug = codes "DEBUG"
log_level_name info = codes "INFO"
log_level_name warn = codes "WARN"
log_level_name error = codes "ERROR"

-- `initLogLevel()`, from whether the two variables are set.
unfoldable pub init_log_level : Bool → Bool → LogLevel
init_log_level set_trace set_debug = if set_trace then trace else if set_debug then debug else info

-- Whether the macro of a level writes a line. Those from `LOG_INFO` on ask nothing.
unfoldable pub is_logged : LogLevel → LogLevel → Bool
is_logged current trace = leb (number current) (number trace)
is_logged current debug = leb (number current) (number debug)
is_logged current info = true
is_logged current warn = true
is_logged current error = true

-- `strrchr(s, '/')`: the text from the last '/' on.
unfoldable pub from_last_slash : List ℕ → Option (List ℕ)
from_last_slash [] = none
from_last_slash (c ∷ s) = elim (from_last_slash s) [
  | some t ↦ some t
  | none ↦ if c == 47 then some (c ∷ s) else none
]

-- `FileName::get()`
unfoldable pub get : List ℕ → Option (List ℕ)
get name = elim (from_last_slash name) [ some [] ↦ none | some (c ∷ t) ↦ some t | none ↦ none ]

-- The constructor, with the texts of the time and of the thread.
pub begin_line : List ℕ → List ℕ → FixedBuffer → List ℕ → ℕ → LogLevel → List ℕ → FixedBuffer
begin_line time thread b file line level func =
    let text = λ (b : FixedBuffer) (s : List ℕ). write_c_string b (some s) in
    let b = text (text b time) (codes " ") in
    let b = text b thread in
    let b = text (text b (codes " [")) (log_level_name level) in
    let b = write_c_string (text b (codes "] ")) (get file) in
    let b = text (format_integer (text b (codes " line:")) (pos line)) (codes " ") in
    text (text (text b (codes " func:")) func) (codes " ")
