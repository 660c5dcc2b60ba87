-- ===== src/AtCommand.antt =====
-- `AtCommand` (include/modem/at_command.h, src/at_command.cpp): what the modem answers is cut into
-- lines at "\r\n"; the status words set the status, every other line goes to the body.
pub mod Frames
pub mod Answers
use x_e310_multi_os.Base.{
  ℕ, zero, suc, Bool, false, ◌&&◌, ◌||◌, List, [], ◌∷◌, drop, length, is_empty, ◌==◌, if◌then◌else◌,
  bytes_eq, codes, has_prefix,
}
use x_e310_multi_os.FixedString.{of_view, append}

pub data AtStatus : Type 0 where
  ok error timeout busy : AtStatus

abbrev pub at_cmd_max : ℕ
at_cmd_max = 256

abbrev pub at_response_max : ℕ
at_response_max = 2048

pub record AtResponse : Type 0 where
  pub status : AtStatus
  pub body : List ℕ

abbrev pub new_response : AtResponse
new_response = record { status = AtStatus.error; body = [] }

pub record AtCommand : Type 0 where
  pub command : List ℕ
  pub timeout_ms : ℕ

unfoldable pub new_command : List ℕ → ℕ → AtCommand
unfolding of_view
new_command command ms = record { command = of_view at_cmd_max command; timeout_ms = ms }

abbrev pub crlf : List ℕ
crlf = 13 ∷ 10 ∷ []

abbrev pub starts_crlf : List ℕ → Bool
starts_crlf (c ∷ d ∷ s) = c == 13 && d == 10
starts_crlf _ = false

-- `raw.find("\r\n", start)` splits what is left: the line before it, and what follows it, if any.
unfoldable pub line_of : List ℕ → List ℕ
line_of [] = []
line_of (c ∷ s) = let rest = line_of s in if starts_crlf (c ∷ s) then [] else c ∷ rest

unfoldable pub after_line : List ℕ → List ℕ
after_line [] = []
after_line (c ∷ s) = let rest = after_line s in if starts_crlf (c ∷ s) then drop 1 s else rest

unfoldable pub is_error_line : List ℕ → Bool
unfolding bytes_eq has_prefix
is_error_line line =
    bytes_eq line (codes "ERROR")
    || has_prefix (codes "+CME ERROR:") line
    || has_prefix (codes "+CMS ERROR:") line

abbrev pub add_line : List ℕ → List ℕ → List ℕ
add_line body line =
    append at_response_max (if is_empty body then body else append at_response_max body crlf) line

-- The body of the loop over the lines.
unfoldable pub take_line : List ℕ → AtResponse → AtResponse
unfolding is_error_line bytes_eq append
take_line line r =
    if is_empty line
    then r
    else if bytes_eq line (codes "OK")
    then record r { status = AtStatus.ok }
    else if is_error_line line
    then record r { status = AtStatus.error }
    else if bytes_eq line (codes "BUSY")
    then record r { status = AtStatus.busy }
    else record r { body = add_line r.body line }

-- A pass takes a byte at least, so that the number of bytes is fuel enough.
unfoldable pub take_lines : ℕ → List ℕ → AtResponse → AtResponse
unfolding line_of after_line take_line
take_lines zero raw r = r
take_lines (suc fuel) [] r = r
take_lines (suc fuel) (c ∷ s) r =
    take_lines fuel (after_line (c ∷ s)) (take_line (line_of (c ∷ s)) r)

unfoldable pub parse_response : List ℕ → AtResponse
unfolding take_lines
parse_response [] = record new_response { status = AtStatus.timeout }
parse_response (c ∷ s) = take_lines (length (c ∷ s)) (c ∷ s) new_response
