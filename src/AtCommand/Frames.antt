-- ===== src/AtCommand/Frames.antt =====
-- `parse_response` of src/at_command.cpp on what a modem sends: lines, each with its "\r\n".
use x_e310_multi_os.Base.{
  ℕ, zero, suc, ◌≤◌, ◌≡◌, refl, ap₂, ◌∙◌, Bool, true, false, ◌&&◌, not, List, [], ◌∷◌, ◌++◌, length,
  length-append, is_empty, ◌==◌, arith,
}
use x_e310_multi_os.AtCommand.{
  AtResponse, new_response, line_of, after_line, take_line, take_lines, parse_response,
}

-- A line as it stands between terminators: it has no carriage return.
abbrev pub no_cr : List ℕ → Bool
no_cr [] = true
no_cr (c ∷ s) = not (c == 13) && no_cr s

abbrev pub all_no_cr : List (List ℕ) → Bool
all_no_cr [] = true
all_no_cr (line ∷ lines) = no_cr line && all_no_cr lines

-- What goes over the wire for some lines.
abbrev pub frame : List (List ℕ) → List ℕ
frame [] = []
frame (line ∷ lines) = line ++ (13 ∷ 10 ∷ frame lines)

-- The lines, one after another.
abbrev pub take_all : List (List ℕ) → AtResponse → AtResponse
take_all [] r = r
take_all (line ∷ lines) r = take_all lines (take_line line r)

pub line_of-append :
    (line rest : List ℕ) → no_cr line ≡ true → line_of (line ++ (13 ∷ 10 ∷ rest)) ≡ line
unfolding line_of
line_of-append [] rest h = refl
line_of-append (c ∷ []) rest h = ground arith
line_of-append (c ∷ d ∷ s) rest h = ground (arith, line_of-append (d ∷ s) rest)

pub after_line-append :
    (line rest : List ℕ) → no_cr line ≡ true → after_line (line ++ (13 ∷ 10 ∷ rest)) ≡ rest
unfolding after_line
after_line-append [] rest h = refl
after_line-append (c ∷ []) rest h = ground arith
after_line-append (c ∷ d ∷ s) rest h = ground (arith, after_line-append (d ∷ s) rest)

-- A pass over an input that starts with a line.
take_lines-line :
    (fuel : ℕ) (line rest : List ℕ) (r : AtResponse)
    → no_cr line ≡ true
    → take_lines (suc fuel) (line ++ (13 ∷ 10 ∷ rest)) r ≡ take_lines fuel rest (take_line line r)
unfolding take_lines
take_lines-line fuel [] rest r h = refl
take_lines-line fuel (c ∷ s) rest r h =
    ap₂ (λ raw line. take_lines fuel raw (take_line line r)) (after_line-append (c ∷ s) rest h)
      (line_of-append (c ∷ s) rest h)

-- Any fuel as large as the input does.
take_lines-frame :
    (fuel : ℕ) (lines : List (List ℕ)) (r : AtResponse)
    → all_no_cr lines ≡ true
    → length (frame lines) ≤ fuel
    → take_lines fuel (frame lines) r ≡ take_all lines r
unfolding take_lines
take_lines-frame zero [] r h le = refl
take_lines-frame (suc fuel) [] r h le = refl
take_lines-frame zero (line ∷ lines) r h le =
    absurd (omega (arith, length-append line (13 ∷ 10 ∷ frame lines)))
take_lines-frame (suc fuel) (line ∷ lines) r h le =
    take_lines-line fuel line (frame lines) r (ground arith)
    ∙ take_lines-frame fuel lines (take_line line r) (ground arith)
        (omega (arith, length-append line (13 ∷ 10 ∷ frame lines)))

frame-nonempty : (line : List ℕ) (lines : List (List ℕ)) → is_empty (frame (line ∷ lines)) ≡ false
frame-nonempty [] lines = refl
frame-nonempty (c ∷ s) lines = refl

parse_response-nonempty :
    (raw : List ℕ)
    → is_empty raw ≡ false
    → parse_response raw ≡ take_lines (length raw) raw new_response
unfolding parse_response
parse_response-nonempty [] h = ground arith
parse_response-nonempty (c ∷ s) h = refl

-- What a modem sends as some lines is taken as these lines, one after another, whatever their
-- length: no line is missed and none is cut in two.
pub parse_response-frame :
    (line : List ℕ) (lines : List (List ℕ))
    → all_no_cr (line ∷ lines) ≡ true
    → parse_response (frame (line ∷ lines)) ≡ take_all (line ∷ lines) new_response
parse_response-frame line lines h =
    parse_response-nonempty (frame (line ∷ lines)) (frame-nonempty line lines)
    ∙ take_lines-frame (length (frame (line ∷ lines))) (line ∷ lines) new_response h (omega arith)
