-- ===== src/Modem/Text/Joined.antt =====
-- The loops of src/xe310.cpp over the lines of a body, on a body that `parse_response` made of lines.
use x_e310_multi_os.Base.{
  ℕ, zero, suc, ◌≤◌, ◌≡◌, refl, ap, ap₂, sym, ◌∙◌, true, List, [], ◌∷◌, ◌++◌, length, length-append,
  append-nil, append_assoc, arith,
}
use x_e310_multi_os.AtCommand.{line_of, after_line, crlf}
use x_e310_multi_os.AtCommand.Frames.{no_cr, all_no_cr, line_of-append, after_line-append}
use x_e310_multi_os.AtCommand.Answers.{all_payload, joined}
use x_e310_multi_os.Modem.Text.{lines_of, body_lines}

-- The lines that follow one, each with the line end before it.
abbrev following : List (List ℕ) → List ℕ
following [] = []
following (line ∷ lines) = 13 ∷ 10 ∷ (line ++ following lines)

joined-following :
    (c : ℕ) (body : List ℕ) (lines : List (List ℕ))
    → joined (c ∷ body) lines ≡ (c ∷ body) ++ following lines
joined-following c body [] = sym (append-nil (c ∷ body))
joined-following c body (line ∷ lines) =
    joined-following c ((body ++ crlf) ++ line) lines
    ∙ ap (λ s. c ∷ s)
        (append_assoc (body ++ crlf) line (following lines)
          ∙ append_assoc body crlf (line ++ following lines))

line_of-all : (line : List ℕ) → no_cr line ≡ true → line_of line ≡ line
unfolding line_of
line_of-all [] h = refl
line_of-all (c ∷ []) h = ground arith
line_of-all (c ∷ d ∷ s) h = ground (arith, line_of-all (d ∷ s))

after_line-all : (line : List ℕ) → no_cr line ≡ true → after_line line ≡ []
unfolding after_line
after_line-all [] h = refl
after_line-all (c ∷ []) h = ground arith
after_line-all (c ∷ d ∷ s) h = ground (arith, after_line-all (d ∷ s))

lines_of-empty : (fuel : ℕ) → lines_of fuel [] ≡ []
unfolding lines_of
lines_of-empty zero = refl
lines_of-empty (suc fuel) = refl

lines_of-line :
    (fuel c : ℕ) (s line rest : List ℕ)
    → line_of (c ∷ s) ≡ line
    → after_line (c ∷ s) ≡ rest
    → lines_of (suc fuel) (c ∷ s) ≡ line ∷ lines_of fuel rest
unfolding lines_of
lines_of-line fuel c s line rest first others = ap₂ (λ l r. l ∷ lines_of fuel r) first others

lines_of-following :
    (fuel c : ℕ) (s : List ℕ) (lines : List (List ℕ))
    → no_cr (c ∷ s) ≡ true
    → all_no_cr lines ≡ true
    → all_payload lines ≡ true
    → length ((c ∷ s) ++ following lines) ≤ fuel
    → lines_of fuel ((c ∷ s) ++ following lines) ≡ (c ∷ s) ∷ lines
lines_of-following zero c s lines h clean payload le = absurd (omega arith)
lines_of-following (suc fuel) c s [] h clean payload le =
    ap (lines_of (suc fuel)) (append-nil (c ∷ s))
    ∙ lines_of-line fuel c s (c ∷ s) [] (line_of-all (c ∷ s) h) (after_line-all (c ∷ s) h)
    ∙ ap (λ ls. (c ∷ s) ∷ ls) (lines_of-empty fuel)
lines_of-following (suc fuel) c s ([] ∷ lines) h clean payload le = absurd (cc)
lines_of-following (suc fuel) c s ((d ∷ t) ∷ lines) h clean payload le =
    let rest = (d ∷ t) ++ following lines in
    lines_of-line fuel c (s ++ (13 ∷ 10 ∷ rest)) (c ∷ s) rest (line_of-append (c ∷ s) rest h)
      (after_line-append (c ∷ s) rest h)
    ∙ ap (λ ls. (c ∷ s) ∷ ls)
        (lines_of-following fuel d t lines (ground arith) (ground arith) (ground arith)
          (omega (arith, le, length-append s (13 ∷ 10 ∷ rest))))

-- The lines of the body are the lines that it was made of.
pub body_lines-joined :
    (lines : List (List ℕ))
    → all_payload lines ≡ true
    → all_no_cr lines ≡ true
    → body_lines (joined [] lines) ≡ lines
unfolding body_lines
body_lines-joined [] payload clean = refl
body_lines-joined ([] ∷ lines) payload clean = absurd (cc)
body_lines-joined ((c ∷ s) ∷ lines) payload clean = rw (joined-following c s lines) (
    lines_of-following (length ((c ∷ s) ++ following lines)) c s lines (ground arith) (ground arith)
      (ground arith) (omega arith))
