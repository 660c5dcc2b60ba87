-- ===== src/AtCommand/Answers.antt =====
-- `parse_response` of src/at_command.cpp on a whole answer: the information lines and a final `OK`.
use x_e310_multi_os.Base.{
  ℕ, ◌+◌, ◌≤◌, ◌≡◌, refl, ap, ◌∙◌, Bool, true, false, ◌&&◌, not, List, [], ◌∷◌, ◌++◌, length,
  length-append, is_empty, if◌then◌else◌, bytes_eq, codes, arith,
}
use x_e310_multi_os.FixedString.{append-fits}
use x_e310_multi_os.AtCommand.{
  AtResponse, AtStatus, new_response, crlf, is_error_line, take_line, add_line, parse_response,
  at_response_max,
}
use x_e310_multi_os.AtCommand.Frames.{all_no_cr, frame, take_all, parse_response-frame}

-- A line that belongs to the body: it says something and is no status.
abbrev pub is_payload : List ℕ → Bool
is_payload line =
    not (is_empty line)
    && not (bytes_eq line (codes "OK"))
    && not (is_error_line line)
    && not (bytes_eq line (codes "BUSY"))

abbrev pub all_payload : List (List ℕ) → Bool
all_payload [] = true
all_payload (line ∷ lines) = is_payload line && all_payload lines

-- The lines with a "\r\n" between any two, after what is already there.
abbrev pub joined : List ℕ → List (List ℕ) → List ℕ
joined body [] = body
joined body (line ∷ lines) = joined ((if is_empty body then body else body ++ crlf) ++ line) lines

add_line-fits :
    (body line : List ℕ)
    → length body + 2 + length line ≤ at_response_max
    → add_line body line ≡ (if is_empty body then body else body ++ crlf) ++ line
add_line-fits [] line fits = append-fits at_response_max [] line (omega arith)
add_line-fits (c ∷ s) line fits =
    rw (append-fits at_response_max (c ∷ s) crlf (omega arith))
      (append-fits at_response_max ((c ∷ s) ++ crlf) line (omega (arith, length-append s crlf)))

no_branch :
    {A : Type 0} (a b c d : Bool) (w x y z v : A)
    → not a && not b && not c && not d ≡ true
    → (if a then w else if b then x else if c then y else if d then z else v) ≡ v
no_branch false false false false w x y z v h = refl
no_branch true b c d w x y z v h = ground arith
no_branch false true c d w x y z v h = ground arith
no_branch false false true d w x y z v h = ground arith
no_branch false false false true w x y z v h = ground arith

take_line-payload :
    (line : List ℕ) (r : AtResponse)
    → is_payload line ≡ true
    → take_line line r ≡ record r { body = add_line r.body line }
unfolding take_line
take_line-payload line r h =
    no_branch (is_empty line) (bytes_eq line (codes "OK")) (is_error_line line)
      (bytes_eq line (codes "BUSY")) r (record r { status = AtStatus.ok })
      (record r { status = AtStatus.error }) (record r { status = AtStatus.busy })
      (record r { body = add_line r.body line }) h

added-bounded :
    (body line : List ℕ)
    → length ((if is_empty body then body else body ++ crlf) ++ line)
      ≤ length body + 2 + length line
added-bounded [] line = omega arith
added-bounded (c ∷ s) line = omega (arith, length-append (s ++ crlf) line, length-append s crlf)

take_all-payload :
    (lines : List (List ℕ)) (r : AtResponse)
    → all_payload lines ≡ true
    → length r.body + length (frame lines) ≤ at_response_max
    → take_all lines r ≡ record r { body = joined r.body lines }
take_all-payload [] r h fits = refl
take_all-payload (line ∷ lines) r h fits =
    let body = (if is_empty r.body then r.body else r.body ++ crlf) ++ line in
    let len = length-append line (13 ∷ 10 ∷ frame lines) in
    ap (take_all lines) (
      take_line-payload line r (ground arith)
      ∙ ap (λ b. record r { body = b }) (add_line-fits r.body line (omega (arith, len))))
    ∙ take_all-payload lines (record r { body = body }) (ground arith)
        (omega (arith, len, added-bounded r.body line))

take_all-append :
    (xs ys : List (List ℕ)) (r : AtResponse) → take_all (xs ++ ys) r ≡ take_all ys (take_all xs r)
take_all-append [] ys r = refl
take_all-append (x ∷ xs) ys r = take_all-append xs ys (take_line x r)

all_no_cr-append :
    (xs ys : List (List ℕ))
    → all_no_cr xs ≡ true
    → all_no_cr ys ≡ true
    → all_no_cr (xs ++ ys) ≡ true
all_no_cr-append [] ys h k = k
all_no_cr-append (x ∷ xs) ys h k = ground (arith, all_no_cr-append xs ys)

parse_response-lines :
    (lines : List (List ℕ))
    → is_empty lines ≡ false
    → all_no_cr lines ≡ true
    → parse_response (frame lines) ≡ take_all lines new_response
parse_response-lines [] e h = ground arith
parse_response-lines (line ∷ lines) e h = parse_response-frame line lines h

snoc-nonempty : {A : Type 0} (xs : List A) (x : A) → is_empty (xs ++ (x ∷ [])) ≡ false
snoc-nonempty [] x = refl
snoc-nonempty (y ∷ xs) x = refl

take_line-ok : (r : AtResponse) → take_line (codes "OK") r ≡ record r { status = AtStatus.ok }
unfolding take_line bytes_eq
take_line-ok r = refl

-- An answer is read back: information lines that say something, are no status words and hold no
-- carriage return, 2048 bytes of them at most with their ends, and then "OK", give the status ok
-- and a body that is these lines with a "\r\n" between any two.
pub parse_response-answer :
    (lines : List (List ℕ))
    → all_payload lines ≡ true
    → all_no_cr lines ≡ true
    → length (frame lines) ≤ at_response_max
    → parse_response (frame (lines ++ (codes "OK" ∷ [])))
      ≡ record { status = AtStatus.ok; body = joined [] lines }
parse_response-answer lines h clean fits =
    parse_response-lines (lines ++ (codes "OK" ∷ [])) (snoc-nonempty lines (codes "OK"))
      (all_no_cr-append lines (codes "OK" ∷ []) clean refl)
    ∙ take_all-append lines (codes "OK" ∷ []) new_response
    ∙ ap (take_line (codes "OK")) (take_all-payload lines new_response h (omega arith))
    ∙ take_line-ok (record new_response { body = joined [] lines })
