-- ===== src/Modem/Parse/SurveyAnswer.antt =====
-- What `network_survey` of src/xe310.cpp makes of the bytes that the modem sends for a survey that
-- found LTE cells.
use x_e310_multi_os.Base.{
  ℕ, zero, suc, ◌≤◌, ◌≡◌, refl, ap, sym, ◌∙◌, true, false, ◌&&◌, List, [], ◌∷◌, ◌++◌, map, length,
  take, is_empty, ◌==◌, leb, bytes_eq, codes, show, has_prefix, is_digit, all_digits,
  show-all_digits, show-some, comma_joined, append_assoc, append-nil, arith, Bool-cases, inl, inr,
}
use x_e310_multi_os.FixedString.{push_back}
use x_e310_multi_os.AtCommand.{parse_response, at_response_max, is_error_line}
use x_e310_multi_os.AtCommand.Frames.{all_no_cr, frame}
use x_e310_multi_os.AtCommand.Answers.{is_payload, all_payload, parse_response-answer}
use x_e310_multi_os.Modem.Types.{ModemStatus}
use x_e310_multi_os.Modem.Configs.{SurvCell, NetworkSurveyResult, no_survey, max_cells}
use x_e310_multi_os.Modem.Text.Joined.{body_lines-joined}
use x_e310_multi_os.Modem.Parse.Survey.{summary_counts}
use x_e310_multi_os.Modem.Parse.NetworkSurvey.{
  Floats, parse_surv_line, network_survey_line, network_survey_lines, add_counts,
  parse_network_survey,
}
use x_e310_multi_os.Modem.Parse.Cells.{
  LteCell, IsReport, lte_line, kept, parse_surv_line-lte, lte_line-no_cr,
}

abbrev started : List ℕ
started = codes "Network survey started ..."

abbrev ended : List ℕ
ended = codes "Network survey ended"

-- A line that starts with a digit is a cell and belongs to the body of an answer.
digit-first :
    (f rest : List ℕ)
    → all_digits f ≡ true
    → is_empty f ≡ false
    → (d : ℕ) × (s : List ℕ) × (f ++ rest ≡ d ∷ s) × (is_digit d ≡ true)
unfolding is_digit
digit-first [] rest h e = absurd (cc)
digit-first (d ∷ s) rest h e = (d, s ++ rest, refl, ground arith)

other-bytes_eq : (d c : ℕ) (s p : List ℕ) → (d == c) ≡ false → bytes_eq (d ∷ s) (c ∷ p) ≡ false
unfolding bytes_eq
other-bytes_eq d c s p h = ground arith

other-has_prefix : (d c : ℕ) (s p : List ℕ) → (d == c) ≡ false → has_prefix (c ∷ p) (d ∷ s) ≡ false
unfolding has_prefix
other-has_prefix d c s p h = other-bytes_eq d c (take (length p) s) p h

digit-is_other : (d c : ℕ) → is_digit d ≡ true → (leb 48 c && leb c 57) ≡ false → (d == c) ≡ false
unfolding is_digit
digit-is_other d c h k = ground arith

digit-is_payload : (d : ℕ) (s : List ℕ) → is_digit d ≡ true → is_payload (d ∷ s) ≡ true
unfolding is_error_line
digit-is_payload d s h =
    rw
      (
        other-bytes_eq d 79 s (codes "K") (digit-is_other d 79 h refl),
        other-bytes_eq d 69 s (codes "RROR") (digit-is_other d 69 h refl),
        other-has_prefix d 43 s (codes "CME ERROR:") (digit-is_other d 43 h refl),
        other-has_prefix d 43 s (codes "CMS ERROR:") (digit-is_other d 43 h refl),
        other-bytes_eq d 66 s (codes "USY") (digit-is_other d 66 h refl),
      )
      refl

digit-is_cell :
    (floats : Floats) (d : ℕ) (s : List ℕ) (r : NetworkSurveyResult)
    → is_digit d ≡ true
    → network_survey_line floats (d ∷ s) r
      ≡ record r { cells = (push_back max_cells r.cells (parse_surv_line floats (d ∷ s))).1 }
unfolding network_survey_line
digit-is_cell floats d s r h =
    rw
      (
        network_survey_line,
        other-has_prefix d 78 s (codes "etwork survey started") (digit-is_other d 78 h refl),
        other-has_prefix d 78 s (codes "etwork survey ended") (digit-is_other d 78 h refl),
      )
      refl

push_back-cons :
    {A : Type 0} (n : ℕ) (y : A) (xs : List A) (x : A)
    → (push_back (suc n) (y ∷ xs) x).1 ≡ y ∷ (push_back n xs x).1
unfolding push_back
push_back-cons n y xs x =
    let same : leb (suc n) (suc (length xs)) ≡ leb n (length xs) = ground arith in
    rw same
      (elim (Bool-cases (leb n (length xs))) [ inl full ↦ rw full refl | inr room ↦ rw room refl ])

-- A full vector takes no more.
push_back-take :
    {A : Type 0} (n : ℕ) (xs : List A) (x : A)
    → (push_back n (take n xs) x).1 ≡ take n (xs ++ (x ∷ []))
unfolding push_back
push_back-take zero xs x = refl
push_back-take (suc zero) [] x = refl
push_back-take (suc (suc n)) [] x =
    let room : leb (suc (suc n)) 0 ≡ false = ground arith in rw room refl
push_back-take (suc n) (y ∷ xs) x =
    push_back-cons n y (take n xs) x ∙ ap (λ ys. y ∷ ys) (push_back-take n xs x)

-- What stands in the line of a cell: a digit first, and no carriage return.
lte_line-digit : (c : LteCell) → (d : ℕ) × (s : List ℕ) × (lte_line c ≡ d ∷ s) × (is_digit d ≡ true)
lte_line-digit c =
    digit-first (show c.earfcn)
      (44
        ∷ comma_joined c.rsrp
            (show c.mcc ∷ show c.mnc ∷ show c.pci ∷ show c.tac ∷ show c.cell_id ∷ []))
      (show-all_digits c.earfcn) (show-some c.earfcn)

network_survey_line-lte :
    (floats : Floats) (c : LteCell) (r : NetworkSurveyResult)
    → IsReport c
    → network_survey_line floats (lte_line c) r
      ≡ record r { cells = (push_back max_cells r.cells (kept floats c)).1 }
network_survey_line-lte floats c r h =
    let (d, s, line, digit) = lte_line-digit c in
    ap (λ l. network_survey_line floats l r) line
    ∙ digit-is_cell floats d s r digit
    ∙ ap (λ l. record r { cells = (push_back max_cells r.cells (parse_surv_line floats l)).1 })
        (sym line)
    ∙ ap (λ k. record r { cells = (push_back max_cells r.cells k).1 })
        (parse_surv_line-lte floats c h)

network_survey_lines-append :
    (floats : Floats) (xs ys : List (List ℕ)) (r : NetworkSurveyResult)
    → network_survey_lines floats (xs ++ ys) r
      ≡ network_survey_lines floats ys (network_survey_lines floats xs r)
unfolding network_survey_lines
network_survey_lines-append floats [] ys r = refl
network_survey_lines-append floats (x ∷ xs) ys r =
    network_survey_lines-append floats xs ys (network_survey_line floats x r)

abbrev pub AllReports : List LteCell → Type 0
AllReports [] = Unit {0}
AllReports (c ∷ cells) = IsReport c × AllReports cells

network_survey_lines-lte :
    (floats : Floats) (cells : List LteCell) (before : List SurvCell)
    → AllReports cells
    → network_survey_lines floats
        (map lte_line cells)
        (record no_survey { cells = take max_cells before })
      ≡ record no_survey { cells = take max_cells (before ++ map (kept floats) cells) }
unfolding network_survey_lines
network_survey_lines-lte floats [] before h =
    ap (λ xs. record no_survey { cells = take max_cells xs }) (sym (append-nil before))
network_survey_lines-lte floats (c ∷ cells) before (report, others) =
    ap (network_survey_lines floats (map lte_line cells)) (
      network_survey_line-lte floats c (record no_survey { cells = take max_cells before }) report
      ∙ ap (λ xs. record no_survey { cells = xs })
          (push_back-take max_cells before (kept floats c)))
    ∙ network_survey_lines-lte floats cells (before ++ (kept floats c ∷ [])) others
    ∙ ap (λ xs. record no_survey { cells = take max_cells xs })
        (append_assoc before (kept floats c ∷ []) (map (kept floats) cells))

-- The lines of a survey that found some cells.
abbrev pub survey_answer : List LteCell → List (List ℕ)
survey_answer cells = started ∷ (map lte_line cells ++ (ended ∷ []))

started_line :
    (floats : Floats) (r : NetworkSurveyResult) → network_survey_line floats started r ≡ r
unfolding network_survey_line
started_line floats r = refl

ended_line :
    (floats : Floats) (r : NetworkSurveyResult)
    → network_survey_line floats ended r ≡ record r { has_summary = true }
unfolding network_survey_line add_counts summary_counts
ended_line floats r = refl

survey_lines-answer :
    (floats : Floats) (cells : List LteCell)
    → AllReports cells
    → network_survey_lines floats (survey_answer cells) no_survey
      ≡ record no_survey { cells = take max_cells (map (kept floats) cells); has_summary = true }
unfolding network_survey_lines
survey_lines-answer floats cells h =
    ap (network_survey_lines floats (map lte_line cells ++ (ended ∷ [])))
      (started_line floats no_survey)
    ∙ network_survey_lines-append floats (map lte_line cells) (ended ∷ []) no_survey
    ∙ ap (network_survey_line floats ended) (network_survey_lines-lte floats cells [] h)
    ∙ ended_line floats (record no_survey { cells = take max_cells (map (kept floats) cells) })

lte_line-is_payload : (c : LteCell) → is_payload (lte_line c) ≡ true
lte_line-is_payload c =
    let (d, s, line, digit) = lte_line-digit c in ap is_payload line ∙ digit-is_payload d s digit

lte_lines-no_cr :
    (cells : List LteCell)
    → AllReports cells
    → all_no_cr (map lte_line cells ++ (ended ∷ [])) ≡ true
lte_lines-no_cr [] h = refl
lte_lines-no_cr (c ∷ cells) (report, others) =
    rw (lte_line-no_cr c report) (lte_lines-no_cr cells others)

lte_lines-payload : (cells : List LteCell) → all_payload (map lte_line cells ++ (ended ∷ [])) ≡ true
unfolding is_error_line bytes_eq has_prefix
lte_lines-payload [] = refl
lte_lines-payload (c ∷ cells) = rw (lte_line-is_payload c) (lte_lines-payload cells)

survey_payload : (cells : List LteCell) → all_payload (survey_answer cells) ≡ true
unfolding is_error_line bytes_eq has_prefix
survey_payload cells = lte_lines-payload cells

-- A survey is read back from the bytes that the modem sends: whatever LTE cells there are, at most
-- 2048 bytes of them, the numbers within their fields and each power a plain text of at most 63
-- bytes on one line, the result is the first 32 of them in their order, and the summary counts as seen.
pub network_survey-answer :
    (floats : Floats) (cells : List LteCell) (old : NetworkSurveyResult)
    → AllReports cells
    → length (frame (survey_answer cells)) ≤ at_response_max
    → parse_network_survey floats old
        (parse_response (frame (survey_answer cells ++ (codes "OK" ∷ [])))).body
      ≡ (
        ModemStatus.ok,
        record no_survey { cells = take max_cells (map (kept floats) cells); has_summary = true },
      )
unfolding parse_network_survey
network_survey-answer floats cells old h fits =
    let lines = survey_answer cells in
    let clean = lte_lines-no_cr cells h in
    let answer = parse_response-answer lines (survey_payload cells) clean fits in
    ap (λ a. parse_network_survey floats old a.body) answer
    ∙ ap (λ ls. (ModemStatus.ok, network_survey_lines floats ls no_survey))
        (body_lines-joined lines (survey_payload cells) clean)
    ∙ ap (λ r. (ModemStatus.ok, r)) (survey_lines-answer floats cells h)
