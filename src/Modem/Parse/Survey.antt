-- ===== src/Modem/Parse/Survey.antt =====
-- The answer of `scan_networks` of src/xe310.cpp: a cell for each line with an `earfcn:`, and the
-- summary line.
use x_e310_multi_os.Base.{
  ℕ, ◌%◌, ◌^◌, ℤ, Option, true, List, [], ◌∷◌, codes, is_empty, ◌||◌, if◌then◌else◌, has_prefix,
  before, skip_spaces, atoi, none, some,
}
use x_e310_multi_os.FixedString.{push_back}
use x_e310_multi_os.Modem.Types.{ModemStatus}
use x_e310_multi_os.Modem.Configs.{CsurvCell, CsurvResult, empty_survey, max_cells}
use x_e310_multi_os.Modem.Text.{after_word, body_lines, c_str}
use x_e310_multi_os.Modem.Text.Hex.{strtoul_hex}
use x_e310_multi_os.Modem.Parse.Info.{Parsed}

-- The word after a label, empty if the line has no such label.
unfoldable pub extract_value : List ℕ → List ℕ → List ℕ
unfolding after_word skip_spaces before
extract_value line label = elim (after_word label line) [
  | none ↦ []
  | some rest ↦ before b' ' (skip_spaces rest)
]

abbrev pub hex_value : List ℕ → List ℕ → ℕ
unfolding extract_value strtoul_hex c_str
hex_value line label = strtoul_hex (c_str 31 (extract_value line label))

unfoldable pub cell_of : List ℕ → CsurvCell
unfolding extract_value strtoul_hex c_str atoi
cell_of line = record {
  earfcn = atoi (c_str 31 (extract_value line (codes "earfcn:")));
  rx_lev = atoi (c_str 31 (extract_value line (codes "rxLev:")));
  mcc = hex_value line (codes "mcc:") % 2 ^ 16;
  mnc = hex_value line (codes "mnc:") % 2 ^ 16;
  cell_id = hex_value line (codes "cellId:") % 2 ^ 32;
  tac = hex_value line (codes "tac:") % 2 ^ 32;
  cell_identity = hex_value line (codes "cellIdentity:");
}

-- The two counts, which are read only if both labels are there.
unfoldable pub summary_counts : List ℕ → Option (ℤ × ℤ)
unfolding extract_value after_word c_str atoi
summary_counts line = elim (after_word (codes "Carrier:") line) [
  | none ↦ none
  | some carriers ↦ elim (after_word (codes "BCCh:") line) [
    | none ↦ none
    | some bcch ↦ some (
      atoi (c_str 15 (extract_value line (codes "Carrier:"))),
      atoi (c_str 15 (extract_value line (codes "BCCh:"))),
    )
  ]
]

unfoldable pub add_summary : List ℕ → CsurvResult → CsurvResult
unfolding summary_counts
add_summary line r = elim (summary_counts line) [
  | none ↦ record r { has_summary = true }
  | some (carriers, bcch) ↦ record r { has_summary = true; no_arfcn = carriers; no_bcch = bcch }
]

-- The body of the loop over the lines.
unfoldable pub survey_line : List ℕ → CsurvResult → CsurvResult
unfolding has_prefix extract_value cell_of add_summary push_back
survey_line line r =
    if is_empty line || has_prefix (codes "Network survey started") line
    then r
    else if has_prefix (codes "Network survey ended") line
    then add_summary line r
    else if is_empty (extract_value line (codes "earfcn:"))
    then r
    else record r { cells = (push_back max_cells r.cells (cell_of line)).1 }

unfoldable pub survey_lines : List (List ℕ) → CsurvResult → CsurvResult
unfolding survey_line
survey_lines [] r = r
survey_lines (line ∷ lines) r = survey_lines lines (survey_line line r)

unfoldable pub parse_survey : Parsed CsurvResult
unfolding survey_lines body_lines
parse_survey old body = (ModemStatus.ok, survey_lines (body_lines body) empty_survey)
