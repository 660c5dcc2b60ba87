-- ===== src/Modem/Parse/NetworkSurvey.antt =====
-- The answer of `network_survey` of src/xe310.cpp: a cell for each line, told apart by the number of
-- its fields, and the summary line.
use x_e310_multi_os.Base.{
  ℕ, ◌%◌, ◌^◌, ℤ, true, List, [], ◌∷◌, codes, is_empty, ◌||◌, if◌then◌else◌, has_prefix, atoi, none,
  some,
}
use x_e310_multi_os.FixedString.{push_back, of_view}
use x_e310_multi_os.Modem.Types.{ModemStatus, modem_short_str}
use x_e310_multi_os.Modem.Configs.{
  SurvCell, SurvCellType, new_cell, NetworkSurveyResult, no_survey, max_cells,
}
use x_e310_multi_os.Modem.Text.{tokens, wrap, body_lines, c_str}
use x_e310_multi_os.Modem.Text.Hex.{strtoul_hex, strtoul}
use x_e310_multi_os.Modem.Parse.Info.{Parsed}
use x_e310_multi_os.Modem.Parse.Survey.{summary_counts}

-- The floating-point numbers of the platform, as their 32 bits: `std::strtof`, and the cast to `int`.
pub record Floats : Type 0 where
  pub strtof : List ℕ → ℕ
  pub to_int : ℕ → ℤ

module _ (floats : Floats) where
  -- The fields of a line. With a number of fields that has no case the cell stays as it starts.
  unfoldable pub cell_of_fields : List (List ℕ) → SurvCell
  unfolding atoi strtoul_hex strtoul of_view
  cell_of_fields (arfcn ∷ rx_lev ∷ []) = record new_cell {
    type = SurvCellType.cell_2g_non_bcch;
    arfcn = atoi arfcn;
    rx_lev = atoi rx_lev;
  }
  cell_of_fields (earfcn ∷ rsrp ∷ mcc ∷ mnc ∷ pci ∷ tac ∷ cell_id ∷ []) =
      let bits = floats.strtof rsrp in
      record new_cell {
        type = SurvCellType.cell_4g;
        earfcn = atoi earfcn;
        rsrp = bits;
        rx_lev = floats.to_int bits;
        mcc = wrap (2 ^ 16) (atoi mcc);
        mnc = wrap (2 ^ 16) (atoi mnc);
        phys_cell_id = wrap (2 ^ 32) (atoi pci);
        tac = wrap (2 ^ 32) (atoi tac);
        cell_identity = wrap (2 ^ 64) (atoi cell_id);
      }
  cell_of_fields (earfcn ∷ rx_lev ∷ mcc ∷ mnc ∷ cell_id ∷ tac ∷ identity ∷ rsrp ∷ rsrq ∷ []) =
      record new_cell {
        type = SurvCellType.cell_4g;
        earfcn = atoi earfcn;
        rx_lev = atoi rx_lev;
        mcc = strtoul_hex mcc % 2 ^ 16;
        mnc = strtoul_hex mnc % 2 ^ 16;
        phys_cell_id = strtoul_hex cell_id % 2 ^ 32;
        tac = strtoul_hex tac % 2 ^ 32;
        cell_identity = strtoul_hex identity;
        rsrp = floats.strtof rsrp;
        rsrq = floats.strtof rsrq;
      }
  cell_of_fields
        (arfcn ∷ bsic ∷ rx_lev ∷ ber ∷ mcc ∷ mnc ∷ lac ∷ cell_id ∷ cell_stat ∷ num_arfcn ∷ more) =
      record new_cell {
        type = SurvCellType.cell_2g_bcch;
        arfcn = atoi arfcn;
        bsic = atoi bsic;
        rx_lev = atoi rx_lev;
        ber = atoi ber;
        mcc = strtoul_hex mcc % 2 ^ 16;
        mnc = strtoul_hex mnc % 2 ^ 16;
        lac = strtoul lac % 2 ^ 32;
        cell_id = strtoul cell_id % 2 ^ 32;
        cell_stat = of_view modem_short_str cell_stat;
        num_arfcn = atoi num_arfcn;
      }
  cell_of_fields fields = new_cell

  unfoldable pub parse_surv_line : List ℕ → SurvCell
  unfolding tokens c_str cell_of_fields
  parse_surv_line line = cell_of_fields (tokens (c_str 63) 10 line)

  unfoldable pub add_counts : List ℕ → NetworkSurveyResult → NetworkSurveyResult
  unfolding summary_counts
  add_counts line r = elim (summary_counts line) [
    | none ↦ record r { has_summary = true }
    | some (carriers, bcch) ↦ record r { has_summary = true; no_arfcn = carriers; no_bcch = bcch }
  ]

  -- The body of the loop over the lines.
  unfoldable pub network_survey_line : List ℕ → NetworkSurveyResult → NetworkSurveyResult
  unfolding has_prefix parse_surv_line add_counts push_back
  network_survey_line line r =
      if is_empty line || has_prefix (codes "Network survey started") line
      then r
      else if has_prefix (codes "Network survey ended") line
      then add_counts line r
      else record r { cells = (push_back max_cells r.cells (parse_surv_line line)).1 }

  unfoldable pub network_survey_lines : List (List ℕ) → NetworkSurveyResult → NetworkSurveyResult
  unfolding network_survey_line
  network_survey_lines [] r = r
  network_survey_lines (line ∷ lines) r = network_survey_lines lines (network_survey_line line r)

  unfoldable pub parse_network_survey : Parsed NetworkSurveyResult
  unfolding network_survey_lines body_lines
  parse_network_survey old body = (ModemStatus.ok, network_survey_lines (body_lines body) no_survey)
