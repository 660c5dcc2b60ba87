-- ===== src/Tests/Survey.antt =====
-- A network survey at a concrete answer: a cell with a fraction in its power and one without.
use x_e310_multi_os.Base.{
  ℤ, ◌≡◌, ◌++◌, refl, true, [], ◌∷◌, take, map, length, pos, show, codes, arith,
}
use x_e310_multi_os.AtCommand.{parse_response}
use x_e310_multi_os.AtCommand.Frames.{frame}
use x_e310_multi_os.Modem.Types.{ModemStatus}
use x_e310_multi_os.Modem.Configs.{no_survey, max_cells, new_cell, SurvCellType}
use x_e310_multi_os.Modem.Parse.NetworkSurvey.{Floats, parse_network_survey, parse_surv_line}
use x_e310_multi_os.Modem.Parse.Cells.{LteCell, IsReport, kept}
use x_e310_multi_os.Modem.Parse.SurveyAnswer.{survey_answer, network_survey-answer}

-- Some bits for a text.
abbrev floats : Floats
floats = record { strtof = λ s. length s; to_int = λ bits. pos bits }

abbrev near : LteCell
near = record {
  earfcn = 6300;
  rsrp = codes "-82.5";
  mcc = 262;
  mnc = 1;
  pci = 12;
  tac = 40001;
  cell_id = 27447297;
}

abbrev far : LteCell
far = record near { rsrp = codes "-117"; pci = 507 }

near-IsReport : IsReport near
near-IsReport = record {
  earfcn = omega arith;
  mcc = omega arith;
  mnc = omega arith;
  pci = omega arith;
  tac = omega arith;
  cell_id = omega arith;
  plain = refl;
  one_line = refl;
  some_byte = refl;
  short = omega arith;
}

far-IsReport : IsReport far
far-IsReport = record {
  earfcn = omega arith;
  mcc = omega arith;
  mnc = omega arith;
  pci = omega arith;
  tac = omega arith;
  cell_id = omega arith;
  plain = refl;
  one_line = refl;
  some_byte = refl;
  short = omega arith;
}

network_survey-answer_example :
    parse_network_survey floats no_survey
      (parse_response (frame (survey_answer (near ∷ far ∷ []) ++ (codes "OK" ∷ [])))).body
    ≡ (
      ModemStatus.ok,
      record no_survey {
        cells = take max_cells (map (kept floats) (near ∷ far ∷ []));
        has_summary = true;
      },
    )
unfolding show
network_survey-answer_example =
    network_survey-answer floats (near ∷ far ∷ []) no_survey (near-IsReport, (far-IsReport, tt))
      (omega arith)

-- A line of three fields is kept as a cell of zeros.
short_line : parse_surv_line floats (codes "6300,-82,262") ≡ new_cell
unfolding parse_surv_line
short_line = refl

-- Base 0 reads a hexadecimal and an octal code.
gsm_line :
    parse_surv_line floats (codes "17,20,-71,0,262,01,0x1F,010,CELL_SUITABLE,2") ≡ record new_cell {
      type = SurvCellType.cell_2g_bcch;
      arfcn = pos 17;
      bsic = pos 20;
      rx_lev = ℤ.negsuc 70;
      mcc = 610;
      mnc = 1;
      lac = 31;
      cell_id = 8;
      cell_stat = codes "CELL_SUITABLE";
      num_arfcn = pos 2;
    }
unfolding parse_surv_line
gsm_line = refl
