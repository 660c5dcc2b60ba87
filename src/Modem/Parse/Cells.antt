-- ===== src/Modem/Parse/Cells.antt =====
-- The line of an LTE cell that `network_survey` of src/xe310.cpp reads, and the cell it makes of it.
use x_e310_multi_os.Base.{
  ℕ, ◌%◌, ◌≤◌, ◌<◌, ◌^◌, ◌≡◌, refl, ap, ◌∙◌, Bool, true, false, ◌&&◌, List, [], ◌∷◌, ◌++◌, length,
  is_empty, show, is_digit, all_digits, show-all_digits, show-some, show-length, atoi-show, pos,
  comma_joined, arith,
}
use x_e310_multi_os.AtCommand.Frames.{no_cr}
use x_e310_multi_os.Modem.Configs.{SurvCell, SurvCellType, new_cell}
use x_e310_multi_os.Modem.Text.{tokens, c_str}
use x_e310_multi_os.Modem.Text.Fields.{
  is_plain, c_str-plain, all_digits-is_plain, tokens-joined, show-no_comma, is_plain-no_comma,
}
use x_e310_multi_os.Modem.Parse.NetworkSurvey.{Floats, parse_surv_line, cell_of_fields}

-- A cell as the modem reports it: `<earfcn>,<rsrp>,<mcc>,<mnc>,<pci>,<tac>,<cell_id>`.
pub record LteCell : Type 0 where
  pub earfcn : ℕ
  pub rsrp : List ℕ
  pub mcc : ℕ
  pub mnc : ℕ
  pub pci : ℕ
  pub tac : ℕ
  pub cell_id : ℕ

-- The numbers fit their fields, and the power is a text between commas.
pub record IsReport (c : LteCell) : Type 0 where
  pub earfcn : c.earfcn < 2 ^ 31
  pub mcc : c.mcc < 2 ^ 16
  pub mnc : c.mnc < 2 ^ 16
  pub pci : c.pci < 2 ^ 31
  pub tac : c.tac < 2 ^ 31
  pub cell_id : c.cell_id < 2 ^ 63
  pub plain : is_plain c.rsrp ≡ true
  pub one_line : no_cr c.rsrp ≡ true
  pub some_byte : is_empty c.rsrp ≡ false
  pub short : length c.rsrp ≤ 63

abbrev pub lte_line : LteCell → List ℕ
lte_line c =
    comma_joined (show c.earfcn)
      (c.rsrp ∷ show c.mcc ∷ show c.mnc ∷ show c.pci ∷ show c.tac ∷ show c.cell_id ∷ [])

-- The cell that is kept of it.
abbrev pub kept : Floats → LteCell → SurvCell
kept floats c = record new_cell {
  type = SurvCellType.cell_4g;
  earfcn = pos c.earfcn;
  rsrp = floats.strtof c.rsrp;
  rx_lev = floats.to_int (floats.strtof c.rsrp);
  mcc = c.mcc;
  mnc = c.mnc;
  phys_cell_id = c.pci;
  tac = c.tac;
  cell_identity = c.cell_id;
}

c_str-show : (n : ℕ) → c_str 63 (show n) ≡ show n
c_str-show n =
    c_str-plain 63 (show n) (all_digits-is_plain (show n) (show-all_digits n))
      (omega (arith, show-length n))

lte_fields :
    (c : LteCell)
    → IsReport c
    → tokens (c_str 63) 10 (lte_line c)
      ≡ show c.earfcn
        ∷ c.rsrp
        ∷ show c.mcc
        ∷ show c.mnc
        ∷ show c.pci
        ∷ show c.tac
        ∷ show c.cell_id
        ∷ []
lte_fields c h =
    tokens-joined (c_str 63) 10 (show c.earfcn)
      (c.rsrp ∷ show c.mcc ∷ show c.mnc ∷ show c.pci ∷ show c.tac ∷ show c.cell_id ∷ [])
      (
        show-no_comma c.earfcn,
        show-some c.earfcn,
        (
          is_plain-no_comma c.rsrp h.plain,
          h.some_byte,
          (
            show-no_comma c.mcc,
            show-some c.mcc,
            (
              show-no_comma c.mnc,
              show-some c.mnc,
              (
                show-no_comma c.pci,
                show-some c.pci,
                (
                  show-no_comma c.tac,
                  show-some c.tac,
                  (show-no_comma c.cell_id, show-some c.cell_id, tt),
                ),
              ),
            ),
          ),
        ),
      )
      (omega arith)
    ∙ rw
        (
          c_str-show c.earfcn,
          c_str-plain 63 c.rsrp h.plain h.short,
          c_str-show c.mcc,
          c_str-show c.mnc,
          c_str-show c.pci,
          c_str-show c.tac,
          c_str-show c.cell_id,
        )
        refl

pub parse_surv_line-lte :
    (floats : Floats) (c : LteCell)
    → IsReport c
    → parse_surv_line floats (lte_line c) ≡ kept floats c
unfolding parse_surv_line cell_of_fields
parse_surv_line-lte floats c h =
    let mcc : c.mcc % 2 ^ 16 ≡ c.mcc = omega (arith, h.mcc) in
    let mnc : c.mnc % 2 ^ 16 ≡ c.mnc = omega (arith, h.mnc) in
    let pci : c.pci % 2 ^ 32 ≡ c.pci = omega (arith, h.pci) in
    let tac : c.tac % 2 ^ 32 ≡ c.tac = omega (arith, h.tac) in
    let cell_id : c.cell_id % 2 ^ 64 ≡ c.cell_id = omega (arith, h.cell_id) in
    ap (cell_of_fields floats) (lte_fields c h)
    ∙ rw
        (
          atoi-show c.earfcn (omega (arith, h.earfcn)),
          atoi-show c.mcc (omega (arith, h.mcc)),
          atoi-show c.mnc (omega (arith, h.mnc)),
          atoi-show c.pci (omega (arith, h.pci)),
          atoi-show c.tac (omega (arith, h.tac)),
          atoi-show c.cell_id (omega (arith, h.cell_id)),
          mcc,
          mnc,
          pci,
          tac,
          cell_id,
        )
        refl

no_cr-append : (f g : List ℕ) → no_cr f ≡ true → no_cr g ≡ true → no_cr (f ++ g) ≡ true
no_cr-append [] g h k = k
no_cr-append (c ∷ s) g h k = ground (arith, no_cr-append s g)

digits-no_cr : (s : List ℕ) → all_digits s ≡ true → no_cr s ≡ true
unfolding is_digit
digits-no_cr [] h = refl
digits-no_cr (c ∷ s) h = ground (arith, digits-no_cr s)

abbrev all_numbers : List ℕ → List (List ℕ) → Bool
all_numbers f [] = no_cr f
all_numbers f (g ∷ fields) = no_cr f && all_numbers g fields

no_cr-comma_joined :
    (f : List ℕ) (fields : List (List ℕ))
    → all_numbers f fields ≡ true
    → no_cr (comma_joined f fields) ≡ true
no_cr-comma_joined f [] h = h
no_cr-comma_joined f (g ∷ fields) h =
    no_cr-append f (44 ∷ comma_joined g fields) (ground arith)
      (no_cr-comma_joined g fields (ground arith))

show-no_cr : (n : ℕ) → no_cr (show n) ≡ true
show-no_cr n = digits-no_cr (show n) (show-all_digits n)

pub lte_line-no_cr : (c : LteCell) → IsReport c → no_cr (lte_line c) ≡ true
lte_line-no_cr c h =
    no_cr-comma_joined (show c.earfcn)
      (c.rsrp ∷ show c.mcc ∷ show c.mnc ∷ show c.pci ∷ show c.tac ∷ show c.cell_id ∷ [])
      (rw
        (
          show-no_cr c.earfcn,
          h.one_line,
          show-no_cr c.mcc,
          show-no_cr c.mnc,
          show-no_cr c.pci,
          show-no_cr c.tac,
          show-no_cr c.cell_id,
        )
        refl)
