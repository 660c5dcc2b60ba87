-- ===== src/Modem/Configs.antt =====
-- The structs and enumerations of include/modem/xe310.h that only its own commands use.
use x_e310_multi_os.Base.{ℕ, ℤ, pos, Bool, false, List, [], Option}
use x_e310_multi_os.Modem.Types.{PsmMode}

pub data SimDetMode : Type 0 where
  gpio always : SimDetMode

pub data SimStatus : Type 0 where
  not_inserted inserted inserted_and_pin_unlocked inserted_and_ready : SimStatus
  other : ℕ → SimStatus

pub data MruListRat : Type 0 where
  lte_m nb_iot ntn : MruListRat

pub record CpsmsConfig : Type 0 where
  pub mode : PsmMode
  pub req_periodic_rau : List ℕ
  pub req_gprs_ready_timer : List ℕ
  pub req_periodic_tau : List ℕ
  pub req_active_time : List ℕ

-- The `fHas…` flag of a field and its value are an `Option`.
pub record TelitCpsmsConfig : Type 0 where
  pub mode : PsmMode
  pub req_periodic_rau : Option ℕ
  pub req_gprs_ready_timer : Option ℕ
  pub req_periodic_tau : Option ℕ
  pub req_active_time : Option ℕ
  pub psm_version : Option ℕ
  pub psm_threshold : Option ℕ

pub record BandConfig : Type 0 where
  pub gsm_mask : ℕ
  pub umts_mask : ℕ
  pub lte_mask : ℕ
  pub tdscdma_mask : ℕ
  pub lte_mask_over_64 : ℕ

pub record SoftwarePackageVersion : Type 0 where
  pub package_version : List ℕ
  pub modem_version : List ℕ
  pub prod_params_version : List ℕ
  pub app_version : List ℕ

-- The four addresses that `get_pdp_info` writes.
pub record PdpAddresses : Type 0 where
  pub ip_addr : List ℕ
  pub gw_addr : List ℕ
  pub dns_primary : List ℕ
  pub dns_secondary : List ℕ

pub record CsurvCell : Type 0 where
  pub earfcn : ℤ
  pub rx_lev : ℤ
  pub mcc : ℕ
  pub mnc : ℕ
  pub cell_id : ℕ
  pub tac : ℕ
  pub cell_identity : ℕ

abbrev pub max_cells : ℕ
max_cells = 32

pub record CsurvResult : Type 0 where
  pub cells : List CsurvCell
  pub has_summary : Bool
  pub no_arfcn : ℤ
  pub no_bcch : ℤ

abbrev pub empty_survey : CsurvResult
empty_survey = record { cells = []; has_summary = false; no_arfcn = pos 0; no_bcch = pos 0 }

pub record ModemInfo : Type 0 where
  pub imei_sv : List ℕ
  pub iccid : List ℕ
  pub imsi : List ℕ
  pub model_id : List ℕ
  pub sw_package_version : SoftwarePackageVersion
  pub telit_id : List ℕ
  pub identification : List ℕ
  pub imei : List ℕ

pub data SurvCellType : Type 0 where
  cell_2g_bcch cell_2g_non_bcch cell_4g : SurvCellType

-- A `float` is its 32 bits.
pub record SurvCell : Type 0 where
  pub type : SurvCellType
  pub arfcn : ℤ
  pub bsic : ℤ
  pub rx_lev : ℤ
  pub ber : ℤ
  pub mcc : ℕ
  pub mnc : ℕ
  pub lac : ℕ
  pub cell_id : ℕ
  pub cell_stat : List ℕ
  pub num_arfcn : ℤ
  pub earfcn : ℤ
  pub tac : ℕ
  pub phys_cell_id : ℕ
  pub cell_identity : ℕ
  pub rsrp : ℕ
  pub rsrq : ℕ

abbrev pub new_cell : SurvCell
new_cell = record {
  type = SurvCellType.cell_4g;
  arfcn = pos 0;
  bsic = pos 0;
  rx_lev = pos 0;
  ber = pos 0;
  mcc = 0;
  mnc = 0;
  lac = 0;
  cell_id = 0;
  cell_stat = [];
  num_arfcn = pos 0;
  earfcn = pos 0;
  tac = 0;
  phys_cell_id = 0;
  cell_identity = 0;
  rsrp = 0;
  rsrq = 0;
}

pub record NetworkSurveyResult : Type 0 where
  pub cells : List SurvCell
  pub has_summary : Bool
  pub no_arfcn : ℤ
  pub no_bcch : ℤ

abbrev pub no_survey : NetworkSurveyResult
no_survey = record { cells = []; has_summary = false; no_arfcn = pos 0; no_bcch = pos 0 }
