-- ===== src/Modem/Print.antt =====
-- The command lines of src/xe310.cpp. `snprintf` into a buffer of n bytes leaves the first n - 1 of
-- what it prints; `%.*s` prints up to a zero byte.
use x_e310_multi_os.Base.{
  ℕ, ◌-◌, List, [], ◌∷◌, ◌++◌, ◌||◌, not, ltb, if◌then◌else◌, is_empty, before, ◌==◌, codes, show,
  Option, none, some,
}
use x_e310_multi_os.FixedString.{of_view}
use x_e310_multi_os.Modem.Types.{RadioTech, PsmMode}
use x_e310_multi_os.Modem.Configs.{
  SimDetMode, MruListRat, CpsmsConfig, TelitCpsmsConfig, BandConfig,
}

-- `%d` of an enumeration; a RadioTech is an int8_t.
abbrev pub tech_text : RadioTech → List ℕ
tech_text RadioTech.unknown = codes "-1"
tech_text RadioTech.gsm = codes "0"
tech_text RadioTech.lte = codes "6"
tech_text RadioTech.cat_m1 = codes "7"
tech_text RadioTech.nb_iot = codes "9"
tech_text (RadioTech.other n) = if ltb n 128 then show n else b'-' ∷ show (256 - n)

abbrev pub psm_mode_text : PsmMode → List ℕ
psm_mode_text PsmMode.disable = codes "0"
psm_mode_text PsmMode.enable = codes "1"
psm_mode_text (PsmMode.other n) = show n

abbrev pub sim_mode_text : SimDetMode → List ℕ
sim_mode_text SimDetMode.gpio = codes "0"
sim_mode_text SimDetMode.always = codes "1"

abbrev pub mru_text : MruListRat → List ℕ
mru_text MruListRat.lte_m = codes "0"
mru_text MruListRat.nb_iot = codes "2"
mru_text MruListRat.ntn = codes "5"

abbrev pub quoted : List ℕ → List ℕ
unfolding before
quoted s = 34 ∷ before 0 s ++ 34 ∷ []

abbrev pub comma : List ℕ → List ℕ
comma s = 44 ∷ s

abbrev pub quoted_unless_empty : List ℕ → List ℕ
quoted_unless_empty [] = []
quoted_unless_empty (c ∷ s) = quoted (c ∷ s)

unfoldable pub psm_text : CpsmsConfig → List ℕ
unfolding of_view before show
psm_text cfg = of_view 255 (
    codes "AT+CPSMS="
    ++ psm_mode_text cfg.mode
    ++ (if not (is_empty cfg.req_periodic_rau)
          || not (is_empty cfg.req_gprs_ready_timer)
          || not (is_empty cfg.req_periodic_tau)
          || not (is_empty cfg.req_active_time)
        then comma (quoted_unless_empty cfg.req_periodic_rau)
          ++ comma (quoted_unless_empty cfg.req_gprs_ready_timer)
          ++ comma (quoted_unless_empty cfg.req_periodic_tau)
          ++ comma (quoted_unless_empty cfg.req_active_time)
        else []))

-- `append_opt` over the fields, up to the last that has a value.
abbrev pub optional_fields : List (Option ℕ) → List ℕ
unfolding show
optional_fields [] = []
optional_fields (some n ∷ fields) = comma (show n) ++ optional_fields fields
optional_fields (none ∷ fields) =
    let rest = optional_fields fields in if is_empty rest then [] else 44 ∷ rest

unfoldable pub telit_psm_text : TelitCpsmsConfig → List ℕ
unfolding of_view show
telit_psm_text cfg = of_view 255 (
    codes "AT#CPSMS="
    ++ psm_mode_text cfg.mode
    ++ optional_fields (
        cfg.req_periodic_rau ∷ cfg.req_gprs_ready_timer ∷ cfg.req_periodic_tau ∷ cfg.req_active_time
        ∷ cfg.psm_version ∷ cfg.psm_threshold ∷ []))

unfoldable pub bands_text : BandConfig → List ℕ
unfolding of_view show
bands_text b = of_view 127 (
    codes "AT#BND="
    ++ show b.gsm_mask
    ++ comma (show b.umts_mask)
    ++ comma (show b.lte_mask)
    ++ comma (show b.tdscdma_mask)
    ++ comma (show b.lte_mask_over_64))

-- `local_port == 0` stands for the remote port.
unfoldable pub udp_open_text : ℕ → List ℕ → ℕ → ℕ → List ℕ
unfolding of_view show before
udp_open_text conn_id host remote_port local_port = of_view 255 (
    codes "AT#SD="
    ++ show conn_id
    ++ codes ",1,"
    ++ show remote_port
    ++ comma (quoted host)
    ++ codes ",0,"
    ++ show (if local_port == 0 then remote_port else local_port)
    ++ codes ",1,0,1")

abbrev pub scan_table : List ℕ → List ℕ
scan_table row = codes "AT%SETCFG=\"SCANTABLE\"," ++ row

abbrev pub scan_tables : List (List ℕ)
scan_tables =
    scan_table (codes "\"0\",\"8\"")
    ∷ scan_table (codes "\"1\",\"8\",\"0\",\"1\",\"0\",\"0\",\"0\",\"0\"")
    ∷ scan_table (codes "\"1\",\"8\",\"1\",\"5\",\"1\",\"0\",\"1\",\"3\"")
    ∷ scan_table (codes "\"1\",\"8\",\"2\",\"1\",\"0\",\"4\",\"0\",\"0\"")
    ∷ scan_table (codes "\"1\",\"8\",\"3\",\"1\",\"1\",\"4\",\"1\",\"3\"")
    ∷ scan_table (codes "\"1\",\"8\",\"11\",\"1\",\"1\",\"6\",\"2\",\"10\"")
    ∷ []

abbrev pub table_selectors : List (List ℕ)
table_selectors =
    codes "AT%SETCFG=\"SCANTABLESELECTOR\",\"0\",\"8\""
    ∷ codes "AT%SETCFG=\"SCANTABLESELECTOR\",\"1\",\"8\""
    ∷ []

-- `#ifdef ME310M1`, which include/modem/xe310.h defines.
abbrev pub iot_tech_code : RadioTech → Option ℕ
iot_tech_code RadioTech.cat_m1 = some 0
iot_tech_code RadioTech.nb_iot = some 1
iot_tech_code _ = none
