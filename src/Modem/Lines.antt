-- ===== src/Modem/Lines.antt =====
-- The line that each command of src/xe310.cpp sends and the time that it waits, 5 s by default.
-- `none` is a command that does more than send a line.
pub mod Fits
use x_e310_multi_os.Base.{
  ℕ, Bool, true, false, List, [], ◌∷◌, ◌++◌, if◌then◌else◌, is_empty, before, codes, show, Option,
  none, some,
}
use x_e310_multi_os.FixedString.{of_view}
use x_e310_multi_os.Modem.Types.{RadioTech}
use x_e310_multi_os.Modem.Configs.{BandConfig, TelitCpsmsConfig}
use x_e310_multi_os.Modem.Interface.{Command}
use x_e310_multi_os.Modem.Types.{PsmMode}
use x_e310_multi_os.Modem.Print.{
  tech_text, sim_mode_text, mru_text, quoted, comma, psm_text, telit_psm_text, bands_text,
  udp_open_text, iot_tech_code,
}

abbrev pub Line : Type 0
Line = List ℕ × ℕ

abbrev pub plain : List ℕ → Option Line
plain text = some (text, 5000)

abbrev pub switched : Bool → List ℕ → List ℕ → Option Line
switched enable on off = plain (if enable then on else off)

unfoldable pub setup_line : Command → Option Line
unfolding of_view show
setup_line (Command.set_baudrate n) = plain (of_view 63 (codes "AT+IPR=" ++ show n))
setup_line (Command.set_echo enable) = switched enable (codes "ATE1") (codes "ATE0")
setup_line Command.at_ok = plain (codes "AT")
setup_line _ = none

unfoldable pub sim_line : Command → Option Line
unfolding of_view
sim_line (Command.set_sim_detection mode) =
    plain (of_view 31 (codes "AT#SIMDET=" ++ sim_mode_text mode))
sim_line _ = none

unfoldable pub psm_line : Command → Option Line
unfolding psm_text telit_psm_text
psm_line (Command.set_psm cfg) = plain (psm_text cfg)
psm_line Command.disable_psm = plain (codes "AT+CPSMS=0")
psm_line (Command.set_telit_config cfg) = plain (telit_psm_text cfg)
psm_line (Command.set_telit_psm t3412 t3324) = plain (
    telit_psm_text (record {
      mode = PsmMode.enable;
      req_periodic_rau = none;
      req_gprs_ready_timer = none;
      req_periodic_tau = some t3412;
      req_active_time = some t3324;
      psm_version = none;
      psm_threshold = none;
    }))
psm_line _ = none

unfoldable pub psm_urc_line : Command → Option Line
psm_urc_line Command.disable_telit_psm = plain (codes "AT#CPSMS=0")
psm_urc_line (Command.set_psm_urc enable) =
    switched enable (codes "AT#PSMURC=1") (codes "AT#PSMURC=0")
psm_urc_line _ = none

unfoldable pub power_line : Command → Option Line
power_line Command.power_radio = some (codes "AT+CFUN=1", 15000)
power_line Command.power_off_radio = some (codes "AT+CFUN=4", 15000)
power_line _ = none

abbrev pub iot_tech_text : Option ℕ → Option Line
unfolding show of_view
iot_tech_text none = none
iot_tech_text (some n) = plain (of_view 31 (codes "AT#WS46=" ++ show n ++ codes ",0"))

unfoldable pub iot_tech_line : Command → Option Line
unfolding show of_view
iot_tech_line (Command.set_iot_tech tech) = iot_tech_text (iot_tech_code tech)
iot_tech_line _ = none

unfoldable pub bands_line : Command → Option Line
unfolding bands_text
bands_line (Command.set_bands bands) = plain (bands_text bands)
bands_line (Command.set_lte_bands mask) = plain (
    bands_text (record {
      gsm_mask = 0;
      umts_mask = 0;
      lte_mask = mask;
      tdscdma_mask = 0;
      lte_mask_over_64 = 0;
    }))
bands_line _ = none

unfoldable pub urc_line : Command → Option Line
unfolding of_view
urc_line (Command.set_cell_state_urc enable) =
    switched enable (codes "AT%STATEV=1") (codes "AT%STATEV=0")
urc_line (Command.set_registration_urc enable) =
    switched enable (codes "AT+CEREG=4") (codes "AT+CEREG=0")
urc_line (Command.delete_mru_list rat) =
    plain (
      of_view 63
        (codes "AT%TRSHCMD=\"BSPFILE\",\"ERASE_LTEPP\"," ++ (34 ∷ mru_text rat ++ 34 ∷ [])))
urc_line _ = none

unfoldable pub attach_line : Command → Option Line
attach_line Command.network_attach = some (codes "AT+CGATT=1", 30000)
attach_line Command.network_detach = some (codes "AT+CGATT=0", 30000)
attach_line _ = none

unfoldable pub operator_line : Command → Option Line
unfolding of_view show before
operator_line (Command.set_radio_tech tech) =
    some (of_view 63 (codes "AT+COPS=0,,," ++ tech_text tech), 45000)
operator_line (Command.set_operator_manual oper tech) = some (
  if is_empty oper
      then codes "AT+COPS=0"
      else of_view 127 (codes "AT+COPS=1,2," ++ quoted oper ++ comma (tech_text tech)),
  210000,
)
operator_line Command.set_operator_auto = some (codes "AT+COPS=0", 210000)
operator_line _ = none

unfoldable pub apn_line : Command → Option Line
unfolding of_view show before
apn_line (Command.set_apn cid apn) =
    plain (of_view 127 (codes "AT+CGDCONT=" ++ show cid ++ codes ",\"IP\"," ++ quoted apn))
apn_line _ = none

unfoldable pub context_line : Command → Option Line
unfolding of_view show
context_line (Command.set_pdp_urc enable) =
    switched enable (codes "AT+CGEREP=1") (codes "AT+CGEREP=0")
context_line Command.disable_all_notifyev = plain (codes "AT%NOTIFYEV=\"ALL\",0")
context_line (Command.set_plmnsearchexh_notify enable) =
    switched enable (codes "AT%NOTIFYEV=\"PLMNSEARCHEXH\",1")
      (codes "AT%NOTIFYEV=\"PLMNSEARCHEXH\",0")
context_line (Command.activate_pdp cid) = plain (of_view 31 (codes "AT#SGACT=1," ++ show cid))
context_line (Command.deactivate_pdp cid) = plain (of_view 31 (codes "AT#SGACT=0," ++ show cid))
context_line _ = none

unfoldable pub udp_line : Command → Option Line
unfolding of_view show udp_open_text
udp_line (Command.udp_open conn_id host port) = plain (udp_open_text conn_id host port 0)
udp_line (Command.udp_listen conn_id port cid) = plain (
    of_view 63
      (codes "AT#SL=" ++ show conn_id ++ codes ",1," ++ show port ++ codes ",255," ++ show cid))
udp_line _ = none

unfoldable pub udp_close_line : Command → Option Line
unfolding of_view show
udp_close_line (Command.udp_close conn_id) = plain (of_view 31 (codes "AT#SH=" ++ show conn_id))
udp_close_line _ = none

unfoldable pub gnss_line : Command → Option Line
gnss_line (Command.set_gnss_urc enable) =
    switched enable (codes "AT$GNSSNMEA=1,4") (codes "AT$GNSSNMEA=0,0")
gnss_line _ = none

abbrev pub first_of {ℓ} : {A : Type ℓ} → List (Option A) → Option A
first_of [] = none
first_of (none ∷ os) = first_of os
first_of (some a ∷ os) = some a

-- A command is of one group.
abbrev pub group_lines : Command → List (Option Line)
group_lines c =
    setup_line c
    ∷ sim_line c
    ∷ psm_line c
    ∷ psm_urc_line c
    ∷ power_line c
    ∷ iot_tech_line c
    ∷ bands_line c
    ∷ urc_line c
    ∷ attach_line c
    ∷ operator_line c
    ∷ apn_line c
    ∷ context_line c
    ∷ udp_line c
    ∷ udp_close_line c
    ∷ gnss_line c
    ∷ []

unfoldable pub at_line : Command → Option Line
unfolding setup_line sim_line psm_line psm_urc_line power_line iot_tech_line bands_line urc_line
    attach_line operator_line apn_line context_line udp_line udp_close_line gnss_line
at_line c = first_of (group_lines c)
