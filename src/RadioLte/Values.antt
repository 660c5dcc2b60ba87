-- ===== src/RadioLte/Values.antt =====
-- What a response carries (`publish_typed_response` in src/i_radio_lte.cpp): the value of each type
-- that an accessor of `NetworkLte` (src/network_lte.cpp) gives.
use x_e310_multi_os.Base.{ℕ, Bool, false, List}
use x_e310_multi_os.Modem.Types.{
  RadioTech, RegStatus, PsmMode, RegistrationInfo, NetworkInfo, SignalQuality, TelitCpsmsStatus,
  Operator,
}
use x_e310_multi_os.Modem.Configs.{
  SimStatus, ModemInfo, CpsmsConfig, TelitCpsmsConfig, NetworkSurveyResult, CsurvResult,
}
use x_e310_multi_os.NetworkLte.State.{NetworkLte, NetworkLteConfig, StateTimers}
use x_e310_multi_os.RadioLte.{RequestType, GnssPositionMsg, to_gnss_position_msg}

-- `server_array` is the pointer to the machine's own array.
pub data Value : Type 0 where
  flag : Bool → Value
  registration : RegistrationInfo → Value
  signal : SignalQuality → Value
  short_string : List ℕ → Value
  modem_info : ModemInfo → Value
  sim_status : SimStatus → Value
  radio_tech : RadioTech → Value
  reg_status : RegStatus → Value
  network_info : NetworkInfo → Value
  psm_mode : PsmMode → Value
  cpsms_config : CpsmsConfig → Value
  telit_cpsms_config : TelitCpsmsConfig → Value
  telit_cpsms_status : TelitCpsmsStatus → Value
  network_survey : NetworkSurveyResult → Value
  operators : List Operator → Value
  csurv : CsurvResult → Value
  server_array : Value
  config : NetworkLteConfig → Value
  timers : StateTimers → Value
  position : GnssPositionMsg → Value

-- The accessor that answers a request; a request that is no question has `false`.
unfoldable pub value_of : {X : Type 0} → RequestType → NetworkLte X → Value
unfolding to_gnss_position_msg
value_of RequestType.get_registration_info s = registration s.reg_info
value_of RequestType.get_signal_quality s = signal s.signal_quality
value_of RequestType.get_iccid s = short_string s.cached.modem_info.iccid
value_of RequestType.get_imsi s = short_string s.cached.modem_info.imsi
value_of RequestType.get_clock s = short_string s.modem_clock
value_of RequestType.get_modem_info s = modem_info s.cached.modem_info
value_of RequestType.get_sim_status s = sim_status s.cached.sim_status
value_of RequestType.get_radio_tech s = radio_tech s.cached.radio_tech
value_of RequestType.get_reg_status s = reg_status s.cached.reg_status
value_of RequestType.get_network_info s = network_info s.network_info
value_of RequestType.get_psm_mode s = psm_mode s.cached.psm_mode
value_of RequestType.get_cpsms_config s = cpsms_config s.cached.cpsms_config
value_of RequestType.get_telit_cpsms_config s = telit_cpsms_config s.cached.telit_cpsms_config
value_of RequestType.get_telit_cpsms_status s = telit_cpsms_status s.cached.telit_cpsms_status
value_of RequestType.get_network_survey_result s = network_survey s.cached.network_survey_result
value_of RequestType.get_available_operators s = operators s.cached.operator_list
value_of RequestType.get_csurv_result s = csurv s.csurv_result
value_of RequestType.get_server_info_array s = server_array
value_of RequestType.get_config s = config s.lte_config
value_of RequestType.get_timers s = timers s.state_timers
value_of RequestType.get_gnss_position s = position (to_gnss_position_msg s.gnss_position)
value_of _ s = flag false
