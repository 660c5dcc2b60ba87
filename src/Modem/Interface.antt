-- ===== src/Modem/Interface.antt =====
-- The methods of `class xE310` (include/modem/xe310.h), as operations on a modem state `X` of which
-- the state machine knows nothing: those that return a status alone, each a `Command`, and those
-- with an out parameter that src/network_lte.cpp calls, which take its old value and give the new.
use x_e310_multi_os.Base.{ℕ, Bool, List}
use x_e310_multi_os.Modem.Configs.{
  SimDetMode, MruListRat, CpsmsConfig, TelitCpsmsConfig, BandConfig, CsurvResult,
}
use x_e310_multi_os.Modem.Types.{
  ModemStatus, RadioTech, RegistrationInfo, SignalQuality, TelitCpsmsStatus, Operator, GnssPosition,
}

pub data Command : Type 0 where
  set_baudrate : ℕ → Command
  set_echo : Bool → Command
  at_ok reboot power_radio power_off_radio shutdown : Command
  set_lte_bands : ℕ → Command
  set_iot_tech : RadioTech → Command
  disable_telit_psm : Command
  set_telit_psm : ℕ → ℕ → Command
  set_psm_urc set_cell_state_urc set_registration_urc set_pdp_urc : Bool → Command
  disable_all_notifyev : Command
  set_plmnsearchexh_notify : Bool → Command
  network_detach : Command
  set_operator_manual : List ℕ → RadioTech → Command
  set_apn : ℕ → List ℕ → Command
  activate_pdp deactivate_pdp : ℕ → Command
  udp_open : ℕ → List ℕ → ℕ → Command
  udp_send : ℕ → List ℕ → Command
  udp_close : ℕ → Command
  set_gnss_power set_gnss_urc : Bool → Command
  set_sim_detection : SimDetMode → Command
  set_psm : CpsmsConfig → Command
  disable_psm network_attach set_operator_auto set_scan_tables select_tables : Command
  set_telit_config : TelitCpsmsConfig → Command
  set_bands : BandConfig → Command
  delete_mru_list : MruListRat → Command
  set_radio_tech : RadioTech → Command
  udp_listen : ℕ → ℕ → ℕ → Command

pub record Xe310 (X : Type 0) : Type 0 where
  -- What the steady clock shows, in milliseconds; it moves while the modem is spoken to.
  pub now : X → ℕ
  pub delay_ms : ℕ → X → X
  pub last_status : X → ModemStatus
  pub poll_urc : X → List (List ℕ) × X
  pub run : Command → X → ModemStatus × X
  pub get_clock : List ℕ → X → ModemStatus × List ℕ × X
  pub get_signal_quality : SignalQuality → X → ModemStatus × SignalQuality × X
  pub get_operator : List ℕ → X → ModemStatus × List ℕ × X
  pub get_apn : ℕ → List ℕ → X → ModemStatus × List ℕ × X
  pub get_telit_psm : TelitCpsmsStatus → X → ModemStatus × TelitCpsmsStatus × X
  pub get_registration_status :
      RegistrationInfo → RadioTech → X → ModemStatus × RegistrationInfo × X
  pub get_iot_tech : RadioTech → X → ModemStatus × RadioTech × X
  pub get_lte_bands : ℕ → X → ModemStatus × ℕ × X
  pub get_pdp_state : ℕ → Bool → X → ModemStatus × Bool × X
  pub get_ip_address : ℕ → List ℕ → X → ModemStatus × List ℕ × X
  pub udp_status : ℕ → ℕ → X → ModemStatus × ℕ × X
  pub udp_receive : ℕ → List ℕ → X → ModemStatus × List ℕ × X
  pub is_gnss_powered : X → ModemStatus × Bool × X
  pub get_gnss_position : GnssPosition → X → ModemStatus × GnssPosition × X
  pub get_available_operators : List Operator → X → ModemStatus × List Operator × X
  pub scan_networks : ℕ → ℕ → CsurvResult → X → ModemStatus × CsurvResult × X
  pub send_at_command : List ℕ → List ℕ → ℕ → X → ModemStatus × List ℕ × X
