-- ===== src/NetworkLte/State.antt =====
-- The data of `class NetworkLte` (include/modem/network_lte.h) and of its configuration
-- (include/modem/network_lte_config.h), over a modem state `X`. `timer_` is left out.
use x_e310_multi_os.Base.{ℕ, Bool, List, Option}
use x_e310_multi_os.Modem.Types.{
  RadioTech, RegStatus, PsmMode, RegistrationInfo, NetworkInfo, SignalQuality, GnssPosition,
  TelitCpsmsStatus, Operator,
}
use x_e310_multi_os.Modem.Configs.{
  CsurvResult, ModemInfo, SimStatus, CpsmsConfig, TelitCpsmsConfig, NetworkSurveyResult,
}
use x_e310_multi_os.MessageQueue.{Side}
use x_e310_multi_os.Timer.{Timer}
use x_e310_multi_os.NetworkLte.Types.{NetworkLteState, NetworkLteEvent, ModemAction, ServerState}
use x_e310_multi_os.NetworkLte.Trace.{TraceRing}

pub record NetworkLteConfig : Type 0 where
  pub cid : ℕ
  pub attach_timeout_sec : ℕ
  pub pdp_timeout_sec : ℕ
  pub data_ready_timeout_sec : ℕ
  pub transparent_timeout_sec : ℕ
  pub gps_timeout_sec : ℕ
  pub max_network_attempts : ℕ
  pub max_attach_retries : ℕ
  pub max_pdp_retries : ℕ
  pub default_lte_bands : ℕ
  pub default_iot_tech : RadioTech
  pub default_apn : List ℕ
  pub fallback_lte_bands : ℕ
  pub fallback_iot_tech : RadioTech
  pub fallback_apn : List ℕ
  pub plmn : List ℕ
  pub psm_enable : Bool
  pub cfun_sleep : Bool
  pub psm_t3412 : ℕ
  pub psm_t3324 : ℕ
  pub conn_id : ℕ

pub record ServerInfo : Type 0 where
  pub conn_id : ℕ
  pub state : ServerState
  pub protocol : List ℕ
  pub address : List ℕ
  pub port : ℕ
  pub has_data : Bool

-- Milliseconds, as uint32_t.
pub record StateTimers : Type 0 where
  pub network_attaching_ms : ℕ
  pub pdp_context_opening_ms : ℕ
  pub data_ready_ms : ℕ
  pub transparent_mode_ms : ℕ
  pub gnss_fix_mode_ms : ℕ
  pub sleep_mode_ms : ℕ
  pub off_mode_ms : ℕ

-- The callbacks that the state machine hands to its timer: `on_timer_expired`, or the empty λ.
pub data TimerCallback : Type 0 where
  on_timer_expired do_nothing : TimerCallback

-- The TX and the RX side of `message_queue_`.
pub record Queues : Type 0 where
  pub capacity : ℕ
  pub tx : Side
  pub rx : Side

-- The members that only the accessors read: no code writes them.
pub record CachedData : Type 0 where
  pub modem_info : ModemInfo
  pub sim_status : SimStatus
  pub radio_tech : RadioTech
  pub reg_status : RegStatus
  pub psm_mode : PsmMode
  pub cpsms_config : CpsmsConfig
  pub telit_cpsms_config : TelitCpsmsConfig
  pub telit_cpsms_status : TelitCpsmsStatus
  pub network_survey_result : NetworkSurveyResult
  pub operator_list : List Operator

pub record NetworkLte (X : Type 0) : Type 0 where
  pub modem : X
  pub lte_config : NetworkLteConfig
  pub state : NetworkLteState
  pub prev_state : NetworkLteState
  pub event : NetworkLteEvent
  pub modem_action : ModemAction
  -- uint8_t counters
  pub network_attempts : ℕ
  pub attach_retries : ℕ
  pub pdp_retries : ℕ
  pub reg_info : RegistrationInfo
  pub network_info : NetworkInfo
  pub signal_quality : SignalQuality
  pub modem_clock : List ℕ
  pub gnss_position : GnssPosition
  pub csurv_result : CsurvResult
  -- by index `conn_id - 1`
  pub server_info : ℕ → ServerInfo
  pub state_timers : StateTimers
  pub st_timer : Timer TimerCallback
  pub message_queue : Option Queues
  pub last_data_conn_id : ℕ
  -- whether `on_data_received_` is set, and what it was called with, latest first
  pub has_data_callback : Bool
  pub delivered : List (ℕ × List ℕ)
  pub cold_boot : Bool
  pub warm_boot : Bool
  pub change_bands : Bool
  pub change_rat : Bool
  pub trace : TraceRing
  pub cached : CachedData
