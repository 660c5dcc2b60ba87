-- ===== src/NetworkLte/Types.antt =====
-- The enumerations of include/modem/network_lte.h, with the source's constructors.

pub data NetworkLteState : Type 0 where
  none rebooting switched_off off_mode sleep_mode setup_mode idle_mode : NetworkLteState
  network_detached network_attaching pdp_context_closed pdp_context_opening : NetworkLteState
  data_ready transparent_mode modem_fota gnss_fix_mode done : NetworkLteState

pub data NetworkLteEvent : Type 0 where
  none psm_enter psm_exit network_detached network_attached context_opened : NetworkLteEvent
  context_closed context_rejected data_available gps_available : NetworkLteEvent
  attach_started pdp_opening timeout : NetworkLteEvent
  network_error attach_error context_error at_command_no_response : NetworkLteEvent

pub data ModemAction : Type 0 where
  none reboot factory_reset check_responsiveness power_on power_off turn_on_radio : ModemAction
  switch_off_radio enter_sleep wake_up setup_radio : ModemAction
  query_network_status query_pdp_context attach_network open_pdp_context : ModemAction
  send_data read_data data_complete : ModemAction
  enter_transparent_mode leave_transparent_mode enter_gnss_fix leave_gnss_fix : ModemAction

unfoldable pub NetworkLteState-discrete : Discrete NetworkLteState
NetworkLteState-discrete = hlevel

pub data NetworkTraceKind : Type 0 where
  state_change event_set action_set error : NetworkTraceKind

pub data ServerState : Type 0 where
  unknown disconnected connected suspended pending_data listening : ServerState
  incoming_connection dns_resolving connecting : ServerState
