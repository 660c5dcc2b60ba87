-- ===== src/Tests/Fixtures.antt =====
-- A modem that says ok to everything and whose clock goes on by ten milliseconds with each command,
-- and a machine that has just been told that its context is open.
use x_e310_multi_os.ModemController.Port.{Uart, UartError}
use x_e310_multi_os.ModemController.{ModemController}
use x_e310_multi_os.Modem.Device.{Device}
use x_e310_multi_os.Base.{List, some, ℕ, ◌+◌, true, false, [], codes, none}
use x_e310_multi_os.Modem.Types.{
  ModemStatus, RadioTech, RegStatus, PsmMode, empty_psm_status, empty_registration,
  empty_network_info, unknown_signal, no_position,
}
use x_e310_multi_os.Modem.Configs.{empty_survey, ModemInfo, SimStatus, no_survey}
use x_e310_multi_os.Modem.Interface.{Xe310}
use x_e310_multi_os.Timer.{Timer}
use x_e310_multi_os.NetworkLte.Types.{
  NetworkLteState, NetworkLteEvent, ModemAction, idle_mode, context_opened, disconnected,
  state_change,
}
use x_e310_multi_os.NetworkLte.Trace.{NetworkTraceEntry, new_trace}
use x_e310_multi_os.NetworkLte.State.{
  NetworkLteConfig, ServerInfo, CachedData, StateTimers, NetworkLte, TimerCallback,
}

abbrev pub ok_modem : Xe310 ℕ
ok_modem = record {
  now = λ x. x;
  delay_ms = λ ms x. x + ms;
  last_status = λ x. ModemStatus.ok;
  poll_urc = λ x. ([], x + 10);
  run = λ command x. (ModemStatus.ok, x + 10);
  get_clock = λ old x. (ModemStatus.ok, codes "25/01/01,00:00:00", x + 10);
  get_signal_quality = λ old x. (ModemStatus.ok, old, x + 10);
  get_operator = λ old x. (ModemStatus.ok, codes "26201", x + 10);
  get_apn = λ cid old x. (ModemStatus.ok, codes "iot", x + 10);
  get_telit_psm = λ old x. (ModemStatus.ok, old, x + 10);
  get_registration_status = λ old tech x. (ModemStatus.ok, old, x + 10);
  get_iot_tech = λ old x. (ModemStatus.ok, old, x + 10);
  get_lte_bands = λ old x. (ModemStatus.ok, old, x + 10);
  get_pdp_state = λ cid old x. (ModemStatus.ok, true, x + 10);
  get_ip_address = λ cid old x. (ModemStatus.ok, codes "10.0.0.1", x + 10);
  udp_status = λ conn old x. (ModemStatus.ok, 0, x + 10);
  udp_receive = λ conn old x. (ModemStatus.ok, codes "data", x + 10);
  is_gnss_powered = λ x. (ModemStatus.ok, true, x + 10);
  get_gnss_position = λ old x. (ModemStatus.ok, old, x + 10);
  get_available_operators = λ old x. (ModemStatus.ok, old, x + 10);
  scan_networks = λ start_ch end_ch old x. (ModemStatus.ok, old, x + 10);
  send_at_command = λ command old ms x. (ModemStatus.ok, codes "OK", x + 10);
}

abbrev pub config : NetworkLteConfig
config = record {
  cid = 1;
  attach_timeout_sec = 120;
  pdp_timeout_sec = 30;
  data_ready_timeout_sec = 60;
  transparent_timeout_sec = 300;
  gps_timeout_sec = 180;
  max_network_attempts = 3;
  max_attach_retries = 3;
  max_pdp_retries = 3;
  default_lte_bands = 524420;
  default_iot_tech = RadioTech.cat_m1;
  default_apn = codes "iot";
  fallback_lte_bands = 524420;
  fallback_iot_tech = RadioTech.nb_iot;
  fallback_apn = codes "iot";
  plmn = [];
  psm_enable = false;
  cfun_sleep = false;
  psm_t3412 = 3600;
  psm_t3324 = 60;
  conn_id = 1;
}

abbrev pub no_entry : NetworkTraceEntry
no_entry = record {
  kind = state_change;
  previous_state = NetworkLteState.none;
  current_state = NetworkLteState.none;
  event = NetworkLteEvent.none;
  action = ModemAction.none;
}

abbrev pub stopped : Timer TimerCallback
stopped = record {
  callback = none;
  running = false;
  cancelled = false;
  started = none;
  deadline = 0;
}

abbrev pub no_server : ServerInfo
no_server = record {
  conn_id = 0;
  state = disconnected;
  protocol = [];
  address = [];
  port = 0;
  has_data = false;
}

abbrev pub no_info : ModemInfo
no_info = record {
  imei_sv = [];
  iccid = [];
  imsi = [];
  model_id = [];
  sw_package_version = record {
    package_version = [];
    modem_version = [];
    prod_params_version = [];
    app_version = [];
  };
  telit_id = [];
  identification = [];
  imei = [];
}

-- As the members are initialised.
abbrev pub no_cache : CachedData
no_cache = record {
  modem_info = no_info;
  sim_status = SimStatus.not_inserted;
  radio_tech = RadioTech.lte;
  reg_status = RegStatus.not_registered;
  psm_mode = PsmMode.disable;
  cpsms_config = record {
    mode = PsmMode.disable;
    req_periodic_rau = [];
    req_gprs_ready_timer = [];
    req_periodic_tau = [];
    req_active_time = [];
  };
  telit_cpsms_config = record {
    mode = PsmMode.disable;
    req_periodic_rau = none;
    req_gprs_ready_timer = none;
    req_periodic_tau = none;
    req_active_time = none;
    psm_version = none;
    psm_threshold = none;
  };
  telit_cpsms_status = empty_psm_status;
  network_survey_result = no_survey;
  operator_list = [];
}

abbrev pub no_times : StateTimers
no_times = record {
  network_attaching_ms = 0;
  pdp_context_opening_ms = 0;
  data_ready_ms = 0;
  transparent_mode_ms = 0;
  gnss_fix_mode_ms = 0;
  sleep_mode_ms = 0;
  off_mode_ms = 0;
}

abbrev pub machine : {X : Type 0} → X → NetworkLte X
machine modem = record {
  modem = modem;
  lte_config = config;
  state = idle_mode;
  prev_state = NetworkLteState.none;
  event = NetworkLteEvent.none;
  modem_action = ModemAction.none;
  network_attempts = 0;
  attach_retries = 0;
  pdp_retries = 0;
  reg_info = empty_registration;
  network_info = empty_network_info;
  signal_quality = unknown_signal;
  modem_clock = [];
  gnss_position = no_position;
  csurv_result = empty_survey;
  server_info = λ i. no_server;
  state_timers = no_times;
  st_timer = stopped;
  message_queue = none;
  last_data_conn_id = 0;
  has_data_callback = false;
  delivered = [];
  cold_boot = true;
  warm_boot = false;
  change_bands = false;
  change_rat = false;
  trace = new_trace (λ i. no_entry);
  cached = no_cache;
}

abbrev pub idle : NetworkLte ℕ
idle = machine 1000

abbrev pub opened : NetworkLte ℕ
opened = record idle { event = context_opened }

-- A line in its time in milliseconds that always delivers `bytes`.
abbrev pub line_with : List ℕ → Uart ℕ
line_with bytes = record {
  open_port = λ port config u. (UartError.ok, u);
  close = λ u. u;
  is_open = λ u. true;
  write = λ out u. (UartError.ok, u + 5);
  read = λ size ms u. (UartError.ok, bytes, u + 5);
  now = λ u. u;
}

abbrev pub controller : ModemController ℕ
controller = record {
  urc_rx_buffer = codes "+CEREG: 1,1";
  uart = some 100;
  cmd_timer = record {
    callback = none;
    running = true;
    cancelled = false;
    started = some 100;
    deadline = 1100;
  };
}

-- The modem behind that line, before its first command.
abbrev pub device : Device ℕ
device = record {
  shared = record { controller = controller; lock_requests = 0 };
  last_status = ModemStatus.ok;
}
